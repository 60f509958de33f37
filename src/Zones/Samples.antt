-- ===== src/Zones/Samples.antt =====
-- A server that keeps a log of the writes, for the tests of the zone views.
use powerdns.Prelude.{ℕ, Bool, true, false, Option, none, some, List, [], ◌∷◌, if◌then◌else◌}
use powerdns.Text.{Text, text, eq_text}
use powerdns.Pdns.{Reply, ok, pdns_error, Change, replace, delete}
use powerdns.Reverse.Networks.{Network}
use powerdns.Recursor.{Address, RecursorApi}
use powerdns.Recursor.Config.{RecursorConfig}
use powerdns.Pdns.Zones.{Zone, ZoneChange, ZoneApi}

pub data Write : Type 0 where
  record_set : Text → Change → Write
  zone_change : Text → ZoneChange → Write
  zone_made zone_gone : Text → Write

abbrev pub Log : Type 0
Log = List Write

abbrev pub example_zone : Zone
example_zone = record {
  name = some (text "example.org.");
  kind = some (text "Native");
  id = some (text "example.org.");
  masters = [];
  dnssec = false;
  rrsets = [];
}

-- It refuses new record sets in a zone named "locked.", and nothing else.
abbrev pub logged : Text → Change → Log → Reply Unit × Log
logged zone (replace name rtype ttl contents comments) s =
    if eq_text zone (text "locked.")
    then (pdns_error (text "zone is locked"), s)
    else (ok tt, record_set zone (replace name rtype ttl contents comments) ∷ s)
logged zone (delete name rtype) s = (ok tt, record_set zone (delete name rtype) ∷ s)

abbrev pub logging : ZoneApi Log
logging = record {
  records = record {
    zones = λ s. (ok (text "2.0.192.in-addr.arpa." ∷ []), s);
    rrsets = λ zone name rtype s. (ok [], s);
    patch = logged;
  };
  get = λ zone s. (ok example_zone, s);
  post = λ zone s. (ok example_zone, zone_made zone.name ∷ s);
  put = λ zone change s. (ok tt, zone_change zone change ∷ s);
  delete = λ zone s. (ok tt, zone_gone zone ∷ s);
  notify = λ zone s. (ok tt, s);
  axfr_retrieve = λ zone s. (ok tt, s);
  export = λ zone s. (ok [], s);
  keys = λ zone s. (ok [], s);
  post_key = λ zone keytype active s. (ok tt, s);
  delete_key = λ zone key s. (ok tt, s);
}

-- The PTR name of the one address that the tests use.
abbrev pub ptr_of : Text → Option Text
ptr_of address = some (text "1.2.0.192.in-addr.arpa.")

-- dnspython takes everything here.
abbrev pub from_text : Text → Option (ℕ × List ℕ)
from_text name = some (10, [])

abbrev pub known_type : Text → Bool
known_type rtype = true

abbrev pub parses : Text → Text → Bool
parses rtype content = true

-- A Recursor that has one rule, to the authoritative server, and logs the names of the rules that it
-- is given or loses.
abbrev pub recursing : RecursorApi (List Text)
recursing = record {
  zones = λ r. (
    ok (
        (record {
          name = text "example.org.";
          kind = text "Forwarded";
          servers = text "192.0.2.53:53" ∷ [];
          recursion_desired = false;
          id = text "example.org.";
        })
        ∷ []),
    r,
  );
  post = λ rule r. (ok tt, rule.name ∷ r);
  put = λ id rule r. (ok tt, rule.name ∷ r);
  delete = λ id r. (ok tt, id ∷ r);
  flush = λ name r. (ok 0, r);
}

abbrev pub recursor_config : RecursorConfig
recursor_config = record {
  api_url = text "http://recursor:8082";
  api_key = text "secret";
  dns_address = text "192.0.2.53";
  dns_port = 53;
}

abbrev pub ip_address : Text → Option Address
ip_address t = some (false, t)

abbrev pub ip_network : Text → Option Network
ip_network t = none
