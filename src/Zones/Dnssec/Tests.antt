-- ===== src/Zones/Dnssec/Tests.antt =====
-- DNSSEC on a server that keeps a list of keys.
use powerdns.Prelude.{false, true, ℕ, ◌≡◌, ◌==◌, refl, not, some, List, [], ◌∷◌, keep}
use powerdns.Text.{contains, Text, text}
use powerdns.Form.{field, Form}
use powerdns.Pdns.{ok}
use powerdns.Pdns.Zones.{
  ZoneChange, set_dnssec, set_kind, ZoneApi, cryptokeys, delete_cryptokey, set_zone_dnssec,
}
use powerdns.Samples.{alice, sample_db}
use powerdns.Zones.{Handled}
use powerdns.Zones.Samples.{example_zone}
use powerdns.Zones.Dnssec.{delete_keys, disable, change, DnssecOutcome, dnssec}
use powerdns.Session.{role_required}

-- A zone that is switched on has a key from then on, and one that is switched off has none.
abbrev switch : ZoneChange → List ℕ → List ℕ
switch (set_dnssec true) [] = 1 ∷ []
switch (set_dnssec true) (k ∷ ks) = k ∷ ks
switch (set_dnssec false) ks = []
switch (set_kind kind masters) ks = ks

abbrev keyed : ZoneApi (List ℕ)
keyed = record {
  records = record {
    zones = λ s. (ok [], s);
    rrsets = λ zone name rtype s. (ok [], s);
    patch = λ zone change s. (ok tt, s);
  };
  get = λ zone s. (ok example_zone, s);
  post = λ zone s. (ok example_zone, s);
  put = λ zone change s. (ok tt, switch change s);
  delete = λ zone s. (ok tt, s);
  notify = λ zone s. (ok tt, s);
  axfr_retrieve = λ zone s. (ok tt, s);
  export = λ zone s. (ok [], s);
  keys = λ zone s. (ok s, s);
  post_key = λ zone keytype active s. (ok tt, 1 ∷ s);
  delete_key = λ zone k s. (ok tt, keep (λ j. not (j == k)) s);
}

abbrev zone_id : Text
zone_id = text "example.org."

abbrev off : Form
off = (text "action", text "disable") ∷ []

abbrev switched : Handled DnssecOutcome (List ℕ)
switched = dnssec keyed (text "::1") zone_id off (some alice) sample_db (3 ∷ 5 ∷ [])

switched_off : switched.server ≡ []
unfolding dnssec role_required contains change field disable cryptokeys delete_keys delete_cryptokey
    set_zone_dnssec
switched_off = refl
