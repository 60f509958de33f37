-- ===== src/Zones/Dnssec.antt =====
-- Switching DNSSEC on and off: the POST of dnssec in webui/app/views/zones.py.
pub mod Keys
pub mod Outcomes
mod Tests
use powerdns.Prelude.{ℕ, Bool, true, false, Option, some, List, [], ◌∷◌, ◌++◌, if◌then◌else◌}
use powerdns.Text.{Text, text, eq_text}
use powerdns.Names.{canonical}
use powerdns.Form.{Form, field}
use powerdns.Store.{User, Db, record_audit}
use powerdns.Session.{Gate, signed_out, forbidden, enter, operator_required}
use powerdns.Pdns.{Reply, ok, pdns_error}
use powerdns.Pdns.Zones.{
  ZoneApi, Call, ◌>>=◌, ◌>>◌, and_then, pure, cryptokeys, create_cryptokey, delete_cryptokey,
  set_zone_dnssec,
}
use powerdns.Zones.{Handled}

pub data DnssecOutcome : Type 0 where
  sign_in_first refused enabled disabled unknown_action : DnssecOutcome
  api_failed : Text → DnssecOutcome

module _ {S : Type 0} (api : ZoneApi S) (addr : Text) where
  -- A signed zone with no key gets one.
  abbrev pub ensure_key : Text → List ℕ → Call S Unit
  ensure_key zone_id [] = create_cryptokey api zone_id (text "csk") true
  ensure_key zone_id (k ∷ ks) = pure tt

  unfoldable pub enable : Text → Call S Unit
  enable zone_id = do
    set_zone_dnssec api zone_id true
    keys ← cryptokeys api zone_id
    ensure_key zone_id keys

  unfoldable pub delete_keys : Text → List ℕ → Call S Unit
  delete_keys zone_id [] = pure tt
  delete_keys zone_id (k ∷ ks) = delete_cryptokey api zone_id k >> delete_keys zone_id ks

  unfoldable pub disable : Text → Call S Unit
  disable zone_id = do
    keys ← cryptokeys api zone_id
    delete_keys zone_id keys
    set_zone_dnssec api zone_id false

  -- What is left once the requests have been made.
  abbrev pub settled :
      Text → Text → DnssecOutcome → User → Db → Reply Unit × S → Handled DnssecOutcome S
  settled zone_name action outcome user db (pdns_error e, s) = record {
    outcome = api_failed e;
    db = record_audit addr (text "zone.dnssec_" ++ action) zone_name e (some user) false db;
    server = s;
  }
  settled zone_name action outcome user db (ok _, s) = record {
    outcome = outcome;
    db = record_audit addr (text "zone.dnssec_" ++ action) zone_name [] (some user) true db;
    server = s;
  }

  unfoldable pub change : Text → Text → User → Db → S → Handled DnssecOutcome S
  change zone_id action user db s =
      if eq_text action (text "enable")
      then settled (canonical zone_id) action enabled user db (enable zone_id s)
      else if eq_text action (text "disable")
      then settled (canonical zone_id) action disabled user db (disable zone_id s)
      else record { outcome = unknown_action; db = db; server = s }

  abbrev pub at_gate : Gate → Text → Text → Db → S → Handled DnssecOutcome S
  at_gate signed_out zone_id action db s = record { outcome = sign_in_first; db = db; server = s }
  at_gate forbidden zone_id action db s = record { outcome = refused; db = db; server = s }
  at_gate (enter user) zone_id action db s = change zone_id action user db s

  unfoldable pub dnssec : Text → Form → Option User → Db → S → Handled DnssecOutcome S
  dnssec zone_id form user db s =
      at_gate (operator_required user) zone_id (field form (text "action")) db s
