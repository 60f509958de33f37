-- ===== src/Zones/Delete.antt =====
-- Deleting a zone, and the requests that only pass one on: delete, notify, retrieve and export of
-- webui/app/views/zones.py.
pub mod Outcomes
use powerdns.Prelude.{Bool, true, false, Option, none, some, List, [], if◌then◌else◌}
use powerdns.Text.{Text, text, eq_text}
use powerdns.Names.{canonical}
use powerdns.Form.{Form, field}
use powerdns.Store.{User, Db, record_audit}
use powerdns.Session.{Gate, signed_out, forbidden, enter, operator_required, require_zone_access}
use powerdns.Pdns.{Reply, ok, pdns_error}
use powerdns.Pdns.Zones.{ZoneApi, delete_zone, notify_zone, retrieve_zone, export_zone}
use powerdns.Reverse.Links.{forget_zone}
use powerdns.Recursor.{Address, RecursorApi}
use powerdns.Recursor.Config.{RecursorConfig}
use powerdns.Zones.{Hosted}
use powerdns.Zones.Resolver.{Forwarding, forward_locally}

pub data DeleteOutcome : Type 0 where
  sign_in_first refused not_confirmed : DeleteOutcome
  api_failed : Text → DeleteOutcome
  done : Forwarding → DeleteOutcome

-- What notify, retrieve and export leave; the text is the file that export sends.
pub data Passed : Type 0 where
  sign_in_first refused sent : Passed
  file : Text → Passed
  api_failed : Text → Passed

module _ {S R : Type 0} (api : ZoneApi S) (recursor : RecursorApi R)
    (ip_address : Text → Option Address) (config : RecursorConfig) (addr : Text) where
  abbrev pub forgotten : Db → S → Forwarding × R → Hosted DeleteOutcome S R
  forgotten db s (forwarding, r) = record {
    outcome = done forwarding;
    db = db;
    server = s;
    recursor = r;
  }

  abbrev pub after_deletion : Text → User → Db → R → Reply Unit × S → Hosted DeleteOutcome S R
  after_deletion zone_name user db r (pdns_error e, s) = record {
    outcome = api_failed e;
    db = record_audit addr (text "zone.delete") zone_name e (some user) false db;
    server = s;
    recursor = r;
  }
  after_deletion zone_name user db r (ok _, s) =
      forgotten
        (forget_zone zone_name
          (record_audit addr (text "zone.delete") zone_name [] (some user) true db))
        s (forward_locally recursor ip_address config zone_name true r)

  abbrev pub stopped : DeleteOutcome → Db → S → R → Hosted DeleteOutcome S R
  stopped outcome db s r = record { outcome = outcome; db = db; server = s; recursor = r }

  unfoldable pub delete_confirmed : Text → Form → User → Db → S → R → Hosted DeleteOutcome S R
  delete_confirmed zone_id form user db s r =
      let zone_name = canonical zone_id in
      if eq_text (canonical (field form (text "confirm"))) zone_name
      then after_deletion zone_name user db r (delete_zone api zone_id s)
      else stopped not_confirmed db s r

  abbrev pub at_gate : Gate → Text → Form → Db → S → R → Hosted DeleteOutcome S R
  at_gate signed_out zone_id form db s r = stopped sign_in_first db s r
  at_gate forbidden zone_id form db s r = stopped refused db s r
  at_gate (enter user) zone_id form db s r = delete_confirmed zone_id form user db s r

  unfoldable pub delete : Text → Form → Option User → Db → S → R → Hosted DeleteOutcome S R
  delete zone_id form user db s r = at_gate (operator_required user) zone_id form db s r

  abbrev pub noted : Text → Text → User → Db → Reply Unit × S → Passed × Db × S
  noted action zone_id user db (pdns_error e, s) = (api_failed e, db, s)
  noted action zone_id user db (ok _, s) =
      (sent, record_audit addr action (canonical zone_id) [] (some user) true db, s)

  abbrev pub pass_on : Gate → Text → Text → (Text → S → Reply Unit × S) → Db → S → Passed × Db × S
  pass_on signed_out action zone_id request db s = (sign_in_first, db, s)
  pass_on forbidden action zone_id request db s = (refused, db, s)
  pass_on (enter user) action zone_id request db s =
      noted action zone_id user db (request zone_id s)

  unfoldable pub notify : Text → Option User → Db → S → Passed × Db × S
  notify zone_id user db s =
      pass_on (operator_required user) (text "zone.notify") zone_id (notify_zone api) db s

  unfoldable pub retrieve : Text → Option User → Db → S → Passed × Db × S
  retrieve zone_id user db s =
      pass_on (operator_required user) (text "zone.retrieve") zone_id (retrieve_zone api) db s

  abbrev pub as_file : Db → Reply Text × S → Passed × Db × S
  as_file db (pdns_error e, s) = (api_failed e, db, s)
  as_file db (ok content, s) = (file content, db, s)

  abbrev pub export_at : Gate → Text → Db → S → Passed × Db × S
  export_at signed_out zone_id db s = (sign_in_first, db, s)
  export_at forbidden zone_id db s = (refused, db, s)
  export_at (enter user) zone_id db s = as_file db (export_zone api zone_id s)

  unfoldable pub export : Text → Option User → Db → S → Passed × Db × S
  export zone_id user db s = export_at (require_zone_access (canonical zone_id) user) zone_id db s
