-- ===== src/Zones/Records.antt =====
-- Saving and deleting a record set: save_record and delete_record of webui/app/views/zones.py.
pub mod Outcomes
pub mod Links
pub mod Paths
pub mod Ptrs
mod Tests
use powerdns.Prelude.{
  ℕ, Bool, true, false, not, ◌&&◌, ◌||◌, Option, none, some, List, [], ◌∷◌, ◌++◌, keep, map,
  is_empty, length, take, if◌then◌else◌,
}
use powerdns.Text.{Text, text, eq_text, contains, upper, strip, or_else, decimal}
use powerdns.Names.{canonical, absolute_name}
use powerdns.Form.{Form, field, is_on}
use powerdns.Store.{User, Db, record_audit}
use powerdns.Session.{Gate, signed_out, forbidden, enter, require_zone_access}
use powerdns.DnsUtil.{TtlProblem, validate_ttl}
use powerdns.DnsUtil.Records.{RecordProblem, ParsedName, soa, validate_rrset}
use powerdns.Pdns.{RrSet, Reply, ok, pdns_error, replace_rrset, delete_rrset}
use powerdns.Pdns.Zones.{ZoneApi, Call, ◌>>=◌, ◌>>◌, and_then, zone_rrsets}
use powerdns.Reverse.Links.{forget_ptr}
use powerdns.Reverse.Sync.{SyncResult, Synced, address_types}
use powerdns.Zones.{managed_types, lines, unlink_edited_ptr, Handled}
use powerdns.Zones.Sync.{Target, sync_reverse}

pub data SaveProblem : Type 0 where
  ttl_problem : TtlProblem → SaveProblem
  record_problem : RecordProblem → SaveProblem

-- `saved` and `deleted` carry what became of the PTRs, where they were looked at.
pub data Outcome : Type 0 where
  sign_in_first refused managed_type soa_stays : Outcome
  invalid : List SaveProblem → Outcome
  api_failed : Text → Outcome
  saved deleted : Option (Reply SyncResult) → Outcome

-- What save_record reads from its form. `previous` is the pair that a rename leaves behind.
pub record Submission : Type 0 where
  pub name : Text
  pub rtype : Text
  pub ttl : ℕ
  pub contents : List Text
  pub disabled : Bool
  pub comment : Text
  pub sync_ptr : Bool
  pub previous : Option (Text × Text)

-- request.form.get(key) as a record type
abbrev pub type_field : Form → Text → Text
type_field form key = strip (upper (field form key))

abbrev pub form_name : Form → Text → Text
form_name form zone_name = absolute_name (or_else (field form (text "name")) (text "@")) zone_name

abbrev pub form_ttl : ℕ → Form → ℕ × Option TtlProblem
form_ttl default_ttl form = validate_ttl (or_else (field form (text "ttl")) (decimal default_ttl))

-- The pair that the form says it replaces, if it is not the pair that it saves.
unfoldable pub previous_pair : Text → Text → Text → Text → Text → Option (Text × Text)
unfolding eq_text absolute_name
previous_pair original_name original_type name rtype zone_name =
    let original = absolute_name original_name zone_name in
    if is_empty original_name || is_empty original_type
    then none
    else if eq_text original name && eq_text original_type rtype
    then none
    else some (original, original_type)

unfoldable pub submission : ℕ → Form → Text → Submission
unfolding field strip lines absolute_name previous_pair
submission default_ttl form zone_name =
    let rtype = type_field form (text "type") in
    let name = form_name form zone_name in
    record {
      name = name;
      rtype = rtype;
      ttl = (form_ttl default_ttl form).0;
      contents = lines (field form (text "content"));
      disabled = is_on form (text "disabled");
      comment = take 512 (strip (field form (text "comment")));
      sync_ptr = is_on form (text "sync_ptr");
      previous =
          previous_pair (field form (text "original_name")) (type_field form (text "original_type"))
            name rtype zone_name;
    }

-- existing_types: the types of the other sets at the name. What the server refuses to list is not
-- there.
abbrev pub other_types : Text → Text → Reply (List RrSet) → List Text
other_types name rtype (pdns_error e) = []
other_types name rtype (ok sets) =
    map (λ (r : RrSet). r.rtype)
      (keep (λ (r : RrSet). eq_text (canonical r.name) name && not (eq_text r.rtype rtype)) sets)

abbrev pub ttl_reports : Option TtlProblem → List SaveProblem
ttl_reports none = []
ttl_reports (some p) = ttl_problem p ∷ []

abbrev pub is_address : Text → Bool
is_address rtype = contains rtype address_types

abbrev pub is_some : {A : Type 0} → Option A → Bool
is_some none = false
is_some (some _) = true

abbrev pub set_name : Text → Text → Text
set_name name rtype = name ++ text " " ++ rtype

abbrev pub save_detail : Submission → Text
save_detail sub =
    text "ttl="
    ++ decimal sub.ttl
    ++ text " records="
    ++ decimal (length sub.contents)
    ++ (if sub.disabled then text " disabled" else [])

-- The last step of a rename of a PTR.
abbrev pub forget_previous : Option (Text × Text) → Db → Db
forget_previous none db = db
forget_previous (some (name, rtype)) db =
    if eq_text rtype (text "PTR") then (forget_ptr name db).1 else db

abbrev pub unlink_if_ptr : Submission → Db → Db
unlink_if_ptr sub db =
    if eq_text sub.rtype (text "PTR") then unlink_edited_ptr sub.name sub.contents db else db

abbrev pub target_of : Text → Submission → Target
target_of zone_name sub = record {
  zone = zone_name;
  name = sub.name;
  rtype = sub.rtype;
  ttl = sub.ttl;
  contents = sub.contents;
  enabled = sub.sync_ptr && not sub.disabled;
}

-- The set that delete_record has deleted.
abbrev pub deleted_target : ℕ → Text → Text → Text → Target
deleted_target default_ttl zone_name name rtype = record {
  zone = zone_name;
  name = name;
  rtype = rtype;
  ttl = default_ttl;
  contents = [];
  enabled = false;
}

-- `from_text`, `known_type` and `parses` are dnspython's judgement of names, types and contents,
-- `ptr_of` is the PTR name of an address, `addr` the address that the request came from.
module _ {S : Type 0} (api : ZoneApi S) (ptr_of : Text → Option Text)
    (from_text : Text → Option ParsedName) (known_type : Text → Bool) (parses : Text → Text → Bool)
    (default_ttl : ℕ) (addr : Text) where
  unfoldable pub problems_of : Form → Text → Submission → Reply (List RrSet) → List SaveProblem
  problems_of form zone_name sub sets =
      ttl_reports (form_ttl default_ttl form).1
      ++ map record_problem (
          validate_rrset from_text known_type parses sub.name sub.rtype sub.contents zone_name
            (other_types sub.name sub.rtype sets))

  abbrev pub retire : Text → Option (Text × Text) → Call S Unit
  retire zone_id none s = (ok tt, s)
  retire zone_id (some (name, rtype)) s = delete_rrset api.records zone_id name rtype s

  -- The requests of a save: a rename deletes the old set first.
  unfoldable pub write_set : Text → Submission → User → Call S Unit
  write_set zone_id sub user = do
    retire zone_id sub.previous
    replace_rrset api.records zone_id sub.name sub.rtype sub.ttl sub.contents sub.disabled
        sub.comment user.username

  abbrev pub done_saved : Submission → Synced S → Handled Outcome S
  done_saved sub y = record {
    outcome = saved (some y.reply);
    db = forget_previous sub.previous (unlink_if_ptr sub y.db);
    server = y.server;
  }

  -- What follows a write that succeeded.
  unfoldable pub after_save : Text → Submission → User → Db → S → Handled Outcome S
  after_save zone_name sub user db s =
      if is_address sub.rtype || is_some sub.previous
      then done_saved sub
          (sync_reverse api.records ptr_of addr user sub.previous (target_of zone_name sub) db s)
      else record {
        outcome = saved none;
        db = forget_previous sub.previous (unlink_if_ptr sub db);
        server = s;
      }

  abbrev pub written : Text → Submission → User → Db → Reply Unit × S → Handled Outcome S
  written zone_name sub user db (pdns_error e, s) = record {
    outcome = api_failed e;
    db =
        record_audit addr (text "record.save") (set_name sub.name sub.rtype) e (some user) false db;
    server = s;
  }
  written zone_name sub user db (ok _, s) =
      after_save zone_name sub user
        (record_audit addr (text "record.save") (set_name sub.name sub.rtype) (save_detail sub)
          (some user) true db)
        s

  abbrev pub checked :
      Text → Text → Submission → User → Db → List SaveProblem → S → Handled Outcome S
  checked zone_id zone_name sub user db [] s =
      written zone_name sub user db (write_set zone_id sub user s)
  checked zone_id zone_name sub user db (p ∷ ps) s = record {
    outcome = invalid (p ∷ ps);
    db = db;
    server = s;
  }

  abbrev pub listed :
      Text → Text → Form → Submission → User → Db → Reply (List RrSet) × S → Handled Outcome S
  listed zone_id zone_name form sub user db (sets, s) =
      checked zone_id zone_name sub user db (problems_of form zone_name sub sets) s

  abbrev pub stop : Outcome → Db → S → Handled Outcome S
  stop outcome db s = record { outcome = outcome; db = db; server = s }

  -- The view behind the check of the zone.
  unfoldable pub save_set : Text → Form → User → Db → S → Handled Outcome S
  save_set zone_id form user db s =
      let zone_name = canonical zone_id in
      let sub = submission default_ttl form zone_name in
      if contains sub.rtype managed_types
      then stop managed_type db s
      else listed zone_id zone_name form sub user db (zone_rrsets api zone_id s)

  abbrev pub behind : Gate → (User → Handled Outcome S) → Db → S → Handled Outcome S
  behind signed_out view db s = stop sign_in_first db s
  behind forbidden view db s = stop refused db s
  behind (enter user) view db s = view user

  unfoldable pub save_record : Text → Form → Option User → Db → S → Handled Outcome S
  save_record zone_id form user db s =
      behind (require_zone_access (canonical zone_id) user) (λ u. save_set zone_id form u db s) db s

  abbrev pub done_deleted : Synced S → Handled Outcome S
  done_deleted y = record { outcome = deleted (some y.reply); db = y.db; server = y.server }

  unfoldable pub after_delete : Text → Text → Text → User → Db → S → Handled Outcome S
  after_delete zone_name name rtype user db s =
      if is_address rtype
      then done_deleted (
          sync_reverse api.records ptr_of addr user none
            (deleted_target default_ttl zone_name name rtype) db s)
      else if eq_text rtype (text "PTR")
      then stop (deleted none) (forget_ptr name db).1 s
      else stop (deleted none) db s

  abbrev pub gone : Text → Text → Text → User → Db → Reply Unit × S → Handled Outcome S
  gone zone_name name rtype user db (pdns_error e, s) =
      stop (api_failed e)
        (record_audit addr (text "record.delete") (set_name name rtype) e (some user) false db) s
  gone zone_name name rtype user db (ok _, s) =
      after_delete zone_name name rtype user
        (record_audit addr (text "record.delete") (set_name name rtype) [] (some user) true db) s

  unfoldable pub delete_set : Text → Form → User → Db → S → Handled Outcome S
  delete_set zone_id form user db s =
      let zone_name = canonical zone_id in
      let rtype = type_field form (text "type") in
      let name = absolute_name (field form (text "name")) zone_name in
      if eq_text rtype soa
      then stop soa_stays db s
      else if contains rtype managed_types
      then stop managed_type db s
      else gone zone_name name rtype user db (delete_rrset api.records zone_id name rtype s)

  unfoldable pub delete_record : Text → Form → Option User → Db → S → Handled Outcome S
  delete_record zone_id form user db s =
      behind (require_zone_access (canonical zone_id) user) (λ u. delete_set zone_id form u db s) db
        s
