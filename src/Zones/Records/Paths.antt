-- ===== src/Zones/Records/Paths.antt =====
-- The ways through save_record and delete_record of webui/app/views/zones.py: what holds of every view
-- that stops early and of the last step holds of the whole.
use powerdns.Prelude.{
  ℕ, ◌≡◌, ◌≢◌, refl, inl, inr, Bool, true, Option, none, some, List, [], ◌∷◌, Bool-cases, if_elim,
}
use powerdns.Text.{Text, text, eq_text, contains}
use powerdns.Names.{canonical, absolute_name}
use powerdns.Form.{Form, field}
use powerdns.Store.{User, Db, record_audit, can_see_zone}
use powerdns.Session.{require_zone_access}
use powerdns.DnsUtil.Records.{ParsedName, soa}
use powerdns.Pdns.{Reply, ok, pdns_error}
use powerdns.Pdns.Zones.{ZoneApi}
use powerdns.Reverse.Sync.{SyncResult}
use powerdns.Zones.{managed_types, Handled}
use powerdns.Zones.Records.{
  Outcome, Submission, SaveProblem, submission, type_field, set_name, write_set, behind, checked,
  written, gone, after_save, save_set, save_record, after_delete, delete_set, delete_record,
  save_detail, saved, deleted,
}

module _ {S : Type 0} (api : ZoneApi S) (ptr_of : Text → Option Text)
    (from_text : Text → Option ParsedName) (known_type : Text → Bool) (parses : Text → Text → Bool)
    (default_ttl : ℕ) (addr : Text) where
  -- A view that has not got to its end.
  abbrev pub IsQuiet : Db → Handled Outcome S → Type 0
  IsQuiet db h =
      (h.db.reverse_links ≡ db.reverse_links)
      × ((r : Option (Reply SyncResult)) → h.outcome ≢ saved r)
      × ((r : Option (Reply SyncResult)) → h.outcome ≢ deleted r)

  module _ (P : Handled Outcome S → Type 0) (zone_id : Text) (form : Form) (db : Db)
      (quiet : (h : Handled Outcome S) → IsQuiet db h → P h) where
    -- The name of the zone, and the database with the note of a success.
    behind-elim :
        (user : Option User) (view : User → Handled Outcome S) (s : S)
        → ((u : User) → P (view u))
        → P (
            behind api ptr_of from_text known_type parses default_ttl addr
              (require_zone_access (canonical zone_id) user)
              view
              db
              s)
    unfolding require_zone_access
    behind-elim none view s p = quiet _ (refl, (λ r e. cc), (λ r e. cc))
    behind-elim (some u) view s p = elim (Bool-cases (can_see_zone u (canonical zone_id))) [
      | inl e ↦ rw e (p u)
      | inr e ↦ rw e (quiet _ (refl, (λ r e. cc), (λ r e. cc)))
    ]

    abbrev pub sub : Submission
    sub = submission default_ttl form (canonical zone_id)

    abbrev pub note_saved : User → Db
    note_saved u =
        record_audit addr (text "record.save") (set_name sub.name sub.rtype) (save_detail sub)
          (some u) true db

    module _
        (after : (u : User) (s : S)
          → P (
              after_save api ptr_of from_text known_type parses default_ttl addr
                (canonical zone_id)
                sub
                u
                (note_saved u)
                s)) where
      written-elim :
          (u : User) (r : Reply Unit × S)
          → P (
              written api ptr_of from_text known_type parses default_ttl addr
                (canonical zone_id)
                sub
                u
                db
                r)
      unfolding record_audit
      written-elim u (pdns_error e, s) = quiet _ (refl, (λ r e. cc), (λ r e. cc))
      written-elim u (ok _, s) = after u s

      checked-elim :
          (u : User) (ps : List SaveProblem) (s : S)
          → P (
              checked api ptr_of from_text known_type parses default_ttl addr zone_id
                (canonical zone_id)
                sub
                u
                db
                ps
                s)
      checked-elim u [] s =
          written-elim u
            (write_set api ptr_of from_text known_type parses default_ttl addr zone_id sub u s)
      checked-elim u (p ∷ ps) s = quiet _ (refl, (λ r e. cc), (λ r e. cc))

      pub save_record-elim :
          (user : Option User) (s : S)
          → P (
              save_record api ptr_of from_text known_type parses default_ttl addr zone_id form user
                db s)
      unfolding save_record save_set
      save_record-elim user s = behind-elim user _ s (λ u.
          if_elim P (contains sub.rtype managed_types)
            (λ _. quiet _ (refl, (λ r e. cc), (λ r e. cc))) (λ _. checked-elim u _ _))

    -- The name and the type that a deletion is of.
    abbrev pub gone_name : Text
    gone_name = absolute_name (field form (text "name")) (canonical zone_id)

    abbrev pub gone_type : Text
    gone_type = type_field form (text "type")

    abbrev pub note_deleted : User → Db
    note_deleted u =
        record_audit addr (text "record.delete") (set_name gone_name gone_type) [] (some u) true db

    module _
        (after : (u : User) (s : S)
          → P (
              after_delete api ptr_of from_text known_type parses default_ttl addr
                (canonical zone_id)
                gone_name
                gone_type
                u
                (note_deleted u)
                s)) where
      gone-elim :
          (u : User) (r : Reply Unit × S)
          → P (
              gone api ptr_of from_text known_type parses default_ttl addr
                (canonical zone_id)
                gone_name
                gone_type
                u
                db
                r)
      unfolding record_audit
      gone-elim u (pdns_error e, s) = quiet _ (refl, (λ r e. cc), (λ r e. cc))
      gone-elim u (ok _, s) = after u s

      pub delete_record-elim :
          (user : Option User) (s : S)
          → P (
              delete_record api ptr_of from_text known_type parses default_ttl addr zone_id form
                user db s)
      unfolding delete_record delete_set
      delete_record-elim user s = behind-elim user _ s (λ u.
          if_elim P (eq_text gone_type soa) (λ _. quiet _ (refl, (λ r e. cc), (λ r e. cc)))
            (λ _.
              if_elim P (contains gone_type managed_types)
                (λ _. quiet _ (refl, (λ r e. cc), (λ r e. cc))) (λ _. gone-elim u _)))
