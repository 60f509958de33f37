-- ===== src/Zones/Records/Outcomes.antt =====
-- What save_record and delete_record of webui/app/views/zones.py leave on each branch.
use powerdns.Prelude.{
  inl, inr, ◌⊎◌, if_elim, sym, subst, ap, ℕ, ◌≡◌, ◌≢◌, refl, Bool, true, false, Option, none, some,
  List, [], ◌∷◌, ◌||◌, Bool-cases,
}
use powerdns.Text.{Text, text, contains}
use powerdns.Names.{canonical}
use powerdns.Form.{Form}
use powerdns.Store.Audit.{NotesFailure, record_audit-NotesFailure}
use powerdns.Store.{User, Db, record_audit, can_see_zone}
use powerdns.Session.Access.{MaySee, can_see_zone_iff}
use powerdns.Session.{require_zone_access}
use powerdns.DnsUtil.Records.{ParsedName}
use powerdns.Pdns.{Reply, ok, pdns_error}
use powerdns.Pdns.Zones.{ZoneApi, zone_rrsets}
use powerdns.Reverse.Sync.{SyncResult}
use powerdns.Zones.{managed_types, Handled}
use powerdns.Zones.Records.{
  Outcome, Submission, SaveProblem, submission, set_name, problems_of, write_set, after_save,
  save_set, behind, checked, written, save_record, save_detail, is_address, is_some, sign_in_first,
  refused, managed_type, invalid, api_failed, saved,
}

module _ {S : Type 0} (api : ZoneApi S) (ptr_of : Text → Option Text)
    (from_text : Text → Option ParsedName) (known_type : Text → Bool) (parses : Text → Text → Bool)
    (default_ttl : ℕ) (addr : Text) where
  abbrev save_problems : Text → Form → S → List SaveProblem
  save_problems zone_id form s =
      problems_of api ptr_of from_text known_type parses default_ttl addr form (canonical zone_id)
        (submission default_ttl form (canonical zone_id)) (zone_rrsets api zone_id s).0

  abbrev save_write : Text → Form → User → S → Reply Unit × S
  save_write zone_id form u s =
      write_set api ptr_of from_text known_type parses default_ttl addr zone_id
        (submission default_ttl form (canonical zone_id)) u (zone_rrsets api zone_id s).1

  abbrev save_type : Text → Form → Text
  save_type zone_id form = (submission default_ttl form (canonical zone_id)).rtype

  -- What a save by a user who may see the zone leaves, by its outcome.
  abbrev pub SaveLeaves : Text → Form → User → Db → S → Handled Outcome S → Outcome → Type 0
  SaveLeaves zone_id form u db s h managed_type =
      (contains (save_type zone_id form) managed_types ≡ true) × (h.db ≡ db) × (h.server ≡ s)
  SaveLeaves zone_id form u db s h (invalid ps) =
      (contains (save_type zone_id form) managed_types ≡ false)
      × (ps ≡ save_problems zone_id form s)
      × (ps ≢ [])
      × (h.db ≡ db)
      × (h.server ≡ (zone_rrsets api zone_id s).1)
  SaveLeaves zone_id form u db s h (api_failed e) =
      let sub = submission default_ttl form (canonical zone_id) in
      (contains (save_type zone_id form) managed_types ≡ false)
      × (save_problems zone_id form s ≡ [])
      × (save_write zone_id form u s ≡ (pdns_error e, h.server))
      × NotesFailure (set_name sub.name sub.rtype) e db h.db
  SaveLeaves zone_id form u db s h (saved r) =
      (contains (save_type zone_id form) managed_types ≡ false)
      × (save_problems zone_id form s ≡ [])
      × ((save_write zone_id form u s).0 ≡ ok tt)
  SaveLeaves zone_id form u db s h _ = ⊥

  after_save-outcome :
      (zone_name : Text) (sub : Submission) (u : User) (db : Db) (s : S)
      → (r : Option (Reply SyncResult)) × ((after_save api ptr_of from_text known_type parses
            default_ttl addr zone_name sub u db s).outcome
          ≡ saved r)
  unfolding after_save
  after_save-outcome zone_name sub u db s =
      if_elim (λ (h : Handled Outcome S). (r : Option (Reply SyncResult)) × (h.outcome ≡ saved r))
        (is_address sub.rtype || is_some sub.previous) (λ _. (some _, refl)) (λ _. (none, refl))

  module _ (zone_id : Text) (form : Form) (u : User) (db : Db) (s : S)
      (free : contains (save_type zone_id form) managed_types ≡ false) where
    abbrev sub : Submission
    sub = submission default_ttl form (canonical zone_id)

    written-SaveLeaves :
        (r : Reply Unit × S)
        → save_problems zone_id form s ≡ []
        → save_write zone_id form u s ≡ r
        → let h =
            written api ptr_of from_text known_type parses default_ttl addr
              (canonical zone_id)
              sub
              u
              db
              r in
          SaveLeaves zone_id form u db s h h.outcome
    written-SaveLeaves (pdns_error e, s') none_found w =
        (free, none_found, w, record_audit-NotesFailure addr _ _ e u db)
    written-SaveLeaves (ok tt, s') none_found w =
        let db' =
          record_audit addr (text "record.save") (set_name sub.name sub.rtype) (save_detail sub)
            (some u) true db in
        let h =
          after_save api ptr_of from_text known_type parses default_ttl addr (canonical zone_id) sub
            u db' s' in
        subst (SaveLeaves zone_id form u db s h)
          (sym (after_save-outcome (canonical zone_id) sub u db' s').1)
          (free, none_found, ap (λ (x : Reply Unit × S). x.0) w)

    checked-SaveLeaves :
        (ps : List SaveProblem)
        → save_problems zone_id form s ≡ ps
        → let h =
            checked api ptr_of from_text known_type parses default_ttl addr zone_id
              (canonical zone_id)
              sub
              u
              db
              ps
              (zone_rrsets api zone_id s).1 in
          SaveLeaves zone_id form u db s h h.outcome
    checked-SaveLeaves [] e = written-SaveLeaves (save_write zone_id form u s) e refl
    checked-SaveLeaves (p ∷ ps) e = (free, sym e, (λ h. cc), refl, refl)

  save_set-SaveLeaves :
      (zone_id : Text) (form : Form) (u : User) (db : Db) (s : S)
      → let h =
          save_set api ptr_of from_text known_type parses default_ttl addr zone_id form u db s in
        SaveLeaves zone_id form u db s h h.outcome
  unfolding save_set
  save_set-SaveLeaves zone_id form u db s =
      if_elim (λ h. SaveLeaves zone_id form u db s h h.outcome)
        (contains (save_type zone_id form) managed_types) (λ e. (e, refl, refl))
        (λ e. checked-SaveLeaves zone_id form u db s e _ refl)

  -- What stands behind the check of a zone: whoever may not see it changes nothing.
  abbrev pub Guarded : Text → Option User → Db → S → Handled Outcome S → (User → Type 0) → Type 0
  Guarded zone user db s h P =
      ((h.outcome ≡ sign_in_first) × (user ≡ none) × (h.db ≡ db) × (h.server ≡ s))
      ⊎ ((u : User) × (user ≡ some u)
          × ¬ MaySee u zone
          × (h.outcome ≡ refused)
          × (h.db ≡ db)
          × (h.server ≡ s))
      ⊎ ((u : User) × (user ≡ some u) × MaySee u zone × P u)

  behind-Guarded :
      (zone : Text) (user : Option User) (view : User → Handled Outcome S) (db : Db) (s : S)
      (P : User → Handled Outcome S → Type 0)
      → ((u : User) → P u (view u))
      → let h =
          behind api ptr_of from_text known_type parses default_ttl addr
            (require_zone_access zone user)
            view
            db
            s in
        Guarded zone user db s h (λ u. P u h)
  unfolding require_zone_access
  behind-Guarded zone none view db s P p = inl (refl, refl, refl, refl)
  behind-Guarded zone (some u) view db s P p = elim (Bool-cases (can_see_zone u zone)) [
    | inl e ↦ rw e (inr (inr (u, refl, (can_see_zone_iff u zone).0 e, p u)))
    | inr e ↦
        rw e (inr (inl (u, refl, (λ m. cc (e, (can_see_zone_iff u zone).1 m)), refl, refl, refl)))
  ]

  -- A save stops at the first thing that is wrong, and then leaves the links and all rows as they
  -- were: for nobody, for a user who may not see the zone, for a type that the server maintains and
  -- for a form with problems it changes nothing and has at most listed the zone's records; if the
  -- server refuses the old set's deletion or the new set, only a note of the failure, with the
  -- server's message, is added to the audit trail. It is saved only for a user who may see the zone,
  -- with a type that may be edited, with no problem, and if the server took all of it.
  pub save_record_lem :
      (zone_id : Text) (form : Form) (user : Option User) (db : Db) (s : S)
      → let h =
          save_record api ptr_of from_text known_type parses default_ttl addr zone_id form user db
            s in
        Guarded (canonical zone_id) user db s h (λ u. SaveLeaves zone_id form u db s h h.outcome)
  unfolding save_record
  save_record_lem zone_id form user db s =
      behind-Guarded (canonical zone_id) user
        (λ u. save_set api ptr_of from_text known_type parses default_ttl addr zone_id form u db s)
        db s (λ u h. SaveLeaves zone_id form u db s h h.outcome)
        (λ u. save_set-SaveLeaves zone_id form u db s)
