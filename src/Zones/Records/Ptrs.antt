-- ===== src/Zones/Records/Ptrs.antt =====
-- The PTRs that save_record and delete_record of webui/app/views/zones.py take away.
use powerdns.Prelude.{
  ℕ, ◌≡◌, refl, Bool, true, false, not, ◌&&◌, ◌||◌, Option, none, some, List, [], subst, sym, arith,
  is_empty, if_elim,
}
use powerdns.Text.{Text, text, eq_text, upper, or_else}
use powerdns.Text.Laws.{eq_text_iff}
use powerdns.Text.Upper.{upper-strip-upper}
use powerdns.Names.{canonical, absolute_name}
use powerdns.Names.Absolute.{canonical-absolute_name}
use powerdns.Form.{Form, field}
use powerdns.Store.{User, ReverseLink, Db, record_audit}
use powerdns.DnsUtil.Records.{ParsedName}
use powerdns.Pdns.{Reply}
use powerdns.Pdns.Zones.{ZoneApi}
use powerdns.Reverse.Links.Table.{HasUniquePtrs}
use powerdns.Reverse.Sync.{SyncResult, Forward, forward}
use powerdns.Reverse.Sync.Retired.{OwnsNone, same_set, forget_ptr-OwnsNone}
use powerdns.Zones.{Handled}
use powerdns.Zones.Sync.{is_other, sync_reverse}
use powerdns.Zones.Sync.Links.{sync_reverse-retired, sync_reverse-renamed}
use powerdns.Zones.Records.{
  Outcome, Submission, set_name, save_detail, is_some, submission, previous_pair, type_field,
  form_name, target_of, deleted_target, save_record, delete_record, is_address, saved, deleted,
}
use powerdns.Zones.Records.Paths.{save_record-elim, delete_record-elim}
use powerdns.Zones.Records.Links.{after_save-keeps, after_delete-keeps}

previous_pair_lem :
    (original_name original_type name rtype zone : Text) (p : Text × Text)
    → previous_pair original_name original_type name rtype zone ≡ some p
    → ((absolute_name original_name zone, original_type) ≡ p)
      × ((eq_text (absolute_name original_name zone) name && eq_text original_type rtype) ≡ false)
unfolding previous_pair
previous_pair_lem original_name original_type name rtype zone p =
    let original = absolute_name original_name zone in
    let P : Option (Text × Text) → Type 0 = λ o.
      o ≡ some p
      → ((original, original_type) ≡ p)
        × ((eq_text original name && eq_text original_type rtype) ≡ false) in
    if_elim P (is_empty original_name || is_empty original_type) (λ _ e. cc)
      (λ _.
        if_elim P (eq_text original name && eq_text original_type rtype) (λ _ e. cc)
          (λ d e. ((cc), d)))

-- A renamed set's old name or type differs from the new one, in normal form too.
differs :
    (original name original_type rtype : Text)
    → canonical original ≡ original
    → canonical name ≡ name
    → upper original_type ≡ original_type
    → upper rtype ≡ rtype
    → (eq_text original name && eq_text original_type rtype) ≡ false
    → (not (eq_text original (canonical name) && eq_text original_type rtype) ≡ true)
      × ((eq_text (canonical name) (canonical original)
            && eq_text (upper rtype) (upper original_type))
          ≡ false)
differs original name original_type rtype a b c d e =
    rw (a, b, c, d)
      (ground (
        arith,
        eq_text_iff original name,
        eq_text_iff name original,
        eq_text_iff original_type rtype,
        eq_text_iff rtype original_type,
      ))

renamed_differs :
    (default_ttl : ℕ) (form : Form) (zone_id : Text) (p : Text × Text)
    → let sub = submission default_ttl form (canonical zone_id) in
      let t = target_of (canonical zone_id) sub in
      sub.previous ≡ some p
      → (is_other p t ≡ true)
        × (same_set (forward t.zone t.name t.rtype t.ttl) (forward t.zone p.0 p.1 t.ttl) ≡ false)
unfolding submission
renamed_differs default_ttl form zone_id p e =
    let zone = canonical zone_id in
    let rtype = type_field form (text "type") in
    let original = field form (text "original_name") in
    let (same, d) =
      previous_pair_lem original (type_field form (text "original_type")) (form_name form zone)
        rtype zone p e in
    subst
      (λ (q : Text × Text).
        (not (eq_text q.0 (canonical (form_name form zone)) && eq_text q.1 rtype) ≡ true)
        × ((eq_text (canonical (form_name form zone)) (canonical q.0)
              && eq_text (upper rtype) (upper q.1))
            ≡ false))
      same
      (differs (absolute_name original zone) (form_name form zone)
        (type_field form (text "original_type")) rtype (canonical-absolute_name original zone)
        (canonical-absolute_name (or_else (field form (text "name")) (text "@")) zone)
        (upper-strip-upper (field form (text "original_type")))
        (upper-strip-upper (field form (text "type"))) d)

not_plain :
    (b : Bool) (o : Option (Text × Text)) (p : Text × Text)
    → o ≡ some p
    → (b || is_some o) ≡ false
    → ⊥
not_plain true o p e h = cc
not_plain false none p e h = cc
not_plain false (some q) p e h = cc

module _ {S : Type 0} (api : ZoneApi S) (ptr_of : Text → Option Text)
    (from_text : Text → Option ParsedName) (known_type : Text → Bool) (parses : Text → Text → Bool)
    (default_ttl : ℕ) (addr : Text) (zone_id : Text) (form : Form) (user : Option User) (db : Db)
    (s : S) (r : Option (Reply SyncResult)) (unique : HasUniquePtrs db.reverse_links) where
  abbrev save : Handled Outcome S
  save = save_record api ptr_of from_text known_type parses default_ttl addr zone_id form user db s

  abbrev sub : Submission
  sub = submission default_ttl form (canonical zone_id)

  abbrev LinksHave : Forward → List ReverseLink → Type 0
  LinksHave f ls = OwnsNone f (record db { reverse_links = ls })

  abbrev noted : User → Db
  noted u =
      record_audit addr (text "record.save") (set_name sub.name sub.rtype) (save_detail sub)
        (some u) true db

  switched_off :
      is_address sub.rtype ≡ true
      → (sub.sync_ptr && not sub.disabled) ≡ false
      → save.outcome ≡ saved r
      → OwnsNone (forward (canonical zone_id) sub.name sub.rtype sub.ttl) save.db
  unfolding record_audit
  switched_off address off =
      let f = forward (canonical zone_id) sub.name sub.rtype sub.ttl in
      save_record-elim api ptr_of from_text known_type parses default_ttl addr
        (λ h. h.outcome ≡ saved r → OwnsNone f h.db) zone_id form db (λ h q e. absurd (q.1 r e))
        (λ u s' _.
          after_save-keeps api ptr_of from_text known_type parses default_ttl addr (LinksHave f)
            (λ ptr d. forget_ptr-OwnsNone f ptr d) (canonical zone_id) sub u (noted u) s'
            (λ _.
              sync_reverse-retired api.records ptr_of addr u sub.previous
                (target_of (canonical zone_id) sub) _ s' off unique)
            (λ n. cc (address, n)))
        user s

  left_behind :
      (p : Text × Text)
      → sub.previous ≡ some p
      → save.outcome ≡ saved r
      → OwnsNone (forward (canonical zone_id) p.0 p.1 sub.ttl) save.db
  unfolding record_audit
  left_behind p renamed =
      let f = forward (canonical zone_id) p.0 p.1 sub.ttl in
      let t = target_of (canonical zone_id) sub in
      let d = renamed_differs default_ttl form zone_id p renamed in
      save_record-elim api ptr_of from_text known_type parses default_ttl addr
        (λ h. h.outcome ≡ saved r → OwnsNone f h.db) zone_id form db (λ h q e. absurd (q.1 r e))
        (λ u s' _.
          after_save-keeps api ptr_of from_text known_type parses default_ttl addr (LinksHave f)
            (λ ptr d'. forget_ptr-OwnsNone f ptr d') (canonical zone_id) sub u (noted u) s'
            (λ _.
              subst
                (λ o.
                  LinksHave f
                    (sync_reverse api.records ptr_of addr u o t (noted u) s').db.reverse_links)
                (sym renamed)
                (sync_reverse-renamed api.records ptr_of addr u p t (noted u) s' d.0 d.1 unique))
            (λ n. absurd (not_plain (is_address sub.rtype) sub.previous p renamed n)))
        user s

  deleted_set :
      let name = absolute_name (field form (text "name")) (canonical zone_id) in
      let rtype = type_field form (text "type") in
      let h =
        delete_record api ptr_of from_text known_type parses default_ttl addr zone_id form user db
          s in
      is_address rtype ≡ true
      → h.outcome ≡ deleted r
      → OwnsNone (forward (canonical zone_id) name rtype default_ttl) h.db
  unfolding record_audit
  deleted_set address =
      let name = absolute_name (field form (text "name")) (canonical zone_id) in
      let rtype = type_field form (text "type") in
      let f = forward (canonical zone_id) name rtype default_ttl in
      delete_record-elim api ptr_of from_text known_type parses default_ttl addr
        (λ h. h.outcome ≡ deleted r → OwnsNone f h.db) zone_id form db (λ h q e. absurd (q.2 r e))
        (λ u s' _.
          after_delete-keeps api ptr_of from_text known_type parses default_ttl addr (LinksHave f)
            (λ ptr d. forget_ptr-OwnsNone f ptr d) (canonical zone_id) name rtype u
            (record_audit addr (text "record.delete") (set_name name rtype) [] (some u) true db) s'
            (λ _.
              sync_reverse-retired api.records ptr_of addr u none
                (deleted_target default_ttl (canonical zone_id) name rtype) _ s' refl unique)
            (λ n. cc (address, n)))
        user s

  -- If no two links have the same PTR name: a save that succeeds leaves no PTR linked to the pair of
  -- name and type that a rename left behind, and, if the set is disabled or its PTRs are switched off,
  -- none linked to the address set that it wrote; and a deletion of an address set that succeeds leaves
  -- no PTR linked to it.
  pub records-OwnsNone :
      let gone_name = absolute_name (field form (text "name")) (canonical zone_id) in
      let gone_type = type_field form (text "type") in
      let h =
        delete_record api ptr_of from_text known_type parses default_ttl addr zone_id form user db
          s in
      (save.outcome ≡ saved r
        → ((p : Text × Text)
            → sub.previous ≡ some p
            → OwnsNone (forward (canonical zone_id) p.0 p.1 sub.ttl) save.db)
          × (is_address sub.rtype ≡ true
              → (sub.sync_ptr && not sub.disabled) ≡ false
              → OwnsNone (forward (canonical zone_id) sub.name sub.rtype sub.ttl) save.db))
      × (is_address gone_type ≡ true
          → h.outcome ≡ deleted r
          → OwnsNone (forward (canonical zone_id) gone_name gone_type default_ttl) h.db)
  records-OwnsNone = (
    (λ e. ((λ p renamed. left_behind p renamed e), (λ a off. switched_off a off e))),
    deleted_set,
  )
