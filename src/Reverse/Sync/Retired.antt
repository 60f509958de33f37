-- ===== src/Reverse/Sync/Retired.antt =====
-- Taking the PTRs of a record set away: a sync with `enabled` off, which _sync_reverse of
-- webui/app/views/zones.py asks for after a deletion and for what a rename leaves behind.
use powerdns.Prelude.{
  ℕ, ◌≡◌, inl, inr, refl, ◌&&◌, Bool, false, Option, none, some, List, arith, if_elim, subst, sym,
  if◌then◌else◌,
}
use powerdns.Text.{Text, eq_text}
use powerdns.Dict.{lookup}
use powerdns.Store.{User, ReverseLink, Db}
use powerdns.Pdns.{Reply, ok, pdns_error, Api}
use powerdns.Names.{canonical}
use powerdns.Reverse.Links.{is_of_record, link_at, forget_at, forget_ptr}
use powerdns.Reverse.Links.Table.{HasUniquePtrs, is_owned, link_at-remove_link}
use powerdns.Reverse.Sync.{
  SyncResult, Forward, Plan, Synced, link_of, forward, plan_for, sync_record,
}
use powerdns.Reverse.Sync.Owner.{Ended, Syncs, sync_record_lem}

-- No PTR is linked to the record set.
abbrev pub OwnsNone : Forward → Db → Type 0
OwnsNone f db = (ptr : Text) → is_owned f.zone f.name f.rtype (link_at ptr db.reverse_links) ≡ false

-- Whether two record sets have the same name and type.
abbrev pub same_set : Forward → Forward → Bool
same_set f g = eq_text f.name g.name && eq_text f.rtype g.rtype

taken_away :
    (f : Forward) (old : Option ReverseLink)
    → is_owned f.zone f.name f.rtype (if is_owned f.zone f.name f.rtype old then none else old)
      ≡ false
taken_away f old =
    if_elim (λ o. is_owned f.zone f.name f.rtype o ≡ false) (is_owned f.zone f.name f.rtype old)
      (λ _. refl) (λ e. e)

not_of_other :
    (f g : Forward) (ptr : Text) (v : Text × Text)
    → same_set f g ≡ false
    → is_of_record g.zone g.name g.rtype (link_of f (ptr, v)) ≡ false
not_of_other f g ptr (zone, address) h = ground arith

Ended-other :
    (f g : Forward) (ptr : Text) (o : Option (Text × Text)) (failed : List Text)
    (old new : Option ReverseLink)
    → same_set f g ≡ false
    → is_owned g.zone g.name g.rtype old ≡ false
    → Ended f ptr o failed old new
    → is_owned g.zone g.name g.rtype new ≡ false
Ended-other f g ptr none failed old new d h e =
    subst (λ n. is_owned g.zone g.name g.rtype n ≡ false) (sym e)
      (if_elim (λ n. is_owned g.zone g.name g.rtype n ≡ false) (is_owned f.zone f.name f.rtype old)
        (λ _. refl) (λ _. h))
Ended-other f g ptr (some v) failed old new d h (_, inl e) =
    subst (λ n. is_owned g.zone g.name g.rtype n ≡ false) (sym e) (not_of_other f g ptr v d)
Ended-other f g ptr (some v) failed old new d h (_, inr e) =
    subst (λ n. is_owned g.zone g.name g.rtype n ≡ false) (sym e) h

Syncs-other :
    {S : Type 0} (f g : Forward) (db : Db) (r : Reply Plan × S) (y : Synced S)
    → same_set f g ≡ false
    → OwnsNone g db
    → Syncs f db r y
    → OwnsNone g y.db
Syncs-other f g db (pdns_error e, s) y d h (_, same) = subst (OwnsNone g) (sym same) h
Syncs-other f g db (ok p, s) y d h (result, _, ended) =
    λ ptr. Ended-other f g ptr (lookup ptr p.desired) result.failed _ _ d (h ptr) (ended ptr)

module _ {S : Type 0} (api : Api S) (ptr_of : Text → Option Text) (user : User)
    (zone name rtype : Text) (ttl : ℕ) (addresses : List Text) (zone_names : Option (List Text))
    (db : Db) (s : S) (unique : HasUniquePtrs db.reverse_links) where
  -- A sync without PTRs always returns, and leaves the set none.
  pub sync_record-retired :
      let y = sync_record api ptr_of user zone name rtype ttl addresses false zone_names db s in
      ((result : SyncResult) × (y.reply ≡ ok result)) × OwnsNone (forward zone name rtype ttl) y.db
  unfolding lookup
  sync_record-retired =
      let f = forward zone name rtype ttl in
      let (result, e, ended) =
        sync_record_lem api ptr_of user zone name rtype ttl addresses false zone_names db s
          unique in
      (
        (result, e),
        λ ptr.
            subst (λ n. is_owned f.zone f.name f.rtype n ≡ false) (sym (ended ptr))
              (taken_away f (link_at ptr db.reverse_links)),
      )

  -- A sync of one set gives another set no PTR.
  pub sync_record-others :
      (enabled : Bool) (g : Forward)
      → same_set (forward zone name rtype ttl) g ≡ false
      → OwnsNone g db
      → OwnsNone g
          (sync_record api ptr_of user zone name rtype ttl addresses enabled zone_names db s).db
  sync_record-others enabled g d h =
      let f = forward zone name rtype ttl in
      Syncs-other f g db (plan_for api ptr_of user f addresses enabled zone_names db s) _ d h (
        sync_record_lem api ptr_of user zone name rtype ttl addresses enabled zone_names db s
          unique)

-- Forgetting a PTR gives no set a PTR.
pub forget_ptr-OwnsNone :
    (f : Forward) (ptr : Text) (db : Db) → OwnsNone f db → OwnsNone f (forget_ptr ptr db).1
unfolding forget_ptr
forget_ptr-OwnsNone f ptr db h = go (link_at (canonical ptr) db.reverse_links)
  where
    go : (o : Option ReverseLink) → OwnsNone f (forget_at o db).1
    go none = h
    go (some link) = λ p.
        subst (λ n. is_owned f.zone f.name f.rtype n ≡ false)
          (sym (link_at-remove_link p link.ptr_name db.reverse_links))
          (if_elim (λ n. is_owned f.zone f.name f.rtype n ≡ false) (eq_text link.ptr_name p)
            (λ _. refl) (λ _. h p))
