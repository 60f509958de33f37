-- ===== src/Zones/Sync/Links.antt =====
-- The links that _sync_reverse of webui/app/views/zones.py leaves.
use powerdns.Prelude.{
  inl, inr, ◌≡◌, true, false, Option, none, some, List, [], Bool-cases, subst, sym, if_elim,
}
use powerdns.Text.{Text}
use powerdns.Store.{User, ReverseLink, Db, record_audit}
use powerdns.Pdns.{Reply, ok, pdns_error, Api}
use powerdns.Reverse.Links.Table.{HasUniquePtrs}
use powerdns.Reverse.Sync.{SyncResult, Forward, Synced, forward, sync_record}
use powerdns.Reverse.Sync.Unique.{sync_record-HasUniquePtrs}
use powerdns.Reverse.Sync.Retired.{OwnsNone, same_set, sync_record-retired, sync_record-others}
use powerdns.Zones.Sync.{
  Target, is_changed, is_other, sync_target, sync_stale, sync_next, sync_both, noted, sync_reverse,
}

-- The record set of a target, and that of a pair which a rename leaves behind.
abbrev pub set_of : Target → Forward
set_of t = forward t.zone t.name t.rtype t.ttl

abbrev pub stale_of : Text × Text → Target → Forward
stale_of p t = forward t.zone p.0 p.1 t.ttl

module _ {S : Type 0} (api : Api S) (ptr_of : Text → Option Text) (addr : Text) (user : User) where
  -- What a sync does to the links is not undone by the note in the audit trail.
  noted-links :
      (P : List ReverseLink → Type 0) (t : Target) (r : Reply SyncResult) (y : Synced S)
      → P y.db.reverse_links
      → P (noted api ptr_of addr user t r y).db.reverse_links
  unfolding record_audit
  noted-links P t (pdns_error e) y h = h
  noted-links P t (ok r) y h =
      if_elim (λ (y' : Synced S). P y'.db.reverse_links) (is_changed r) (λ _. h) (λ _. h)

  -- The sync of the set itself, after whatever came before it.
  sync_target-HasUniquePtrs :
      (t : Target) (db : Db) (s : S)
      → HasUniquePtrs db.reverse_links
      → HasUniquePtrs (sync_target api ptr_of addr user t db s).db.reverse_links
  unfolding sync_target
  sync_target-HasUniquePtrs t db s u =
      sync_record-HasUniquePtrs api ptr_of user t.zone t.name t.rtype t.ttl t.contents t.enabled
        none db s u

  sync_stale-HasUniquePtrs :
      (p : Text × Text) (t : Target) (db : Db) (s : S)
      → HasUniquePtrs db.reverse_links
      → HasUniquePtrs (sync_stale api ptr_of addr user p t db s).db.reverse_links
  unfolding sync_stale
  sync_stale-HasUniquePtrs p t db s u =
      sync_record-HasUniquePtrs api ptr_of user t.zone p.0 p.1 t.ttl [] false none db s u

  sync_next-HasUniquePtrs :
      (t : Target) (r : Reply SyncResult) (y : Synced S)
      → HasUniquePtrs y.db.reverse_links
      → HasUniquePtrs (sync_next api ptr_of addr user t r y).db.reverse_links
  sync_next-HasUniquePtrs t (pdns_error e) y u = u
  sync_next-HasUniquePtrs t (ok _) y u = sync_target-HasUniquePtrs t y.db y.server u

  sync_both-HasUniquePtrs :
      (previous : Option (Text × Text)) (t : Target) (db : Db) (s : S)
      → HasUniquePtrs db.reverse_links
      → HasUniquePtrs (sync_both api ptr_of addr user previous t db s).db.reverse_links
  sync_both-HasUniquePtrs none t db s u = sync_target-HasUniquePtrs t db s u
  sync_both-HasUniquePtrs (some p) t db s u =
      if_elim (λ (y : Synced S). HasUniquePtrs y.db.reverse_links) (is_other p t)
        (λ _. sync_next-HasUniquePtrs t _ _ (sync_stale-HasUniquePtrs p t db s u))
        (λ _. sync_target-HasUniquePtrs t db s u)

  pub sync_reverse-HasUniquePtrs :
      (previous : Option (Text × Text)) (t : Target) (db : Db) (s : S)
      → HasUniquePtrs db.reverse_links
      → HasUniquePtrs (sync_reverse api ptr_of addr user previous t db s).db.reverse_links
  unfolding sync_reverse
  sync_reverse-HasUniquePtrs previous t db s u =
      noted-links HasUniquePtrs t _ _ (sync_both-HasUniquePtrs previous t db s u)

  sync_target-retired :
      (t : Target) (db : Db) (s : S)
      → t.enabled ≡ false
      → HasUniquePtrs db.reverse_links
      → OwnsNone (set_of t) (sync_target api ptr_of addr user t db s).db
  unfolding sync_target
  sync_target-retired t db s off u =
      subst
        (λ b.
          OwnsNone (set_of t)
            (sync_record api ptr_of user t.zone t.name t.rtype t.ttl t.contents b none db s).db)
        (sym off)
        (sync_record-retired api ptr_of user t.zone t.name t.rtype t.ttl t.contents none db s u).1

  -- The sync of what a rename leaves behind always returns, so that the set's own follows.
  sync_both-stale :
      (P : Synced S → Type 0) (p : Text × Text) (t : Target) (db : Db) (s : S)
      → HasUniquePtrs db.reverse_links
      → is_other p t ≡ true
      → (let y = sync_stale api ptr_of addr user p t db s in
          P (sync_target api ptr_of addr user t y.db y.server))
      → P (sync_both api ptr_of addr user (some p) t db s)
  unfolding sync_stale
  sync_both-stale P p t db s u other h =
      let y = sync_stale api ptr_of addr user p t db s in
      let (result, e) =
        (sync_record-retired api ptr_of user t.zone p.0 p.1 t.ttl [] none db s u).0 in
      if_elim P (is_other p t)
        (λ _. subst (λ r. P (sync_next api ptr_of addr user t r y)) (sym e) h)
        (λ same. cc (other, same))

  sync_both-retired :
      (previous : Option (Text × Text)) (t : Target) (db : Db) (s : S)
      → t.enabled ≡ false
      → HasUniquePtrs db.reverse_links
      → OwnsNone (set_of t) (sync_both api ptr_of addr user previous t db s).db
  sync_both-retired none t db s off u = sync_target-retired t db s off u
  sync_both-retired (some p) t db s off u = elim (Bool-cases (is_other p t)) [
    | inl other ↦
        sync_both-stale (λ (y : Synced S). OwnsNone (set_of t) y.db) p t db s u other
          (sync_target-retired t _ _ off (sync_stale-HasUniquePtrs p t db s u))
    | inr same ↦
        if_elim (λ (y : Synced S). OwnsNone (set_of t) y.db) (is_other p t)
          (λ other. cc (other, same)) (λ _. sync_target-retired t db s off u)
  ]

  -- A set with its PTRs off keeps none, whether it was renamed or not.
  pub sync_reverse-retired :
      (previous : Option (Text × Text)) (t : Target) (db : Db) (s : S)
      → t.enabled ≡ false
      → HasUniquePtrs db.reverse_links
      → OwnsNone (set_of t) (sync_reverse api ptr_of addr user previous t db s).db
  unfolding sync_reverse
  sync_reverse-retired previous t db s off u =
      noted-links (λ ls. OwnsNone (set_of t) (record db { reverse_links = ls })) t _ _
        (sync_both-retired previous t db s off u)

  -- What a rename leaves behind keeps no PTR, whatever becomes of the new set's.
  pub sync_reverse-renamed :
      (p : Text × Text) (t : Target) (db : Db) (s : S)
      → is_other p t ≡ true
      → same_set (set_of t) (stale_of p t) ≡ false
      → HasUniquePtrs db.reverse_links
      → OwnsNone (stale_of p t) (sync_reverse api ptr_of addr user (some p) t db s).db
  unfolding sync_reverse sync_stale sync_target
  sync_reverse-renamed p t db s other differs u =
      let y = sync_stale api ptr_of addr user p t db s in
      noted-links (λ ls. OwnsNone (stale_of p t) (record db { reverse_links = ls })) t _ _
        (sync_both-stale (λ (y : Synced S). OwnsNone (stale_of p t) y.db) p t db s u other
          (sync_record-others api ptr_of user t.zone t.name t.rtype t.ttl t.contents none y.db
            y.server (sync_stale-HasUniquePtrs p t db s u) t.enabled (stale_of p t) differs
            (sync_record-retired api ptr_of user t.zone p.0 p.1 t.ttl [] none db s u).1))
