-- ===== src/Reverse/Sync/Owner.antt =====
-- Who owns a PTR after a sync: the links that sync_record of webui/app/reverse.py leaves.
use powerdns.Prelude.{
  ℕ, ◌≡◌, ◌⊎◌, refl, Bool, true, false, Option, none, some, List, [], keep, if◌then◌else◌,
}
use powerdns.Text.{Text}
use powerdns.Text.Laws.{upper_idem}
use powerdns.Dict.{lookup}
use powerdns.Dict.Laws.{HasUniqueKeys}
use powerdns.Names.Canonical.{canonical_idem}
use powerdns.Store.{User, ReverseLink, Db}
use powerdns.Pdns.{Reply, ok, pdns_error, Api}
use powerdns.Reverse.Links.{is_of_record, link_at, linked_reverse_zones}
use powerdns.Reverse.Links.Table.{HasUniquePtrs, is_owned, owned_links, links_for_record-keep}
use powerdns.Reverse.Sync.{
  SyncResult, Forward, Plan, Work, Synced, link_of, forward, drop_all, write_all, apply, finish,
  plan_for, sync_record,
}
use powerdns.Reverse.Sync.Loops.{Wrote, write_all-at, drop_all-at, drop_all-failed}
use powerdns.Reverse.Sync.Desire.{IsPlanned, plan_for_lem}

-- The row of a PTR after a sync of a record set, beside the row before. A PTR that the set wants names
-- the set afterwards, if the server refused nothing, and otherwise is as it was or names the set; one
-- that it does not want is not the set's any more, and as it was if it never was the set's.
abbrev pub Ended :
    Forward
    → Text
    → Option (Text × Text)
    → List Text
    → Option ReverseLink
    → Option ReverseLink
    → Type 0
Ended f ptr none failed old new = new ≡ (if is_owned f.zone f.name f.rtype old then none else old)
Ended f ptr (some v) failed old new =
    (failed ≡ [] → new ≡ some (link_of f (ptr, v)))
    × ((new ≡ some (link_of f (ptr, v))) ⊎ (new ≡ old))

abbrev pub Syncs : {S : Type 0} → Forward → Db → Reply Plan × S → Synced S → Type 0
Syncs f db (pdns_error e, s) y = (y.reply ≡ pdns_error e) × (y.db ≡ db)
Syncs f db (ok p, s) y =
    (result : SyncResult) × (y.reply ≡ ok result)
    × ((ptr : Text)
        → Ended f ptr (lookup ptr p.desired) result.failed (link_at ptr db.reverse_links)
            (link_at ptr y.db.reverse_links))

module _ {S : Type 0} (api : Api S) (ptr_of : Text → Option Text) (user : User) where
  apply-Ended :
      (f : Forward) (p : Plan) (s : S) (links : List ReverseLink) (ptr : Text)
      → HasUniquePtrs links
      → HasUniqueKeys p.desired
      → let w =
          apply api ptr_of user f (keep (is_of_record f.zone f.name f.rtype) links) p s links in
        Ended f ptr (lookup ptr p.desired) w.result.failed (link_at ptr links) (link_at ptr w.links)
  unfolding apply
  apply-Ended f p s links ptr u k =
      let start : Work S = record { server = s; links = links; result = p.result } in
      let w₁ = write_all api ptr_of user f p.desired start in
      let existing = keep (is_of_record f.zone f.name f.rtype) links in
      let w = drop_all api ptr_of user p.desired existing w₁ in
      rw
        (
          drop_all-at api ptr_of user p.desired ptr existing w₁,
          owned_links f.zone f.name f.rtype ptr links u,
        )
        (go (lookup ptr p.desired) w.result.failed w₁.result.failed (link_at ptr links)
          (link_at ptr w₁.links) (drop_all-failed api ptr_of user p.desired existing w₁)
          (write_all-at api ptr_of user f ptr p.desired start k))
    where
      go :
          (o : Option (Text × Text)) (failed failed₁ : List Text) (old new : Option ReverseLink)
          → (failed ≡ [] → failed₁ ≡ [])
          → Wrote f ptr o failed₁ old new
          → Ended f ptr o failed old (
              if elim o [ none ↦ false | some _ ↦ true ]
              then new
              else if is_owned f.zone f.name f.rtype old
              then none
              else new)
      go none failed failed₁ old new h w = rw w refl
      go (some v) failed failed₁ old new h w = ((λ e. w.0 (h e)), w.1)

  finish-Syncs :
      (zone name rtype : Text) (ttl : ℕ) (addresses preferred : List Text)
      (zone_names : Option (List Text)) (db : Db) (s₀ : S) (r : Reply Plan × S)
      → HasUniquePtrs db.reverse_links
      → IsPlanned ptr_of user preferred addresses api zone_names s₀ r
      → let f = forward zone name rtype ttl in Syncs f db r (finish api ptr_of user f db r)
  finish-Syncs zone name rtype ttl addresses preferred zone_names db s₀ (pdns_error e, s) u h =
      (refl, refl)
  finish-Syncs zone name rtype ttl addresses preferred zone_names db s₀ (ok p, s) u h =
      let f = forward zone name rtype ttl in
      rw
        (
          links_for_record-keep f.zone f.name f.rtype db,
          canonical_idem zone,
          canonical_idem name,
          upper_idem rtype,
        )
        (_, refl, λ ptr. apply-Ended f p s db.reverse_links ptr u h.0.unique)

  -- If no two links have the same PTR name: a sync of a record set with its PTRs fails before it
  -- writes anything, while it lists the server's zones, and leaves the whole database as it was; or
  -- it returns. Then a PTR that the set wants is linked to it, with its zone and address, if the
  -- server refused nothing, and otherwise is linked to it or as before; and a PTR that the set does
  -- not want is not linked to it any more, and is as before if it never was.
  pub sync_record_lem :
      (zone name rtype : Text) (ttl : ℕ) (addresses : List Text) (enabled : Bool)
      (zone_names : Option (List Text)) (db : Db) (s : S)
      → HasUniquePtrs db.reverse_links
      → let f = forward zone name rtype ttl in
        Syncs f db
          (plan_for api ptr_of user f addresses enabled zone_names db s)
          (sync_record api ptr_of user zone name rtype ttl addresses enabled zone_names db s)
  unfolding sync_record
  sync_record_lem zone name rtype ttl addresses enabled zone_names db s u =
      let f = forward zone name rtype ttl in
      finish-Syncs zone name rtype ttl addresses (linked_reverse_zones f.zone db) zone_names db s
        (plan_for api ptr_of user f addresses enabled zone_names db s) u
        (plan_for_lem api ptr_of user f addresses enabled zone_names db s).0
