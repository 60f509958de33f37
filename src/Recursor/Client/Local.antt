-- ===== src/Recursor/Client/Local.antt =====
-- Forwarding the panel's own zones: sync_local_zones of webui/app/recursor.py.
use powerdns.Prelude.{◌≡◌, ◌⊎◌, ◌↔◌, inl, inr, refl, sym, subst, ap, false, List, [], ◌∷◌, Any, All}
use powerdns.Text.{Text}
use powerdns.Pdns.{Reply, ok, pdns_error}
use powerdns.Recursor.{RecursorApi, ForwardZone}
use powerdns.Recursor.Client.{
  to_add, to_remove, LocalSync, forward_zones, save_forward_zone, delete_forward_zone, add_all,
  remove_all, summed_up, sync_listed, sync_local_zones,
}
use powerdns.Recursor.Client.Requests.{
  Saved, Deleted, StopsSaving, StopsDeleting, add_all-Saved, remove_all-Deleted,
  add_all-StopsSaving, remove_all-StopsDeleting,
}
use powerdns.Recursor.Client.Names.{IsAdded, IsRemoved, to_add_iff, to_remove_iff}

module _ {S : Type 0} (api : RecursorApi S) where
  -- Where a sync that fails has stopped.
  abbrev pub Stopped : Text → List Text → Text → S → S → Type 0
  Stopped target names e s s' =
      (forward_zones api s ≡ (pdns_error e, s'))
      ⊎ ((current : List ForwardZone) × (s₁ : S) × (forward_zones api s ≡ (ok current, s₁))
          × (StopsSaving api target (to_add target names current) e s₁ s'
              ⊎ ((s₂ : S) × Saved api target (to_add target names current) s₁ s₂
                  × StopsDeleting api (to_remove target names current) e s₂ s')))

  abbrev pub Synced : Text → List Text → S → Reply LocalSync × S → Type 0
  Synced target names s (pdns_error e, s') = Stopped target names e s s'
  Synced target names s (ok r, s') =
      (current : List ForwardZone) × (s₁ : S) × (s₂ : S) × (forward_zones api s ≡ (ok current, s₁))
      × Saved api target r.added s₁ s₂
      × Deleted api r.removed s₂ s'
      × ((t : Text)
          → (Any (λ n. n ≡ t) r.added ↔ IsAdded target names current t)
            × (Any (λ n. n ≡ t) r.removed ↔ IsRemoved target names current t))

  -- A chain of requests from a state that is known starts in that state.
  same_state : (a b : S) → ◌≡◌ {A = Reply Unit × S} (ok tt, a) (ok tt, b) → b ≡ a
  same_state a b e = sym (ap (λ (x : Reply Unit × S). x.1) e)

  remove_all-Stopped :
      (target : Text) (names : List Text) (current : List ForwardZone) (e : Text) (s s₁ s' : S)
      → forward_zones api s ≡ (ok current, s₁)
      → remove_all api
          (to_remove target names current)
          (add_all api target (to_add target names current) (ok tt, s₁))
        ≡ (pdns_error e, s')
      → Stopped target names e s s'
  remove_all-Stopped target names current e s s₁ s' h k =
      let adds = to_add target names current in
      let removes = to_remove target names current in
      inr (
        current,
        s₁,
        h,
        elim (remove_all-StopsDeleting api removes _ e s' k) [
          | inl k ↦ inl (elim (add_all-StopsSaving api target adds (ok tt, s₁) e s' k) [
            | inl x ↦ cc
            | inr (s₂, x, stops) ↦
                subst (λ x. StopsSaving api target adds e x s') (same_state s₁ s₂ x) stops
          ])
          | inr (s₂, x, stops) ↦
              let (s₃, first, saves) = add_all-Saved api target adds (ok tt, s₁) s₂ x in
              inr
                (s₂, subst (λ x. Saved api target adds x s₂) (same_state s₁ s₃ first) saves, stops)
        ],
      )

  summed_up-Synced :
      (target : Text) (names : List Text) (current : List ForwardZone) (s s₁ : S)
      (r : Reply Unit × S)
      → forward_zones api s ≡ (ok current, s₁)
      → remove_all api
          (to_remove target names current)
          (add_all api target (to_add target names current) (ok tt, s₁))
        ≡ r
      → Synced target names s (
          summed_up api
            (record {
              added = to_add target names current;
              removed = to_remove target names current;
            })
            r)
  summed_up-Synced target names current s s₁ (pdns_error e, s') h k =
      remove_all-Stopped target names current e s s₁ s' h k
  summed_up-Synced target names current s s₁ (ok _, s') h k =
      let (s₂, added, deletions) = remove_all-Deleted api (to_remove target names current) _ s' k in
      let (s₃, first, saves) = add_all-Saved api target (to_add target names current) _ s₂ added in
      (
        current,
        s₁,
        s₂,
        h,
        subst (λ x. Saved api target (to_add target names current) x s₂)
            (sym (ap (λ (x : Reply Unit × S). x.1) first)) saves,
        deletions,
        λ t. (to_add_iff target names current t, to_remove_iff target names current t),
      )

  -- When a sync of the hosted zones returns, the Recursor has accepted, one after another, a rule to
  -- the target for each name that is reported as added, and then the deletion of each that is
  -- reported as removed. Added are exactly the hosted names that no forward zone had when they were
  -- listed, and removed exactly those names of the rules that pointed at the target that are not
  -- hosted. When it fails, it is with the message of the listing or of the first of these requests
  -- that the Recursor refused, and those before that one were accepted.
  pub sync_local_zones_lem :
      (names : List Text) (target : Text) (s : S)
      → Synced target names s (sync_local_zones api names target s)
  unfolding sync_local_zones
  sync_local_zones_lem names target s = listed (forward_zones api s) refl
    where
      listed :
          (r : Reply (List ForwardZone) × S)
          → forward_zones api s ≡ r
          → Synced target names s (sync_listed api target names r)
      listed (pdns_error e, s') h = inl h
      listed (ok current, s') h = summed_up-Synced target names current s s' _ h refl

  module _ (P : S → Type 0) where
    add_all-server :
        (target : Text) (ns : List Text) (r : Reply Unit × S)
        → All (λ n. (s : S) → P s → P (save_forward_zone api n (target ∷ []) false s).1) ns
        → P r.1
        → P (add_all api target ns r).1
    unfolding add_all
    add_all-server target [] (ok _, s) a h = h
    add_all-server target [] (pdns_error e, s) a h = h
    add_all-server target (n ∷ ns) (pdns_error e, s) a h = h
    add_all-server target (n ∷ ns) (ok _, s) a h = add_all-server target ns _ a.1 (a.0 s h)

    remove_all-server :
        (ns : List Text) (r : Reply Unit × S)
        → All (λ n. (s : S) → P s → P (delete_forward_zone api n s).1) ns
        → P r.1
        → P (remove_all api ns r).1
    unfolding remove_all
    remove_all-server [] (ok _, s) a h = h
    remove_all-server [] (pdns_error e, s) a h = h
    remove_all-server (n ∷ ns) (pdns_error e, s) a h = h
    remove_all-server (n ∷ ns) (ok _, s) a h = remove_all-server ns _ a.1 (a.0 s h)

    summed_up-server : (r : LocalSync) (o : Reply Unit × S) → P o.1 → P (summed_up api r o).1
    summed_up-server r (ok _, s) h = h
    summed_up-server r (pdns_error e, s) h = h

    All-of :
        (Q : Text → Type 0) (ns : List Text) → ((t : Text) → Any (λ n. n ≡ t) ns → Q t) → All Q ns
    All-of Q [] h = tt
    All-of Q (n ∷ ns) h = (h n (inl refl), All-of Q ns (λ t a. h t (inr a)))

    -- Whatever holds of the Recursor before a sync of the hosted zones holds after it, if it is kept
    -- by listing the zones, by saving a rule to the target for a hosted name that no forward zone
    -- had when they were listed, and by deleting a name that is not hosted and was the name of a
    -- rule to the target.
    pub sync_local_zones-server :
        (names : List Text) (target : Text) (s : S)
        → ((s' : S) → P s' → P (forward_zones api s').1)
        → ((current : List ForwardZone) (t : Text) (s' : S)
            → (forward_zones api s).0 ≡ ok current
            → IsAdded target names current t
            → P s'
            → P (save_forward_zone api t (target ∷ []) false s').1)
        → ((current : List ForwardZone) (t : Text) (s' : S)
            → (forward_zones api s).0 ≡ ok current
            → IsRemoved target names current t
            → P s'
            → P (delete_forward_zone api t s').1)
        → P s
        → P (sync_local_zones api names target s).1
    unfolding sync_local_zones
    sync_local_zones-server names target s reads saves deletes h =
        listed (forward_zones api s) refl (reads s h)
      where
        listed :
            (r : Reply (List ForwardZone) × S)
            → forward_zones api s ≡ r
            → P r.1
            → P (sync_listed api target names r).1
        listed (pdns_error e, s') same h' = h'
        listed (ok current, s') same h' = summed_up-server _ _ (
            remove_all-server (to_remove target names current) _
              (All-of _ (to_remove target names current) (λ t a s₁ h₁.
                deletes current t s₁ (ap (λ p. p.0) same)
                  ((to_remove_iff target names current t).0 a) h₁))
              (add_all-server target (to_add target names current) _
                (All-of _ (to_add target names current) (λ t a s₁ h₁.
                  saves current t s₁ (ap (λ p. p.0) same) ((to_add_iff target names current t).0 a)
                    h₁))
                h'))
