-- ===== src/Recursor/Client/Requests.antt =====
-- The requests that sync_local_zones of webui/app/recursor.py makes, one after another.
use powerdns.Prelude.{◌≡◌, ◌⊎◌, inl, inr, refl, ap, false, List, [], ◌∷◌}
use powerdns.Text.{Text}
use powerdns.Pdns.{Reply, ok, pdns_error}
use powerdns.Recursor.{RecursorApi}
use powerdns.Recursor.Client.{save_forward_zone, delete_forward_zone, add_all, remove_all}

module _ {S : Type 0} (api : RecursorApi S) where
  -- The names have been given rules to the target, one after another, and the Recursor has accepted
  -- each.
  abbrev pub Saved : Text → List Text → S → S → Type 0
  Saved target [] s s' = s ≡ s'
  Saved target (n ∷ ns) s s' =
      (s₁ : S) × (save_forward_zone api n (target ∷ []) false s ≡ (ok tt, s₁))
      × Saved target ns s₁ s'

  -- The names have been deleted, one after another, and the Recursor has accepted each.
  abbrev pub Deleted : List Text → S → S → Type 0
  Deleted [] s s' = s ≡ s'
  Deleted (n ∷ ns) s s' = (s₁ : S) × (delete_forward_zone api n s ≡ (ok tt, s₁)) × Deleted ns s₁ s'

  -- The names have been given rules to the target up to the first that the Recursor has refused.
  abbrev pub StopsSaving : Text → List Text → Text → S → S → Type 0
  StopsSaving target [] e s s' = ⊥
  StopsSaving target (n ∷ ns) e s s' =
      (save_forward_zone api n (target ∷ []) false s ≡ (pdns_error e, s'))
      ⊎ ((s₁ : S) × (save_forward_zone api n (target ∷ []) false s ≡ (ok tt, s₁))
          × StopsSaving target ns e s₁ s')

  -- The names have been deleted up to the first whose deletion the Recursor has refused.
  abbrev pub StopsDeleting : List Text → Text → S → S → Type 0
  StopsDeleting [] e s s' = ⊥
  StopsDeleting (n ∷ ns) e s s' =
      (delete_forward_zone api n s ≡ (pdns_error e, s'))
      ⊎ ((s₁ : S) × (delete_forward_zone api n s ≡ (ok tt, s₁)) × StopsDeleting ns e s₁ s')

  pub add_all-Saved :
      (target : Text) (ns : List Text) (r : Reply Unit × S) (s' : S)
      → add_all api target ns r ≡ (ok tt, s')
      → (s : S) × (r ≡ (ok tt, s)) × Saved target ns s s'
  unfolding add_all
  add_all-Saved target [] (ok _, s) s' e = (s, refl, ap (λ (x : Reply Unit × S). x.1) e)
  add_all-Saved target [] (pdns_error x, s) s' e = cc
  add_all-Saved target (n ∷ ns) (pdns_error x, s) s' e = cc
  add_all-Saved target (n ∷ ns) (ok _, s) s' e =
      let (s₁, same, rest) =
        add_all-Saved target ns (save_forward_zone api n (target ∷ []) false s) s' e in
      (s, refl, (s₁, same, rest))

  pub remove_all-Deleted :
      (ns : List Text) (r : Reply Unit × S) (s' : S)
      → remove_all api ns r ≡ (ok tt, s')
      → (s : S) × (r ≡ (ok tt, s)) × Deleted ns s s'
  unfolding remove_all
  remove_all-Deleted [] (ok _, s) s' e = (s, refl, ap (λ (x : Reply Unit × S). x.1) e)
  remove_all-Deleted [] (pdns_error x, s) s' e = cc
  remove_all-Deleted (n ∷ ns) (pdns_error x, s) s' e = cc
  remove_all-Deleted (n ∷ ns) (ok _, s) s' e =
      let (s₁, same, rest) = remove_all-Deleted ns (delete_forward_zone api n s) s' e in
      (s, refl, (s₁, same, rest))

  pub add_all-StopsSaving :
      (target : Text) (ns : List Text) (r : Reply Unit × S) (e : Text) (s' : S)
      → add_all api target ns r ≡ (pdns_error e, s')
      → (r ≡ (pdns_error e, s')) ⊎ ((s : S) × (r ≡ (ok tt, s)) × StopsSaving target ns e s s')
  unfolding add_all
  add_all-StopsSaving target [] (ok _, s) e s' h = cc
  add_all-StopsSaving target [] (pdns_error x, s) e s' h = inl h
  add_all-StopsSaving target (n ∷ ns) (pdns_error x, s) e s' h = inl h
  add_all-StopsSaving target (n ∷ ns) (ok _, s) e s' h = inr (
    s,
    refl,
    elim (add_all-StopsSaving target ns (save_forward_zone api n (target ∷ []) false s) e s' h) [
      | inl k ↦ inl k
      | inr (s₁, k, rest) ↦ inr (s₁, k, rest)
    ],
  )

  pub remove_all-StopsDeleting :
      (ns : List Text) (r : Reply Unit × S) (e : Text) (s' : S)
      → remove_all api ns r ≡ (pdns_error e, s')
      → (r ≡ (pdns_error e, s')) ⊎ ((s : S) × (r ≡ (ok tt, s)) × StopsDeleting ns e s s')
  unfolding remove_all
  remove_all-StopsDeleting [] (ok _, s) e s' h = cc
  remove_all-StopsDeleting [] (pdns_error x, s) e s' h = inl h
  remove_all-StopsDeleting (n ∷ ns) (pdns_error x, s) e s' h = inl h
  remove_all-StopsDeleting (n ∷ ns) (ok _, s) e s' h = inr (
    s,
    refl,
    elim (remove_all-StopsDeleting ns (delete_forward_zone api n s) e s' h) [
      | inl k ↦ inl k
      | inr (s₁, k, rest) ↦ inr (s₁, k, rest)
    ],
  )
