-- ===== src/Reverse/Sync/Loops.antt =====
-- The rows after the two loops of sync_record of webui/app/reverse.py.
use powerdns.Prelude.{
  ◌≡◌, ◌≢◌, ◌⊎◌, inl, inr, refl, ap, ◌∙◌, subst, true, false, Option, none, some, List, [], ◌∷◌,
  ◌++◌, any, arith, Bool-cases, if◌then◌else◌,
}
use powerdns.Text.{Text, eq_text}
use powerdns.Text.Laws.{eq_text_iff, eq_text_refl}
use powerdns.Dict.{lookup}
use powerdns.Dict.Laws.{HasUniqueKeys}
use powerdns.Store.{User, ReverseLink}
use powerdns.Pdns.{RrSet, Reply, ok, pdns_error, Api}
use powerdns.Reverse.Links.{link_at, set_link}
use powerdns.Reverse.Links.Table.{link_at-set_link, link_at-remove_link}
use powerdns.Reverse.Sync.{
  Desired, Ptr, Forward, link_of, Work, written_to, write_ptr, write_all, delete_if_ours, deleted,
  drop_link, drop_all, is_desired, names_record,
}

pub snoc_ne : (xs : List Text) (e : Text) → xs ++ e ∷ [] ≢ []
snoc_ne [] e h = ground arith
snoc_ne (x ∷ xs) e h = ground arith

-- The row of a PTR after the sync of a record set, beside the row before. If the set wants the PTR, it
-- has it, unless the server refused something; if the set does not want it, it no longer has it.
abbrev pub Wrote :
    Forward
    → Text
    → Option (Text × Text)
    → List Text
    → Option ReverseLink
    → Option ReverseLink
    → Type 0
Wrote f ptr none failed old new = new ≡ old
Wrote f ptr (some v) failed old new =
    (failed ≡ [] → new ≡ some (link_of f (ptr, v)))
    × ((new ≡ some (link_of f (ptr, v))) ⊎ (new ≡ old))

same_key :
    (desired : Desired) (a b : Text)
    → eq_text a b ≡ true
    → is_desired desired a ≡ is_desired desired b
same_key desired a b e = ap (is_desired desired) ((eq_text_iff a b).0 e)

module _ {S : Type 0} (api : Api S) (ptr_of : Text → Option Text) (user : User) where
  links-deleted :
      (link : ReverseLink) (r : Reply Unit × S) (w : Work S)
      → (deleted api ptr_of user link r w).links ≡ w.links
  links-deleted link (pdns_error e, s) w = refl
  links-deleted link (ok _, s) w = refl

  pub links-delete_if_ours :
      (link : ReverseLink) (r : Reply (Option RrSet) × S) (w : Work S)
      → (delete_if_ours api ptr_of user link r w).links ≡ w.links
  links-delete_if_ours link (pdns_error e, s) w = refl
  links-delete_if_ours link (ok none, s) w = refl
  links-delete_if_ours link (ok (some current), s) w =
      elim (Bool-cases (names_record current.contents link)) [
        | inl e ↦ rw e (links-deleted link _ w)
        | inr e ↦ rw e
      ]

  drop_link-at :
      (ptr : Text) (link : ReverseLink) (w : Work S)
      → link_at ptr (drop_link api ptr_of user link w).links
        ≡ (if eq_text link.ptr_name ptr then none else link_at ptr w.links)
  drop_link-at ptr link w = rw (link_at-remove_link, links-delete_if_ours)

  -- The rows after the second loop.
  pub drop_all-at :
      (desired : Desired) (ptr : Text) (existing : List ReverseLink) (w : Work S)
      → link_at ptr (drop_all api ptr_of user desired existing w).links ≡ (
          if is_desired desired ptr
          then link_at ptr w.links
          else if any (λ (l : ReverseLink). eq_text l.ptr_name ptr) existing
          then none
          else link_at ptr w.links)
  unfolding drop_all
  drop_all-at desired ptr [] w = ground arith
  drop_all-at desired ptr (link ∷ existing) w =
      elim (Bool-cases (is_desired desired link.ptr_name)) [
        | inl e ↦
            rw (drop_all, e)
              (drop_all-at desired ptr existing w
                ∙ ground (arith, same_key desired link.ptr_name ptr))
        | inr e ↦
            rw (drop_all, e)
              (drop_all-at desired ptr existing (drop_link api ptr_of user link w)
                ∙ rw (drop_link-at ptr link w) (ground (arith, same_key desired link.ptr_name ptr)))
      ]

  failed-written_to :
      (f : Forward) (p : Ptr) (r : Reply Unit × S) (w : Work S)
      → (written_to api ptr_of user f p r w).result.failed ≡ []
      → w.result.failed ≡ []
  failed-written_to f p (pdns_error e, s) w h = absurd (snoc_ne _ _ h)
  failed-written_to f p (ok _, s) w h = h

  written_to-at :
      (f : Forward) (ptr : Text) (p : Ptr) (r : Reply Unit × S) (w : Work S)
      → let w' = written_to api ptr_of user f p r w in
        ((eq_text p.0 ptr ≡ false) → link_at ptr w'.links ≡ link_at ptr w.links)
        × ((w'.result.failed ≡ []) → link_at p.0 w'.links ≡ some (link_of f p))
        × ((link_at p.0 w'.links ≡ some (link_of f p))
            ⊎ (link_at p.0 w'.links ≡ link_at p.0 w.links))
  written_to-at f ptr p (pdns_error e, s) w = ((λ _. refl), (λ h. absurd (snoc_ne _ _ h)), inr refl)
  written_to-at f ptr p (ok _, s) w =
      let new : link_at p.0 (set_link (link_of f p) w.links) ≡ some (link_of f p) =
        link_at-set_link p.0 (link_of f p) w.links ∙ rw (eq_text_refl p.0) in
      ((λ e. link_at-set_link ptr (link_of f p) w.links ∙ rw e), (λ h. new), inl new)

  failed-write_all :
      (f : Forward) (ps : List Ptr) (w : Work S)
      → (write_all api ptr_of user f ps w).result.failed ≡ []
      → w.result.failed ≡ []
  unfolding write_all
  failed-write_all f [] w h = h
  failed-write_all f (p ∷ ps) w h =
      failed-written_to f p _ w (failed-write_all f ps (write_ptr api ptr_of user f p w) h)

  -- The rows after the first loop.
  pub write_all-at :
      (f : Forward) (ptr : Text) (ps : Desired) (w : Work S)
      → HasUniqueKeys ps
      → let w' = write_all api ptr_of user f ps w in
        Wrote f ptr (lookup ptr ps) w'.result.failed (link_at ptr w.links) (link_at ptr w'.links)
  unfolding write_all lookup
  write_all-at f ptr [] w h = refl
  write_all-at f ptr (p ∷ ps) w h = elim (Bool-cases (eq_text p.0 ptr)) [
    | inl e ↦
        let w₁ = write_ptr api ptr_of user f p w in
        let w' = write_all api ptr_of user f ps w₁ in
        let rest : link_at p.0 w'.links ≡ link_at p.0 w₁.links =
          subst (λ o. Wrote f p.0 o w'.result.failed (link_at p.0 w₁.links) (link_at p.0 w'.links))
            h.0 (write_all-at f p.0 ps w₁ h.1) in
        let (_, fine, either) = written_to-at f ptr p _ w in
        rw e (
          subst
            (λ q. Wrote f q (some p.1) w'.result.failed (link_at q w.links) (link_at q w'.links))
            ((eq_text_iff p.0 ptr).0 e)
            ((λ none_failed. rest ∙ fine (failed-write_all f ps w₁ none_failed)), rw rest either))
    | inr e ↦
        let w₁ = write_ptr api ptr_of user f p w in
        let w' = write_all api ptr_of user f ps w₁ in
        rw e (
          subst (λ old. Wrote f ptr (lookup ptr ps) w'.result.failed old (link_at ptr w'.links))
            ((written_to-at f ptr p _ w).0 e) (write_all-at f ptr ps w₁ h.1))
  ]

  deleted-failed :
      (link : ReverseLink) (r : Reply Unit × S) (w : Work S)
      → (deleted api ptr_of user link r w).result.failed ≡ []
      → w.result.failed ≡ []
  deleted-failed link (pdns_error e, s) w h = absurd (snoc_ne _ _ h)
  deleted-failed link (ok _, s) w h = h

  delete_if_ours-failed :
      (link : ReverseLink) (r : Reply (Option RrSet) × S) (w : Work S)
      → (delete_if_ours api ptr_of user link r w).result.failed ≡ []
      → w.result.failed ≡ []
  delete_if_ours-failed link (pdns_error e, s) w h = absurd (snoc_ne _ _ h)
  delete_if_ours-failed link (ok none, s) w h = h
  delete_if_ours-failed link (ok (some current), s) w h =
      elim (Bool-cases (names_record current.contents link)) [
        | inl e ↦ deleted-failed link _ w (rw e at h)
        | inr e ↦ rw e at h
      ]

  pub drop_all-failed :
      (desired : Desired) (existing : List ReverseLink) (w : Work S)
      → (drop_all api ptr_of user desired existing w).result.failed ≡ []
      → w.result.failed ≡ []
  unfolding drop_all
  drop_all-failed desired [] w h = h
  drop_all-failed desired (link ∷ existing) w h =
      elim (Bool-cases (is_desired desired link.ptr_name)) [
        | inl e ↦ drop_all-failed desired existing w (rw (drop_all, e) at h)
        | inr e ↦ delete_if_ours-failed link _ w (
            drop_all-failed desired existing (drop_link api ptr_of user link w)
              (rw (drop_all, e) at h))
      ]
