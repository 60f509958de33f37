-- ===== src/Names/Relative.antt =====
-- A name written relative to its zone and expanded again: relative_name and absolute_name of
-- webui/app/pdns.py.
use powerdns.Prelude.{
  ℕ, ◌+◌, ◌-◌, ◌≡◌, ◌≢◌, refl, sym, ap, ◌∙◌, subst, true, false, [], ◌∷◌, ◌++◌, append_assoc, arith,
  Bool-cases, inl, inr, is_empty, length, length-append, take,
}
use powerdns.Text.{Text, text, eq_text, is_space, is_dot, rstrip_dots, lower, ends_with}
use powerdns.Text.Laws.{eq_text_iff, eq_text_refl, HeadNot, rstrip-snoc, lower-append}
use powerdns.Names.{dot, canonical, relative_name, absolute_name}
use powerdns.Names.Canonical.{
  canonical_dotted, canonical-bare, strip-address, rstrip_dots-snoc, lower-dot,
}

ends_with-append : (t s : Text) → ends_with t (s ++ t) ≡ true
unfolding ends_with
ends_with-append [] [] = refl
ends_with-append (c ∷ t) [] = rw (eq_text_refl (c ∷ t)) refl
ends_with-append t (c ∷ s) = rw (ends_with-append t s) (ground arith)

ends_with-dot : (s : Text) (c : ℕ) → is_dot c ≡ false → ends_with dot (s ++ c ∷ []) ≡ false
unfolding ends_with eq_text
ends_with-dot [] c h = ground arith
ends_with-dot (a ∷ []) c h = ground (arith, ends_with-dot [] c h)
ends_with-dot (a ∷ b ∷ s) c h = ground (arith, ends_with-dot (b ∷ s) c h)

take-append : (s t : Text) → take (length s) (s ++ t) ≡ s
take-append [] t = refl
take-append (c ∷ s) t = ap (λ r. c ∷ r) (take-append s t)

longer : (s t : Text) → eq_text (s ++ (dot ++ t)) t ≡ false
longer s t = elim (Bool-cases (eq_text (s ++ (dot ++ t)) t)) [
  | inl e ↦ absurd (
      let same = ap length ((eq_text_iff (s ++ (dot ++ t)) t).0 e) in
      omega (arith, same, length-append s (dot ++ t)))
  | inr e ↦ e
]

relative_part :
    (r z : Text)
    → canonical (r ++ (dot ++ z)) ≡ r ++ (dot ++ z)
    → canonical z ≡ z
    → relative_name (r ++ (dot ++ z)) z ≡ r
unfolding relative_name
relative_part r z n h =
    rw (n, h, longer r z, ends_with-append (dot ++ z) r, length-append r (dot ++ z))
      (let same : length r + length (dot ++ z) - (length z + 1) ≡ length r = omega arith in
        rw same (take-append r (dot ++ z)))

HeadNot-append :
    (s t : Text) (c : ℕ) → HeadNot is_space (s ++ c ∷ []) → HeadNot is_space ((s ++ c ∷ []) ++ t)
HeadNot-append [] t c h = h
HeadNot-append (a ∷ s) t c h = h

lower-dotted : (r b : Text) → lower r ≡ r → lower b ≡ b → lower (r ++ (dot ++ b)) ≡ r ++ (dot ++ b)
lower-dotted r b hr hb = lower-append r (dot ++ b) ∙ rw (lower-append dot b, hr, hb, lower-dot) refl

-- A name that is in lower case, does not end with a dot, and is trimmed.
abbrev pub IsBare : Text → ℕ → Type 0
IsBare s c =
    (is_dot c ≡ false)
    × (is_space c ≡ false)
    × HeadNot is_space (s ++ c ∷ [])
    × (lower (s ++ c ∷ []) ≡ s ++ c ∷ [])

zone-canonical :
    (b : Text) (e : ℕ) → IsBare b e → canonical ((b ++ e ∷ []) ++ dot) ≡ (b ++ e ∷ []) ++ dot
unfolding rstrip_dots
zone-canonical b e (no_dot, no_space, head, low) =
    canonical_dotted (b ++ e ∷ []) (rstrip-snoc is_dot b e no_dot)
      (lower-append (b ++ e ∷ []) dot ∙ rw (low, lower-dot) refl) (HeadNot-append b dot e head)

inner : (r b : Text) (e : ℕ) → (r ++ (dot ++ b)) ++ e ∷ [] ≡ r ++ (dot ++ (b ++ e ∷ []))
inner r b e = append_assoc r (dot ++ b) (e ∷ [])

name-IsBare :
    (s : Text) (c : ℕ) (b : Text) (e : ℕ)
    → IsBare s c
    → IsBare b e
    → IsBare ((s ++ c ∷ []) ++ (dot ++ b)) e
name-IsBare s c b e (_, _, head, low) (no_dot, no_space, _, low_b) = (
  no_dot,
  no_space,
  subst (HeadNot is_space) (sym (inner (s ++ c ∷ []) b e))
      (HeadNot-append s (dot ++ (b ++ e ∷ [])) c head),
  subst (λ t. lower t ≡ t) (sym (inner (s ++ c ∷ []) b e))
      (lower-dotted (s ++ c ∷ []) (b ++ e ∷ []) low low_b),
)

whole :
    (r b : Text) (e : ℕ)
    → ((r ++ (dot ++ b)) ++ e ∷ []) ++ dot ≡ r ++ (dot ++ ((b ++ e ∷ []) ++ dot))
whole r b e = ap (λ t. t ++ dot) (inner r b e) ∙ append_assoc r (dot ++ (b ++ e ∷ [])) dot

not_blank : (s : Text) (c : ℕ) → is_empty (s ++ c ∷ []) ≡ false
not_blank [] c = refl
not_blank (a ∷ s) c = refl

other_text : (s t : Text) → s ≢ t → eq_text s t ≡ false
other_text s t h = ground (arith, eq_text_iff s t)

absolute_part :
    (s : Text) (c : ℕ) (z : Text)
    → IsBare s c
    → s ++ c ∷ [] ≢ text "@"
    → canonical z ≡ z
    → absolute_name (s ++ c ∷ []) z ≡ canonical ((s ++ c ∷ []) ++ dot ++ rstrip_dots z)
unfolding absolute_name
absolute_part s c z (no_dot, no_space, head, low) at zone_c =
    rw
      (
        strip-address s c no_space head,
        low,
        not_blank s c,
        other_text (s ++ c ∷ []) (text "@") at,
        ends_with-dot s c no_dot,
        zone_c,
      )
      refl

expanded :
    (r b : Text) (e : ℕ)
    → IsBare (r ++ (dot ++ b)) e
    → is_dot e ≡ false
    → canonical (r ++ dot ++ rstrip_dots ((b ++ e ∷ []) ++ dot))
      ≡ r ++ (dot ++ ((b ++ e ∷ []) ++ dot))
unfolding rstrip_dots
expanded r b e (no_dot, no_space, head, low) d =
    let zone : rstrip_dots ((b ++ e ∷ []) ++ dot) ≡ b ++ e ∷ [] =
      rstrip_dots-snoc (b ++ e ∷ []) ∙ rstrip-snoc is_dot b e d in
    ap (λ t. canonical (r ++ dot ++ t)) zone
    ∙ ap canonical (append_assoc r dot (b ++ e ∷ []) ∙ sym (inner r b e))
    ∙ canonical-bare (r ++ (dot ++ b)) e no_dot no_space head low
    ∙ whole r b e

-- A name below its zone is what it was after it has been written relative to the zone and expanded again,
-- if the part before the zone is not a lone at sign, and it and the zone are trimmed, in lower case, and
-- have no dot too many.
pub relative_round_trip :
    (s : Text) (c : ℕ) (b : Text) (e : ℕ)
    → IsBare s c
    → IsBare b e
    → s ++ c ∷ [] ≢ text "@"
    → let zone = (b ++ e ∷ []) ++ dot in
      let name = (s ++ c ∷ []) ++ (dot ++ zone) in
      absolute_name (relative_name name zone) zone ≡ name
relative_round_trip s c b e hs hb at =
    let r = s ++ c ∷ [] in
    let z = (b ++ e ∷ []) ++ dot in
    let zone_c = zone-canonical b e hb in
    let name_c : canonical (r ++ (dot ++ z)) ≡ r ++ (dot ++ z) =
      subst (λ t. canonical t ≡ t) (whole r b e)
        (zone-canonical (r ++ (dot ++ b)) e (name-IsBare s c b e hs hb)) in
    ap (λ t. absolute_name t z) (relative_part r z name_c zone_c)
    ∙ absolute_part s c z hs at zone_c
    ∙ expanded r b e (name-IsBare s c b e hs hb) hb.0
