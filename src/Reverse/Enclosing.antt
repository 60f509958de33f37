-- ===== src/Reverse/Enclosing.antt =====
-- The most specific zone that a name falls in: enclosing_zone of webui/app/reverse.py.
use powerdns.Prelude.{
  ℕ, suc, ◌≤◌, ◌≡◌, ◌≢◌, ◌⊎◌, inl, inr, refl, subst, true, ◌&&◌, Option, none, some, List, [], ◌∷◌,
  arith, All, Any, Bool-cases, length,
}
use powerdns.Text.{Text}
use powerdns.Names.{canonical, is_within}
use powerdns.Reverse.{better, is_longer, enclosing_from, enclosing_zone}

-- A listed zone, in normal form, that the name falls in.
abbrev pub Matches : Text → Text → Type 0
Matches target zone = (zone ≢ []) × (is_within target zone ≡ true)

abbrev rank : Option Text → ℕ
rank none = 0
rank (some zone) = suc (length zone)

better-le : (target zone : Text) (best : Option Text) → rank best ≤ rank (better target zone best)
better-le target [] best = omega arith
better-le target (c ∷ zone) none = ground arith
better-le target (c ∷ zone) (some b) = ground arith

better-Matches :
    (target zone : Text) (best : Option Text)
    → Matches target zone
    → suc (length zone) ≤ rank (better target zone best)
better-Matches target [] best m = absurd (m.0 refl)
better-Matches target (c ∷ zone) none m = ground (arith, m.1)
better-Matches target (c ∷ zone) (some b) m = ground (arith, m.1)

better-source :
    (target zone z : Text) (best : Option Text)
    → better target zone best ≡ some z
    → (best ≡ some z) ⊎ ((zone ≡ z) × Matches target z)
better-source target [] z best e = inl e
better-source target (c ∷ zone) z best e =
    elim (Bool-cases (is_within target (c ∷ zone) && is_longer (c ∷ zone) best)) [
      | inl hit ↦
          let same : c ∷ zone ≡ z = ground arith in
          inr (same, subst (Matches target) same ((λ e. ground arith), ground arith))
      | inr miss ↦ inl (ground arith)
    ]

enclosing-le :
    (target : Text) (zones : List Text) (best : Option Text)
    → rank best ≤ rank (enclosing_from target best zones)
unfolding enclosing_from
enclosing-le target [] best = omega arith
enclosing-le target (c ∷ zones) best = omega (
  arith,
  better-le target (canonical c) best,
  enclosing-le target zones (better target (canonical c) best),
)

enclosing-longest :
    (target : Text) (zones : List Text) (best : Option Text)
    → All
        (λ c.
          Matches target (canonical c)
          → suc (length (canonical c)) ≤ rank (enclosing_from target best zones))
        zones
unfolding enclosing_from
enclosing-longest target [] best = tt
enclosing-longest target (c ∷ zones) best = (
  λ m. omega (
    arith,
    better-Matches target (canonical c) best m,
    enclosing-le target zones (better target (canonical c) best),
  ),
  enclosing-longest target zones (better target (canonical c) best),
)

enclosing-source :
    (target z : Text) (zones : List Text) (best : Option Text)
    → enclosing_from target best zones ≡ some z
    → (best ≡ some z) ⊎ (Any (λ c. canonical c ≡ z) zones × Matches target z)
unfolding enclosing_from
enclosing-source target z [] best e = inl e
enclosing-source target z (c ∷ zones) best e =
    elim (enclosing-source target z zones (better target (canonical c) best) e) [
      | inl b ↦ elim (better-source target (canonical c) z best b) [
        | inl old ↦ inl old
        | inr (same, m) ↦ inr (inl same, m)
      ]
      | inr (a, m) ↦ inr (inr a, m)
    ]

-- The result for a name, in normal form, among some zones.
abbrev pub IsMostSpecific : Text → List Text → Option Text → Type 0
IsMostSpecific target zones none = All (λ c. ¬ Matches target (canonical c)) zones
IsMostSpecific target zones (some z) =
    Any (λ c. canonical c ≡ z) zones
    × Matches target z
    × All (λ c. Matches target (canonical c) → length (canonical c) ≤ length z) zones

by_rank :
    (target : Text) (zones : List Text) (r : Option Text)
    → All (λ c. Matches target (canonical c) → suc (length (canonical c)) ≤ rank r) zones
    → ((z : Text) → r ≡ some z → Any (λ c. canonical c ≡ z) zones × Matches target z)
    → IsMostSpecific target zones r
by_rank target zones none h source = weaken zones h
  where
    weaken :
        (zones : List Text)
        → All (λ c. Matches target (canonical c) → suc (length (canonical c)) ≤ 0) zones
        → All (λ c. ¬ Matches target (canonical c)) zones
    weaken [] h = tt
    weaken (c ∷ zones) h = ((λ m. omega (arith, h.0 m)), weaken zones h.1)
by_rank target zones (some z) h source =
    let (listed, m) = source z refl in (listed, m, weaken zones h)
  where
    weaken :
        (zones : List Text)
        → All
            (λ c. Matches target (canonical c) → suc (length (canonical c)) ≤ suc (length z))
            zones
        → All (λ c. Matches target (canonical c) → length (canonical c) ≤ length z) zones
    weaken [] h = tt
    weaken (c ∷ zones) h = ((λ m. omega (arith, h.0 m)), weaken zones h.1)

-- The zone that is found for a name is a listed one that the name falls in, and none of the listed ones
-- that the name falls in is longer. If none is found, the name falls in none of them.
pub enclosing_zone_lem :
    (name : Text) (zones : List Text)
    → IsMostSpecific (canonical name) zones (enclosing_zone name zones)
unfolding enclosing_zone
enclosing_zone_lem name zones =
    by_rank (canonical name) zones (enclosing_from (canonical name) none zones)
      (enclosing-longest (canonical name) zones none)
      (λ z e. elim (enclosing-source (canonical name) z zones none e) [
        | inl nothing ↦ cc
        | inr found ↦ found
      ])
