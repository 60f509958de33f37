-- ===== src/Dict.antt =====
-- Python's dict with text keys, as the list of its items in insertion order.
pub mod Laws
use powerdns.Prelude.{
  ℕ, ◌≡◌, ◌≢◌, ◌⊎◌, refl, Bool, true, false, not, Option, none, some, List, [], ◌∷◌, arith, All,
  if◌then◌else◌,
}
use powerdns.Text.{Text, eq_text}
use powerdns.Text.Laws.{eq_text_iff}

abbrev pub Dict {ℓ} : Type ℓ → Type ℓ
Dict V = List (Text × V)

module _ {ℓ} {V : Type ℓ} where
  -- d.get(k)
  unfoldable pub lookup : Text → Dict V → Option V
  lookup k [] = none
  lookup k ((j, v) ∷ d) = if eq_text j k then some v else lookup k d

  -- d[k] = v
  unfoldable pub insert : Text → V → Dict V → Dict V
  insert k v [] = (k, v) ∷ []
  insert k v ((j, w) ∷ d) = if eq_text j k then (j, v) ∷ d else (j, w) ∷ insert k v d

  -- d.pop(k, None)
  unfoldable pub erase : Text → Dict V → Dict V
  erase k [] = []
  erase k ((j, w) ∷ d) = let rest = erase k d in if eq_text j k then rest else (j, w) ∷ rest

  -- The items whose value passes a test.
  unfoldable pub keep_values : (V → Bool) → Dict V → Dict V
  keep_values p [] = []
  keep_values p ((j, w) ∷ d) = let rest = keep_values p d in if p w then (j, w) ∷ rest else rest
