-- ===== src/Prelude/Lists.antt =====
-- Lists measured and searched with native numbers and Boolean tests, under the library's names.
use Prim.Native.Nat.{ℕ, zero, suc, ◌+◌}
use mathlib.Core.Path.{◌≡◌, refl}
use mathlib.Core.Bool.{Bool, true, false, ◌&&◌, ◌||◌, false≢true}
use mathlib.Core.Logic.{◌⊎◌, ◌↔◌, inl, inr}
use mathlib.Core.Option.{Option, none, some}
use mathlib.Core.List.{List, [], ◌∷◌, ◌++◌}
use native.Mathlib.Omega.{arith}
use powerdns.Prelude.Booleans.{if◌then◌else◌}

module _ {ℓ} {A : Type ℓ} where
  abbrev pub length : List A → ℕ
  length [] = 0
  length (x ∷ xs) = suc (length xs)

  abbrev pub is_empty : List A → Bool
  is_empty [] = true
  is_empty (_ ∷ _) = false

  abbrev pub take : ℕ → List A → List A
  take zero xs = []
  take (suc n) [] = []
  take (suc n) (x ∷ xs) = x ∷ take n xs

  abbrev pub drop : ℕ → List A → List A
  drop zero xs = xs
  drop (suc n) [] = []
  drop (suc n) (x ∷ xs) = drop n xs

  abbrev pub any : (A → Bool) → List A → Bool
  any p [] = false
  any p (x ∷ xs) = p x || any p xs

  abbrev pub all : (A → Bool) → List A → Bool
  all p [] = true
  all p (x ∷ xs) = p x && all p xs

  -- The items that pass the test, as `[x for x in xs if p(x)]` gives them.
  abbrev pub keep : (A → Bool) → List A → List A
  keep p [] = []
  keep p (x ∷ xs) = let rest = keep p xs in if p x then x ∷ rest else rest

  -- The first item that passes the test.
  abbrev pub find : (A → Bool) → List A → Option A
  find p [] = none
  find p (x ∷ xs) = if p x then some x else find p xs

  abbrev pub count : (A → Bool) → List A → ℕ
  count p [] = 0
  count p (x ∷ xs) = let rest = count p xs in if p x then suc rest else rest

  pub length-append : (xs ys : List A) → length (xs ++ ys) ≡ length xs + length ys
  length-append [] ys = omega arith
  length-append (x ∷ xs) ys = omega (arith, length-append xs ys)

-- What holds of every item; it computes to a tuple, which the tactics read and build.
module _ {ℓ κ} {A : Type ℓ} (P : A → Type κ) where
  abbrev pub All : List A → Type κ
  All [] = Unit
  All (x ∷ xs) = P x × All xs

  pub All-append : (xs ys : List A) → All xs → All ys → All (xs ++ ys)
  All-append [] ys hx hy = hy
  All-append (x ∷ xs) ys hx hy = (hx.0, All-append xs ys hx.1 hy)

-- What holds of some item, with the item.
module _ {ℓ} {A : Type ℓ} (P : A → Type 0) where
  abbrev pub Any : List A → Type 0
  Any [] = ⊥
  Any (x ∷ xs) = P x ⊎ Any xs

module _ {ℓ} {A : Type ℓ} (p : A → Bool) where
  pub any_iff : (xs : List A) → (any p xs ≡ true) ↔ Any (λ x. p x ≡ true) xs
  any_iff [] = ((λ h. absurd (false≢true h)), (λ h. absurd h))
  any_iff (x ∷ xs) = ground (arith, any_iff xs)

-- Each item of a list is an item of it.
pub All-listed : {A : Type 0} (xs : List A) → All (λ y. Any (λ x. x ≡ y) xs) xs
All-listed [] = tt
All-listed {A} (x ∷ xs) = (inl refl, weaken xs (All-listed xs))
  where
    weaken :
        (ys : List A)
        → All (λ y. Any (λ z. z ≡ y) xs) ys
        → All (λ y. (x ≡ y) ⊎ Any (λ z. z ≡ y) xs) ys
    weaken [] h = tt
    weaken (y ∷ ys) h = (inr h.0, weaken ys h.1)
