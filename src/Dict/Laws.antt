-- ===== src/Dict/Laws.antt =====
-- Lookups after each change of a dict.
use powerdns.Prelude.{◌≡◌, refl, Bool, none, some, [], ◌∷◌, arith, if◌then◌else◌}
use powerdns.Text.{Text, eq_text}
use powerdns.Text.Laws.{eq_text_iff}
use powerdns.Dict.{Dict, lookup, insert, erase, keep_values}

module _ {ℓ} {V : Type ℓ} where
  pub lookup-insert :
      (k j : Text) (v : V) (d : Dict V)
      → lookup j (insert k v d) ≡ (if eq_text k j then some v else lookup j d)
  unfolding lookup insert
  lookup-insert k j v [] = refl
  lookup-insert k j v ((i, w) ∷ d) =
      ground (arith, eq_text_iff k j, eq_text_iff i k, eq_text_iff i j, lookup-insert k j v d)

  pub lookup-erase :
      (k j : Text) (d : Dict V) → lookup j (erase k d) ≡ (if eq_text k j then none else lookup j d)
  unfolding lookup erase
  lookup-erase k j [] = ground arith
  lookup-erase k j ((i, w) ∷ d) =
      ground (arith, eq_text_iff k j, eq_text_iff i k, eq_text_iff i j, lookup-erase k j d)

-- No key stands twice.
abbrev pub HasUniqueKeys {ℓ} : {V : Type ℓ} → Dict V → Type ℓ
HasUniqueKeys [] = Unit
HasUniqueKeys ((k, v) ∷ d) = (lookup k d ≡ none) × HasUniqueKeys d

module _ {ℓ} {V : Type ℓ} where
  pub lookup-keep_values :
      (p : V → Bool) (k : Text) (d : Dict V)
      → HasUniqueKeys d
      → lookup k (keep_values p d)
        ≡ elim (lookup k d) [ none ↦ none | some v ↦ if p v then some v else none ]
  unfolding lookup keep_values
  lookup-keep_values p k [] h = refl
  lookup-keep_values p k ((j, v) ∷ d) h =
      ground (arith, eq_text_iff j k, lookup-keep_values p k d h.1)

  lookup-keep_values-none :
      (p : V → Bool) (k : Text) (d : Dict V) → lookup k d ≡ none → lookup k (keep_values p d) ≡ none
  unfolding lookup keep_values
  lookup-keep_values-none p k [] h = refl
  lookup-keep_values-none p k ((j, v) ∷ d) h = ground (arith, lookup-keep_values-none p k d)

  pub keep_values-HasUniqueKeys :
      (p : V → Bool) (d : Dict V) → HasUniqueKeys d → HasUniqueKeys (keep_values p d)
  unfolding keep_values
  keep_values-HasUniqueKeys p [] h = tt
  keep_values-HasUniqueKeys p ((j, v) ∷ d) h =
      ground (arith, keep_values-HasUniqueKeys p d h.1, lookup-keep_values-none p j d h.0)

  pub insert-HasUniqueKeys :
      (k : Text) (v : V) (d : Dict V) → HasUniqueKeys d → HasUniqueKeys (insert k v d)
  unfolding insert
  insert-HasUniqueKeys k v [] h = (unfold lookup in refl, tt)
  insert-HasUniqueKeys k v ((j, w) ∷ d) h = ground (
    arith,
    insert-HasUniqueKeys k v d h.1,
    lookup-insert k j v d,
    eq_text_iff j k,
    eq_text_iff k j,
  )

  pub erase-HasUniqueKeys : (k : Text) (d : Dict V) → HasUniqueKeys d → HasUniqueKeys (erase k d)
  unfolding erase
  erase-HasUniqueKeys k [] h = tt
  erase-HasUniqueKeys k ((j, w) ∷ d) h =
      ground (arith, erase-HasUniqueKeys k d h.1, lookup-erase k j d, eq_text_iff k j)
