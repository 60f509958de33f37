-- ===== src/Throttle/Entries.antt =====
-- The entries of the failed-login counter: what pruning, asking and a failure do to one of them.
use powerdns.Prelude.{
  ℕ, ◌≡◌, ◌⊎◌, refl, true, not, Option, none, some, arith, length, ltb, if◌then◌else◌, Bool-cases,
  Option-cases, inl, inr,
}
use powerdns.Text.{Text, eq_text}
use powerdns.Dict.{lookup}
use powerdns.Dict.Laws.{
  HasUniqueKeys, lookup-insert, lookup-keep_values, keep_values-HasUniqueKeys, insert-HasUniqueKeys,
}
use powerdns.Throttle.{
  LoginThrottle, key, is_stale, prune, remaining, is_locked, count_after, record_failure,
}

module _ (second : ℕ) where
  -- The seconds left by an entry, which `is_locked` reports.
  abbrev pub seconds_of : LoginThrottle → ℕ → Option (ℕ × ℕ) → ℕ
  seconds_of t now none = 0
  seconds_of t now (some (count, last)) =
      if ltb count t.max_attempts then 0 else remaining second t now last

  pub is_locked-seconds_of :
      (u a : Text) (now : ℕ) (t : LoginThrottle)
      → (is_locked second u a now t).0 ≡ seconds_of t now (lookup (key u a) t.failures)
  unfolding is_locked
  is_locked-seconds_of u a now t = ground (arith, Option-cases (lookup (key u a) t.failures))

  -- Pruning drops only entries whose window has passed, which lock nothing and are counted afresh.
  pub prune-lookup :
      (k : Text) (now : ℕ) (t : LoginThrottle)
      → HasUniqueKeys t.failures
      → (lookup k (prune second now t).failures ≡ lookup k t.failures)
        ⊎ ((e : ℕ × ℕ) × (lookup k t.failures ≡ some e)
            × (is_stale second t now e.1 ≡ true)
            × (lookup k (prune second now t).failures ≡ none))
  unfolding prune
  prune-lookup k now t h = elim (Bool-cases (ltb (length t.failures) 1024)) [
    | inl small ↦ simp small (inl refl)
    | inr big ↦ simp (big, lookup-keep_values _ k t.failures h) (split (lookup k t.failures))
  ]
    where
      split :
          (o : Option (ℕ × ℕ))
          → ((elim o [
            | none ↦ none
            | some v ↦ if not (is_stale second t now v.1) then some v else none
          ])
              ≡ o)
            ⊎ ((e : ℕ × ℕ) × (o ≡ some e)
                × (is_stale second t now e.1 ≡ true)
                × ((elim o [
                  | none ↦ none
                  | some v ↦ if not (is_stale second t now v.1) then some v else none
                ])
                    ≡ none))
      split none = inl refl
      split (some e) = elim (Bool-cases (is_stale second t now e.1)) [
        | inl s ↦ inr (e, refl, s, rw s)
        | inr f ↦ inl (rw f)
      ]

  max_attempts-prune :
      (now : ℕ) (t : LoginThrottle) → (prune second now t).max_attempts ≡ t.max_attempts
  unfolding prune
  max_attempts-prune now t = ground arith

  lockout_seconds-prune :
      (now : ℕ) (t : LoginThrottle) → (prune second now t).lockout_seconds ≡ t.lockout_seconds
  unfolding prune
  lockout_seconds-prune now t = ground arith

  pub record_failure-lookup :
      (u a : Text) (j : Text) (now : ℕ) (t : LoginThrottle)
      → HasUniqueKeys t.failures
      → lookup j (record_failure second u a now t).failures ≡ (
          if eq_text (key u a) j
          then some (count_after second t now (lookup (key u a) t.failures), now)
          else lookup j (prune second now t).failures)
  unfolding record_failure
  record_failure-lookup u a j now t h = elim (prune-lookup (key u a) now t h) [
    | inl same ↦
        simp (lookup-insert, same)
          (ground (arith, lockout_seconds-prune now t, Option-cases (lookup (key u a) t.failures)))
    | inr (e, was, stale, gone) ↦
        simp (lookup-insert, gone, was) (ground (arith, stale, lockout_seconds-prune now t))
  ]

  pub record_failure-HasUniqueKeys :
      (u a : Text) (now : ℕ) (t : LoginThrottle)
      → HasUniqueKeys t.failures
      → HasUniqueKeys (record_failure second u a now t).failures
  unfolding record_failure prune
  record_failure-HasUniqueKeys u a now t h =
      insert-HasUniqueKeys (key u a) _ _ (elim (Bool-cases (ltb (length t.failures) 1024)) [
        | inl small ↦ simp small h
        | inr big ↦ simp big (keep_values-HasUniqueKeys _ t.failures h)
      ])

  pub record_failure-settings :
      (u a : Text) (now : ℕ) (t : LoginThrottle)
      → ((record_failure second u a now t).max_attempts ≡ t.max_attempts)
        × ((record_failure second u a now t).lockout_seconds ≡ t.lockout_seconds)
  unfolding record_failure
  record_failure-settings u a now t = (max_attempts-prune now t, lockout_seconds-prune now t)
