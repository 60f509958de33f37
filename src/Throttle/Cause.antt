-- ===== src/Throttle/Cause.antt =====
-- What a lock comes from: all the calls of LoginThrottle, in webui/app/security.py.
use powerdns.Prelude.{
  ℕ, suc, ◌≤◌, ◌≡◌, ◌≢◌, refl, sym, subst, ◌∙◌, Option, none, some, List, [], ◌∷◌, ◌==◌, arith, ltb,
  if◌then◌else◌, Bool-cases, Option-cases, inl, inr,
}
use powerdns.Text.{Text, eq_text}
use powerdns.Text.Laws.{eq_text_iff}
use powerdns.Dict.{lookup, erase}
use powerdns.Dict.Laws.{HasUniqueKeys, lookup-erase, erase-HasUniqueKeys}
use powerdns.Throttle.{
  LoginThrottle, key, prune, remaining, locked_entry, is_locked, count_after, record_failure, reset,
}
use powerdns.Throttle.Entries.{
  seconds_of, is_locked-seconds_of, prune-lookup, record_failure-lookup,
  record_failure-HasUniqueKeys, record_failure-settings,
}

-- What happens to the counter.
pub data Event : Type 0 where
  failed asked : Text → Text → ℕ → Event
  succeeded : Text → Text → Event

-- The failures among the events that are counted under a key.
abbrev pub failures_of : Text → List Event → ℕ
failures_of k [] = 0
failures_of k (failed u a now ∷ es) =
    let rest = failures_of k es in if eq_text (key u a) k then suc rest else rest
failures_of k (_ ∷ es) = failures_of k es

module _ (second : ℕ) where
  abbrev pub step : Event → LoginThrottle → LoginThrottle
  step (failed u a now) t = record_failure second u a now t
  step (asked u a now) t = (is_locked second u a now t).1
  step (succeeded u a) t = reset u a t

  -- The counter after the events, the latest first.
  unfoldable pub after : List Event → LoginThrottle → LoginThrottle
  after [] t = t
  after (e ∷ es) t = step e (after es t)

  record CountsAtMost (k : Text) (n : ℕ) (t : LoginThrottle) : Type 0 where
    unique : HasUniqueKeys t.failures
    bound : (count last : ℕ) → lookup k t.failures ≡ some (count, last) → count ≤ n

  count_after-le :
      (t : LoginThrottle) (now n : ℕ) (o : Option (ℕ × ℕ))
      → ((count last : ℕ) → o ≡ some (count, last) → count ≤ n)
      → count_after second t now o ≤ suc n
  count_after-le t now n none h = omega arith
  count_after-le t now n (some (count, last)) h = ground (arith, h count last refl)

  pruned_bound :
      (k : Text) (now n : ℕ) (t : LoginThrottle)
      → CountsAtMost k n t
      → (count last : ℕ) → lookup k (prune second now t).failures ≡ some (count, last)
      → count ≤ n
  pruned_bound k now n t h count last e = elim (prune-lookup second k now t h.unique) [
    | inl same ↦ h.bound count last (sym same ∙ e)
    | inr (_, _, _, gone) ↦ absurd (ground arith)
  ]

  record_failure-CountsAtMost :
      (k u a : Text) (now n : ℕ) (t : LoginThrottle)
      → CountsAtMost k n t
      → CountsAtMost k (if eq_text (key u a) k then suc n else n) (record_failure second u a now t)
  record_failure-CountsAtMost k u a now n t h = record {
    unique = record_failure-HasUniqueKeys second u a now t h.unique;
    bound = λ count last e.
        let e' = sym (record_failure-lookup second u a k now t h.unique) ∙ e in
        elim (Bool-cases (eq_text (key u a) k)) [
          | inl same ↦
              let le = count_after-le t now n (lookup (key u a) t.failures) (
                subst (λ j. (c l : ℕ) → lookup j t.failures ≡ some (c, l) → c ≤ n)
                  (sym ((eq_text_iff (key u a) k).0 same)) h.bound) in
              rw same (ground arith)
          | inr other ↦ rw other (pruned_bound k now n t h count last (rw other at e'))
        ];
  }

  erase-CountsAtMost :
      (k j : Text) (n : ℕ) (t : LoginThrottle)
      → CountsAtMost k n t
      → CountsAtMost k n (record t { failures = erase j t.failures })
  erase-CountsAtMost k j n t h = record {
    unique = erase-HasUniqueKeys j t.failures h.unique;
    bound = λ count last e. ground (arith, lookup-erase j k t.failures, h.bound count last);
  }

  asked-CountsAtMost :
      (k u a : Text) (now n : ℕ) (t : LoginThrottle)
      → CountsAtMost k n t
      → CountsAtMost k n (is_locked second u a now t).1
  unfolding is_locked
  asked-CountsAtMost k u a now n t h = by_entry (lookup (key u a) t.failures)
    where
      by_entry : (o : Option (ℕ × ℕ)) → CountsAtMost k n (locked_entry second (key u a) now t o).1
      by_entry none = h
      by_entry (some (count, last)) = elim (Bool-cases (ltb count t.max_attempts)) [
        | inl few ↦ rw few h
        | inr many ↦ elim (Bool-cases (remaining second t now last == 0)) [
          | inl over ↦ simp (many, over) (erase-CountsAtMost k (key u a) n t h)
          | inr left ↦ simp (many, left) h
        ]
      ]

  after-CountsAtMost :
      (k : Text) (events : List Event) (t : LoginThrottle)
      → CountsAtMost k 0 t
      → CountsAtMost k (failures_of k events) (after events t)
  unfolding after reset
  after-CountsAtMost k [] t h = h
  after-CountsAtMost k (failed u a now ∷ es) t h =
      record_failure-CountsAtMost k u a now (failures_of k es) (after es t)
        (after-CountsAtMost k es t h)
  after-CountsAtMost k (asked u a now ∷ es) t h =
      asked-CountsAtMost k u a now (failures_of k es) (after es t) (after-CountsAtMost k es t h)
  after-CountsAtMost k (succeeded u a ∷ es) t h =
      erase-CountsAtMost k (key u a) (failures_of k es) (after es t) (after-CountsAtMost k es t h)

  step-max_attempts : (e : Event) (t : LoginThrottle) → (step e t).max_attempts ≡ t.max_attempts
  unfolding is_locked reset
  step-max_attempts (failed u a now) t = (record_failure-settings second u a now t).0
  step-max_attempts (asked u a now) t = ground (arith, Option-cases (lookup (key u a) t.failures))
  step-max_attempts (succeeded u a) t = refl

  after-max_attempts :
      (events : List Event) (t : LoginThrottle) → (after events t).max_attempts ≡ t.max_attempts
  unfolding after
  after-max_attempts [] t = refl
  after-max_attempts (e ∷ es) t = step-max_attempts e (after es t) ∙ after-max_attempts es t

  locked_has_count :
      (t : LoginThrottle) (now n : ℕ) (o : Option (ℕ × ℕ))
      → ((count last : ℕ) → o ≡ some (count, last) → count ≤ n)
      → seconds_of second t now o ≢ 0
      → t.max_attempts ≤ n
  locked_has_count t now n none h l = absurd (l refl)
  locked_has_count t now n (some (count, last)) h l = ground (arith, h count last refl)

  -- If a user is locked out at an address, the counter has seen at least `max_attempts` failures
  -- under that user and address since it was made.
  pub locked-failures_of :
      (max lockout : ℕ) (events : List Event) (u a : Text) (now : ℕ)
      → let t =
          after events (record { max_attempts = max; lockout_seconds = lockout; failures = [] }) in
        (is_locked second u a now t).0 ≢ 0 → max ≤ failures_of (key u a) events
  locked-failures_of max lockout events u a now locked =
      let new : LoginThrottle = record {
        max_attempts = max;
        lockout_seconds = lockout;
        failures = [];
      } in
      let t = after events new in
      let h =
        after-CountsAtMost (key u a) events new
          (record { unique = tt; bound = λ count last e. absurd (unfold lookup in cc) }) in
      rw (← after-max_attempts events new) (
        locked_has_count t now (failures_of (key u a) events) (lookup (key u a) t.failures) h.bound
          (rw (is_locked-seconds_of second u a now t) at locked))
