-- ===== src/Throttle/Burst.antt =====
-- What repeated failures lock: record_failure and is_locked of LoginThrottle, in webui/app/security.py.
use powerdns.Prelude.{
  ℕ, sym, subst, ◌+◌, ◌*◌, ◌/◌, ◌≤◌, ◌<◌, ◌≡◌, refl, ◌∙◌, Option, none, some, List, [], ◌∷◌, arith,
  length, ap, ◌==◌, if◌then◌else◌,
}
use powerdns.Text.{Text}
use powerdns.Text.Laws.{eq_text_refl}
use powerdns.Dict.{lookup}
use powerdns.Dict.Laws.{HasUniqueKeys}
use powerdns.Throttle.{LoginThrottle, key, remaining, is_locked, count_after, record_failure}
use powerdns.Throttle.Entries.{
  seconds_of, is_locked-seconds_of, record_failure-lookup, record_failure-HasUniqueKeys,
  record_failure-settings,
}

module _ (second : ℕ) where
  -- A sign-in with a wrong password, as login makes it: nothing is checked or counted while the user is
  -- locked out.
  abbrev pub counted : Text → Text → ℕ → ℕ × LoginThrottle → LoginThrottle
  counted u a now (remaining, t) = if remaining == 0 then record_failure second u a now t else t

  pub attempt : Text → Text → ℕ → LoginThrottle → LoginThrottle
  attempt u a now t = counted u a now (is_locked second u a now t)

  -- Attempts of one user at one address, one after another.
  pub fail_all : Text → Text → List ℕ → LoginThrottle → LoginThrottle
  fail_all u a [] t = t
  fail_all u a (now ∷ times) t = fail_all u a times (attempt u a now t)

  -- Below the limit an attempt is counted.
  attempt-below :
      (u a : Text) (now c last : ℕ) (t : LoginThrottle)
      → lookup (key u a) t.failures ≡ some (c, last)
      → c < t.max_attempts
      → attempt u a now t ≡ record_failure second u a now t
  unfolding attempt is_locked
  attempt-below u a now c last t e h = rw e (ground (arith, h))

  attempt-first :
      (u a : Text) (now : ℕ) (t : LoginThrottle)
      → lookup (key u a) t.failures ≡ none
      → attempt u a now t ≡ record_failure second u a now t
  unfolding attempt is_locked
  attempt-first u a now t e = rw e refl

  -- Each failure comes before the window of the one before it has passed.
  abbrev pub IsBurst : LoginThrottle → ℕ → List ℕ → Type 0
  IsBurst t last [] = Unit
  IsBurst t last (now ∷ times) = (now ≤ t.lockout_seconds * second + last) × IsBurst t now times

  abbrev pub last_of : ℕ → List ℕ → ℕ
  last_of last [] = last
  last_of last (now ∷ times) = last_of now times

  IsBurst-settings :
      (t t' : LoginThrottle) (last : ℕ) (times : List ℕ)
      → t'.lockout_seconds ≡ t.lockout_seconds
      → IsBurst t last times
      → IsBurst t' last times
  IsBurst-settings t t' last [] e h = tt
  IsBurst-settings t t' last (now ∷ times) e h = (rw e h.0, IsBurst-settings t t' now times e h.1)

  burst-count :
      (u a : Text) (times : List ℕ) (last c : ℕ) (t : LoginThrottle)
      → HasUniqueKeys t.failures
      → lookup (key u a) t.failures ≡ some (c, last)
      → IsBurst t last times
      → c + length times ≤ t.max_attempts
      → let t' = fail_all u a times t in
        (lookup (key u a) t'.failures ≡ some (c + length times, last_of last times))
        × (t'.max_attempts ≡ t.max_attempts)
        × (t'.lockout_seconds ≡ t.lockout_seconds)
  unfolding fail_all
  burst-count u a [] last c t h e b below = (e ∙ ground arith, refl, refl)
  burst-count u a (now ∷ times) last c t h e b below =
      let t₁ = record_failure second u a now t in
      let (m, l) = record_failure-settings second u a now t in
      let (found, m', l') =
        burst-count u a times now (c + 1) t₁ (record_failure-HasUniqueKeys second u a now t h)
          (record_failure-lookup second u a (key u a) now t h
            ∙ rw (eq_text_refl (key u a), e) (ground (arith, b.0)))
          (IsBurst-settings t t₁ now times l b.1) (rw m (omega (arith, below))) in
      subst
        (λ x.
          let t' = fail_all u a times x in
          (lookup (key u a) t'.failures ≡ some (c + length (now ∷ times), last_of now times))
          × (t'.max_attempts ≡ t.max_attempts)
          × (t'.lockout_seconds ≡ t.lockout_seconds))
        (sym (attempt-below u a now c last t e (omega (arith, below))))
        (found ∙ ground arith, m' ∙ m, l' ∙ l)

  div_pos : (x : ℕ) → 0 < second → second ≤ x → 0 < x / second
  div_pos x tick h = grind arith

  count_after_pos :
      (t : LoginThrottle) (now : ℕ) (o : Option (ℕ × ℕ)) → 0 < count_after second t now o
  count_after_pos t now none = omega arith
  count_after_pos t now (some e) = ground arith

  locked_positive :
      (count last : ℕ) (t : LoginThrottle) (now : ℕ)
      → t.max_attempts ≤ count
      → 0 < remaining second t now last
      → 0 < seconds_of second t now (some (count, last))
  locked_positive count last t now m r = ground arith

  -- With a clock of at least one tick to a second, and a counter whose keys are unique and that holds
  -- nothing of the user at the address: a user who tries `max_attempts` wrong passwords there, each
  -- before the window of the one before has passed, has each of them counted, and is locked out
  -- there until less than a second of the window of the last one is left.
  pub burst_locks :
      (u a : Text) (first : ℕ) (times : List ℕ) (now : ℕ) (t : LoginThrottle)
      → HasUniqueKeys t.failures
      → lookup (key u a) t.failures ≡ none
      → IsBurst t first times
      → length (first ∷ times) ≡ t.max_attempts
      → 0 < second
      → now + second ≤ t.lockout_seconds * second + last_of first times
      → let t' = fail_all u a (first ∷ times) t in
        (lookup (key u a) t'.failures ≡ some (t.max_attempts, last_of first times))
        × (0 < (is_locked second u a now t').0)
  unfolding fail_all
  burst_locks u a first times now t h fresh b enough tick soon =
      let t₁ = record_failure second u a first t in
      let (m, l) = record_failure-settings second u a first t in
      let (found, m', l') =
        burst-count u a times first 1 t₁ (record_failure-HasUniqueKeys second u a first t h)
          (record_failure-lookup second u a (key u a) first t h
            ∙ rw (eq_text_refl (key u a), fresh))
          (IsBurst-settings t t₁ first times l b) (rw m (omega (arith, enough))) in
      let t' = fail_all u a times t₁ in
      subst
        (λ x.
          let t' = fail_all u a times x in
          (lookup (key u a) t'.failures ≡ some (t.max_attempts, last_of first times))
          × (0 < (is_locked second u a now t').0))
        (sym (attempt-first u a first t fresh))
        (
          found ∙ ap (λ n. some (n, last_of first times)) (omega (arith, enough)),
          rw (is_locked-seconds_of second, found)
              (locked_positive (1 + length times) (last_of first times) t' now
                (rw (m', m) (omega (arith, enough))) (rw (l', l) (div_pos _ tick (omega arith)))),
        )
