-- ===== src/Throttle.antt =====
-- The failed-login counter: LoginThrottle of webui/app/security.py.
-- The clock is a whole number of ticks, `second` of them to a second; the source's float seconds are
-- such numbers. A difference that the source compares with the window is written as a sum, so that a
-- clock set back gives here what it gives there.
pub mod Entries
pub mod Burst
pub mod Cause
mod Tests
use powerdns.Prelude.{
  ℕ, suc, ◌+◌, ◌-◌, ◌*◌, ◌/◌, Bool, not, Option, none, some, List, [], ◌∷◌, ◌++◌, ◌==◌, length, ltb,
  if◌then◌else◌,
}
use powerdns.Text.{Text, text, lower}
use powerdns.Dict.{Dict, lookup, insert, erase, keep_values}

-- `_failures`: under each key the count and the time of the last failure.
pub record LoginThrottle : Type 0 where
  pub max_attempts : ℕ
  pub lockout_seconds : ℕ
  pub failures : Dict (ℕ × ℕ)

abbrev pub key : Text → Text → Text
key username remote_addr = lower username ++ text "|" ++ remote_addr

module _ (second : ℕ) where
  -- now - last > lockout_seconds
  abbrev pub is_stale : LoginThrottle → ℕ → ℕ → Bool
  is_stale t now last = ltb (t.lockout_seconds * second + last) now

  pub prune : ℕ → LoginThrottle → LoginThrottle
  prune now t =
      if ltb (length t.failures) 1024
      then t
      else record t { failures = keep_values (λ e. not (is_stale t now e.1)) t.failures }

  -- int(lockout_seconds - (now - last)), where that is positive, and 0 elsewhere.
  abbrev pub remaining : LoginThrottle → ℕ → ℕ → ℕ
  remaining t now last = (t.lockout_seconds * second + last - now) / second

  abbrev pub locked_entry : Text → ℕ → LoginThrottle → Option (ℕ × ℕ) → ℕ × LoginThrottle
  locked_entry k now t none = (0, t)
  locked_entry k now t (some (count, last)) =
      if ltb count t.max_attempts
      then (0, t)
      else if remaining t now last == 0
      then (0, record t { failures = erase k t.failures })
      else (remaining t now last, t)

  -- The seconds left, and what the call leaves.
  unfoldable pub is_locked : Text → Text → ℕ → LoginThrottle → ℕ × LoginThrottle
  is_locked username remote_addr now t =
      let k = key username remote_addr in locked_entry k now t (lookup k t.failures)

  abbrev pub count_after : LoginThrottle → ℕ → Option (ℕ × ℕ) → ℕ
  count_after t now none = 1
  count_after t now (some (count, last)) = if is_stale t now last then 1 else count + 1

  pub record_failure : Text → Text → ℕ → LoginThrottle → LoginThrottle
  record_failure username remote_addr now t =
      let pruned = prune now t in
      let k = key username remote_addr in
      record pruned {
        failures =
            insert k (count_after pruned now (lookup k pruned.failures), now) pruned.failures;
      }

pub reset : Text → Text → LoginThrottle → LoginThrottle
reset username remote_addr t = record t { failures = erase (key username remote_addr) t.failures }
