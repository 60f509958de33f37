-- ===== src/Throttle/Tests.antt =====
-- The failed-login counter with two attempts allowed, and ten ticks to a second.
use powerdns.Prelude.{some, ◌≡◌, ◌≤◌, ◌<◌, refl, List, [], ◌∷◌, arith}
use powerdns.Text.{Text, text, eq_text, lower}
use powerdns.Dict.{lookup, insert}
use powerdns.Throttle.{LoginThrottle, key, is_locked, record_failure, prune}
use powerdns.Throttle.Burst.{fail_all, burst_locks}
use powerdns.Throttle.Cause.{Event, failed, asked, failures_of, after, locked-failures_of}

abbrev new : LoginThrottle
new = record { max_attempts = 2; lockout_seconds = 60; failures = [] }

abbrev user : Text
user = text "Alice"

abbrev place : Text
place = text "192.0.2.1"

burst_locks_example :
    (lookup (key user place) (fail_all 10 user place (100 ∷ 150 ∷ []) new).failures ≡ some (2, 150))
    × (0 < (is_locked 10 user place 200 (fail_all 10 user place (100 ∷ 150 ∷ []) new)).0)
burst_locks_example =
    burst_locks 10 user place 100 (150 ∷ []) 200 new tt (unfold lookup in refl) (omega arith, tt)
      refl (omega arith) (omega arith)

abbrev events : List Event
events = failed (text "ALICE") place 150 ∷ asked user place 120 ∷ failed user place 100 ∷ []

locked : (is_locked 10 user place 200 (after 10 events new)).0 ≡ 55
unfolding is_locked after record_failure prune lookup insert eq_text lower
locked = refl

locked-failures_of_example : 2 ≤ failures_of (key user place) events
locked-failures_of_example =
    locked-failures_of 10 2 60 events user place 200 (λ e. ground (arith, locked, e))
