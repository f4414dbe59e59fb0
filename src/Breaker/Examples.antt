-- ===== src/Breaker/Examples.antt =====
-- The breaker's theorems at concrete inputs, and runs of the code.
use go_clockify.Base.{
  ◌+◌, ◌≤◌, ◌≡◌, refl, ◌↔◌, true, none, some, List, [], ◌∷◌, ℕ_eq, String_eq, pos, negsuc,
}
use go_clockify.Breaker.Steps.{
  open_, BreakerKey, BreakerKey_eq, BreakerConfig, CircuitBreaker, BreakerCall, before_call,
  after_call, before_endpoint, after_endpoint, ensure_locked, before, after, new_breaker, step, run,
}
use go_clockify.Base.Assoc.{lookup, insert}
use go_clockify.Breaker.Invariant.{IsConsistent, run-IsConsistent}
use go_clockify.Breaker.Isolation.{calls_of, run-calls_of}
use go_clockify.Breaker.Opening.{Allows, before-Allows, before-retry_after}

abbrev config : BreakerConfig
config = record {
  enabled = true;
  failure_threshold = pos 2;
  open_duration = pos 100;
  half_open_probes = negsuc 0;
}

abbrev users : BreakerKey
users = record { endpoint = "/users"; method = "GET" }

abbrev tags : BreakerKey
tags = record { endpoint = "/tags"; method = "GET" }

abbrev outage : List BreakerCall
outage =
    before_call users 1
    ∷ after_call users true 2
    ∷ before_call tags 3
    ∷ after_call users true 5
    ∷ after_call tags true 6
    ∷ []

run-IsConsistent_example : IsConsistent (run (new_breaker config) outage)
run-IsConsistent_example = run-IsConsistent config outage

run-calls_of_example :
    ensure_locked (run (new_breaker config) outage) users
    ≡ ensure_locked (run (new_breaker config) (calls_of users outage)) users
run-calls_of_example = run-calls_of (new_breaker config) users outage

abbrev two_failures : CircuitBreaker
two_failures = run (new_breaker config) outage

outage_opens : (ensure_locked two_failures users).state ≡ open_
unfolding ensure_locked run new_breaker step before after before_endpoint after_endpoint lookup
    insert
outage_opens = refl

outage_refuses :
    (before two_failures "/users" "GET" 25).1
    ≡ some (record { endpoint = "/users"; method = "GET"; retry_after = 80 })
unfolding ensure_locked run new_breaker step before after before_endpoint after_endpoint lookup
    insert
outage_refuses = refl

outage_enabled : two_failures.enabled ≡ true
unfolding ensure_locked run new_breaker step before after before_endpoint after_endpoint lookup
    insert
outage_enabled = refl

before-Allows_example :
    ((before two_failures "/users" "GET" 25).1 ≡ none)
    ↔ Allows two_failures (ensure_locked two_failures users) 25
before-Allows_example =
    before-Allows two_failures users 25 outage_enabled (run-IsConsistent config outage)

before-retry_after_example :
    (before (before two_failures "/users" "GET" 25).0 "/users" "GET" 105).1 ≡ none ↔ 25 + 80 ≤ 105
before-retry_after_example =
    before-retry_after two_failures users 25 105
      (record { endpoint = "/users"; method = "GET"; retry_after = 80 }) outage_enabled
      (run-IsConsistent config outage) outage_opens outage_refuses
