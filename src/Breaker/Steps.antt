-- ===== src/Breaker/Steps.antt =====
-- The breaker's state and its methods, internal/clockify/circuit_breaker.go.
use go_clockify.Base.{
  ℕ, ◌+◌, ◌-◌, String, ◌≡◌, ◌↔◌, Bool, true, false, not, ◌&&◌, Option, none, some, List, [], ◌∷◌,
  arith, ltb, leb, if◌then◌else◌, Testable, ◌==◌, beq_iff, String_eq, ℤ, positive_or,
}
use go_clockify.Base.Assoc.{lookup, insert}

pub data BreakerState : Type 0 where
  closed open_ half_open : BreakerState

-- Zero and negative numbers stand for the defaults.
pub record BreakerConfig : Type 0 where
  pub enabled : Bool
  pub failure_threshold : ℤ
  pub open_duration : ℤ
  pub half_open_probes : ℤ

pub record BreakerKey : Type 0 where
  pub endpoint : String
  pub method : String

abbrev pub key_eq : BreakerKey → BreakerKey → Bool
key_eq a b = (a.endpoint == b.endpoint) && (a.method == b.method)

pub key_eq_iff : (a b : BreakerKey) → (key_eq a b ≡ true) ↔ (a ≡ b)
key_eq_iff a b = ground (arith, beq_iff a.endpoint b.endpoint, beq_iff a.method b.method)

instance abbrev pub BreakerKey_eq : Testable BreakerKey
BreakerKey_eq = record { test = key_eq; test_iff = key_eq_iff }

pub record Endpoint : Type 0 where
  pub state : BreakerState
  pub failures : ℕ
  pub opened_at : ℕ
  pub half_open_in_flight : ℕ

pub record CircuitBreaker : Type 0 where
  pub enabled : Bool
  pub failure_threshold : ℕ
  pub open_duration : ℕ
  pub half_open_probes : ℕ
  pub states : List (BreakerKey × Endpoint)

pub record BreakerOpenError : Type 0 where
  pub endpoint : String
  pub method : String
  pub retry_after : ℕ

-- 5 failures, 45 s in nanoseconds, 1 probe.
unfoldable pub new_breaker : BreakerConfig → CircuitBreaker
new_breaker cfg = record {
  enabled = cfg.enabled;
  failure_threshold = positive_or 5 cfg.failure_threshold;
  open_duration = positive_or 45_000_000_000 cfg.open_duration;
  half_open_probes = positive_or 1 cfg.half_open_probes;
  states = [];
}

-- `&breakerEndpointState{state: breakerClosed}`; the zero `time.Time` is never read, since
-- `openedAt` is read only in the open state.
abbrev pub fresh_endpoint : Endpoint
fresh_endpoint = record { state = closed; failures = 0; opened_at = 0; half_open_in_flight = 0 }

abbrev pub or_fresh : Option Endpoint → Endpoint
or_fresh none = fresh_endpoint
or_fresh (some st) = st

-- The state that `ensureLocked` finds or creates; what it creates is stored by its callers.
unfoldable pub ensure_locked : CircuitBreaker → BreakerKey → Endpoint
ensure_locked b key = or_fresh (lookup key b.states)

abbrev pub store : CircuitBreaker → BreakerKey → Endpoint → CircuitBreaker
store b key st = record b { states = insert key st b.states }

abbrev pub state_eq : BreakerState → BreakerState → Bool
state_eq closed closed = true
state_eq open_ open_ = true
state_eq half_open half_open = true
state_eq _ _ = false

unfoldable pub transition_locked : Endpoint → BreakerState → ℕ → Endpoint
transition_locked st next now = if state_eq st.state next then st else record {
  state = next;
  failures = 0;
  opened_at = if state_eq next open_ then now else st.opened_at;
  half_open_in_flight = if not (state_eq next half_open) then 0 else st.half_open_in_flight;
}

-- The second half of `Before`, after an open endpoint whose time is over has gone to half-open.
-- A number is the `RetryAfter` of the refusal.
abbrev before_half_open : CircuitBreaker → Endpoint → Endpoint × Option ℕ
before_half_open b st =
    if state_eq st.state half_open
    then if leb b.half_open_probes st.half_open_in_flight
      then (st, some b.open_duration)
      else (record st { half_open_in_flight = st.half_open_in_flight + 1 }, none)
    else (st, none)

-- What `Before` does to the endpoint that it holds. `elapsed < openDuration` is
-- `now < openedAt + openDuration`, whatever the order of the two times, and there
-- `openDuration - elapsed` is `openedAt + openDuration - now`, exactly.
unfoldable pub before_endpoint : CircuitBreaker → Endpoint → ℕ → Endpoint × Option ℕ
unfolding transition_locked
before_endpoint b st now =
    if state_eq st.state open_
    then if ltb now (st.opened_at + b.open_duration)
      then (st, some (st.opened_at + b.open_duration - now))
      else before_half_open b (transition_locked st half_open now)
    else before_half_open b st

abbrev pub open_error : BreakerKey → Option ℕ → Option BreakerOpenError
open_error key none = none
open_error key (some retry_after) =
    some (record { endpoint = key.endpoint; method = key.method; retry_after = retry_after })

unfoldable pub before :
    CircuitBreaker → String → String → ℕ → CircuitBreaker × Option BreakerOpenError
before b endpoint method now =
    if not b.enabled
    then (b, none)
    else (let key : BreakerKey = record { endpoint = endpoint; method = method } in
        let (st, retry_after) = before_endpoint b (ensure_locked b key) now in
        (store b key st, open_error key retry_after))

-- A finished request frees its probe's place, if it is half-open and any is taken.
abbrev release_probe : Endpoint → Endpoint
release_probe st =
    if state_eq st.state half_open && ltb 0 st.half_open_in_flight
    then record st { half_open_in_flight = st.half_open_in_flight - 1 }
    else st

-- The `switch` of `After`; the last clause is `default`.
record_failure : BreakerState → ℕ → Endpoint → ℕ → Endpoint
unfolding transition_locked
record_failure half_open threshold st now = transition_locked st open_ now
record_failure open_ threshold st now = record st { opened_at = now }
record_failure closed threshold st now =
    let st' = record st { failures = st.failures + 1 } in
    if leb threshold (st.failures + 1) then transition_locked st' open_ now else st'

record_success : Endpoint → ℕ → Endpoint
unfolding transition_locked
record_success st now =
    let st' = record st { failures = 0 } in
    if not (state_eq st.state closed) then transition_locked st' closed now else st'

-- What `After` does to the endpoint that it holds.
unfoldable pub after_endpoint : CircuitBreaker → Endpoint → Bool → ℕ → Endpoint
unfolding record_failure record_success
after_endpoint b st upstream_failure now =
    let st' = release_probe st in
    if not upstream_failure
    then record_success st' now
    else record_failure st'.state b.failure_threshold st' now

unfoldable pub after : CircuitBreaker → String → String → Bool → ℕ → CircuitBreaker
after b endpoint method upstream_failure now =
    if not b.enabled
    then b
    else (let key : BreakerKey = record { endpoint = endpoint; method = method } in
        store b key (after_endpoint b (ensure_locked b key) upstream_failure now))

-- One call of either method by any of the client's goroutines, in the order of the lock.
pub data BreakerCall : Type 0 where
  before_call : BreakerKey → ℕ → BreakerCall
  after_call : BreakerKey → Bool → ℕ → BreakerCall

unfoldable pub step : CircuitBreaker → BreakerCall → CircuitBreaker
step b (before_call key now) = (before b key.endpoint key.method now).0
step b (after_call key failure now) = after b key.endpoint key.method failure now

unfoldable pub run : CircuitBreaker → List BreakerCall → CircuitBreaker
run b [] = b
run b (c ∷ cs) = run (step b c) cs
