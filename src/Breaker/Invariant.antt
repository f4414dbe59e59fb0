-- ===== src/Breaker/Invariant.antt =====
-- What holds of every endpoint between two calls, internal/clockify/circuit_breaker.go.
use go_clockify.Base.{
  ℕ, ◌≤◌, ◌<◌, ◌≡◌, Bool, true, false, ◌&&◌, List, [], ◌∷◌, arith, if◌then◌else◌, ◌==◌, ℕ_eq,
  String_eq,
}
use go_clockify.Base.Assoc.{lookup, lookup-insert}
use go_clockify.Breaker.Steps.{
  closed, half_open, BreakerConfig, BreakerKey, BreakerKey_eq, Endpoint, CircuitBreaker,
  ensure_locked, new_breaker, before, after, before_endpoint, after_endpoint, step, BreakerCall,
  before_call, run, after_call,
}

-- A closed endpoint is below the threshold, and only a half-open one has probes in flight.
pub record EndpointOk (threshold probes : ℕ) (st : Endpoint) : Type 0 where
  pub closed_below : st.state ≡ closed → st.failures < threshold
  pub only_closed_counts : (st.state ≡ closed → ⊥) → st.failures ≡ 0
  pub only_half_open_probes : (st.state ≡ half_open → ⊥) → st.half_open_in_flight ≡ 0
  pub probes_capped : st.half_open_in_flight ≤ probes

pub record IsConsistent (b : CircuitBreaker) : Type 0 where
  pub threshold_positive : 0 < b.failure_threshold
  pub probes_positive : 0 < b.half_open_probes
  pub endpoints :
      (key : BreakerKey) → EndpointOk b.failure_threshold b.half_open_probes (ensure_locked b key)

new_breaker-IsConsistent : (cfg : BreakerConfig) → IsConsistent (new_breaker cfg)
unfolding new_breaker ensure_locked lookup
new_breaker-IsConsistent cfg = ground arith

-- What a call leaves at any key, its own and another.
pub ensure_locked-before :
    (b : CircuitBreaker) (k j : BreakerKey) (now : ℕ)
    → ensure_locked (before b k.endpoint k.method now).0 j ≡ (
        if b.enabled && (k == j)
        then (before_endpoint b (ensure_locked b k) now).0
        else ensure_locked b j)
unfolding before ensure_locked
ensure_locked-before b k j now =
    ground (arith, lookup-insert k j (before_endpoint b (ensure_locked b k) now).0 b.states)

pub ensure_locked-after :
    (b : CircuitBreaker) (k j : BreakerKey) (failure : Bool) (now : ℕ)
    → ensure_locked (after b k.endpoint k.method failure now) j ≡ (
        if b.enabled && (k == j)
        then after_endpoint b (ensure_locked b k) failure now
        else ensure_locked b j)
unfolding after ensure_locked
ensure_locked-after b k j failure now =
    ground (arith, lookup-insert k j (after_endpoint b (ensure_locked b k) failure now) b.states)

choose :
    {t p : ℕ} {x y : Endpoint} (c : Bool)
    → EndpointOk t p x
    → EndpointOk t p y
    → EndpointOk t p (if c then x else y)
choose true hx hy = hx
choose false hx hy = hy

module _ (b : CircuitBreaker) (st : Endpoint) (now : ℕ) where
  before_endpoint-EndpointOk :
      0 < b.failure_threshold
      → 0 < b.half_open_probes
      → EndpointOk b.failure_threshold b.half_open_probes st
      → EndpointOk b.failure_threshold b.half_open_probes (before_endpoint b st now).0
  unfolding before_endpoint
  before_endpoint-EndpointOk t p h = ground arith

  after_endpoint-EndpointOk :
      (failure : Bool)
      → 0 < b.failure_threshold
      → EndpointOk b.failure_threshold b.half_open_probes st
      → EndpointOk b.failure_threshold b.half_open_probes (after_endpoint b st failure now)
  unfolding after_endpoint
  after_endpoint-EndpointOk failure t h = ground arith

-- The configuration of a breaker never changes.
pub record SameConfig (b c : CircuitBreaker) : Type 0 where
  pub enabled : b.enabled ≡ c.enabled
  pub failure_threshold : b.failure_threshold ≡ c.failure_threshold
  pub open_duration : b.open_duration ≡ c.open_duration
  pub half_open_probes : b.half_open_probes ≡ c.half_open_probes

pub step-SameConfig : (b : CircuitBreaker) (c : BreakerCall) → SameConfig (step b c) b
unfolding step before after
step-SameConfig b (before_call k now) = ground arith
step-SameConfig b (after_call k failure now) = ground arith

EndpointOk-SameConfig :
    {b c : CircuitBreaker} {st : Endpoint}
    → SameConfig b c
    → EndpointOk c.failure_threshold c.half_open_probes st
    → EndpointOk b.failure_threshold b.half_open_probes st
EndpointOk-SameConfig same h = ground arith

module _ (b : CircuitBreaker) (h : IsConsistent b) where
  before-EndpointOk :
      (k j : BreakerKey) (now : ℕ)
      → EndpointOk b.failure_threshold b.half_open_probes
          (ensure_locked (before b k.endpoint k.method now).0 j)
  before-EndpointOk k j now = rw (ensure_locked-before b k j now) (
      choose (b.enabled && (k == j))
        (before_endpoint-EndpointOk b (ensure_locked b k) now h.threshold_positive h.probes_positive
          (h.endpoints k))
        (h.endpoints j))

  after-EndpointOk :
      (k j : BreakerKey) (failure : Bool) (now : ℕ)
      → EndpointOk b.failure_threshold b.half_open_probes
          (ensure_locked (after b k.endpoint k.method failure now) j)
  after-EndpointOk k j failure now = rw (ensure_locked-after b k j failure now) (
      choose (b.enabled && (k == j))
        (after_endpoint-EndpointOk b (ensure_locked b k) now failure h.threshold_positive
          (h.endpoints k))
        (h.endpoints j))

  step-EndpointOk :
      (c : BreakerCall) (j : BreakerKey)
      → EndpointOk b.failure_threshold b.half_open_probes (ensure_locked (step b c) j)
  unfolding step
  step-EndpointOk (before_call k now) j = before-EndpointOk k j now
  step-EndpointOk (after_call k failure now) j = after-EndpointOk k j failure now

  step-IsConsistent : (c : BreakerCall) → IsConsistent (step b c)
  step-IsConsistent c =
      let same = step-SameConfig b c in
      record {
        threshold_positive = ground (arith, h.threshold_positive);
        probes_positive = ground (arith, h.probes_positive);
        endpoints = λ j. EndpointOk-SameConfig same (step-EndpointOk c j);
      }

run-IsConsistent_from :
    (b : CircuitBreaker) (calls : List BreakerCall) → IsConsistent b → IsConsistent (run b calls)
unfolding run
run-IsConsistent_from b [] h = h
run-IsConsistent_from b (c ∷ cs) h = run-IsConsistent_from (step b c) cs (step-IsConsistent b h c)

-- Whatever the configuration and whatever the calls and clock readings, every endpoint is
-- consistent: a closed one has fewer failures than the threshold, one that is not closed counts
-- none, only a half-open one has probes in flight, and never more than the configured number.
pub run-IsConsistent :
    (cfg : BreakerConfig) (calls : List BreakerCall) → IsConsistent (run (new_breaker cfg) calls)
run-IsConsistent cfg calls =
    run-IsConsistent_from (new_breaker cfg) calls (new_breaker-IsConsistent cfg)
