-- ===== src/Breaker/Isolation.antt =====
-- Endpoints do not influence one another, internal/clockify/circuit_breaker.go.
use go_clockify.Base.{
  ℕ, ◌≡◌, refl, ◌∙◌, inl, inr, Bool, true, false, List, [], ◌∷◌, arith, if◌then◌else◌, ◌==◌,
  beq_iff, ℕ_eq, String_eq, Bool-cases,
}
use go_clockify.Breaker.Steps.{
  BreakerKey, BreakerKey_eq, CircuitBreaker, BreakerCall, before_call, after_call, ensure_locked,
  before_endpoint, after_endpoint, step, run, Endpoint,
}
use go_clockify.Breaker.Invariant.{
  ensure_locked-before, ensure_locked-after, SameConfig, step-SameConfig,
}

abbrev pub key_of : BreakerCall → BreakerKey
key_of (before_call k now) = k
key_of (after_call k failure now) = k

-- The calls of a sequence that are about one key, in their order.
pub calls_of : BreakerKey → List BreakerCall → List BreakerCall
calls_of k [] = []
calls_of k (c ∷ cs) = let rest = calls_of k cs in if key_of c == k then c ∷ rest else rest

-- Two breakers that agree on their configuration and on the endpoint of one key.
record SameAt (k : BreakerKey) (b c : CircuitBreaker) : Type 0 where
  config : SameConfig b c
  endpoint : ensure_locked b k ≡ ensure_locked c k

pub before_endpoint-SameConfig :
    (b c : CircuitBreaker) (st : Endpoint) (now : ℕ)
    → SameConfig b c
    → before_endpoint b st now ≡ before_endpoint c st now
unfolding before_endpoint
before_endpoint-SameConfig b c st now h = ground arith

pub after_endpoint-SameConfig :
    (b c : CircuitBreaker) (st : Endpoint) (failure : Bool) (now : ℕ)
    → SameConfig b c
    → after_endpoint b st failure now ≡ after_endpoint c st failure now
unfolding after_endpoint
after_endpoint-SameConfig b c st failure now h = ground arith

-- A call about another key leaves the endpoint of this key.
ensure_locked-step_other :
    (b : CircuitBreaker) (c : BreakerCall) (k : BreakerKey)
    → (key_of c == k) ≡ false
    → ensure_locked (step b c) k ≡ ensure_locked b k
unfolding step
ensure_locked-step_other b (before_call j now) k h =
    rw (ensure_locked-before b j k now) (ground arith)
ensure_locked-step_other b (after_call j failure now) k h =
    rw (ensure_locked-after b j k failure now) (ground arith)

-- A call about this key has the same effect on it in both breakers.
ensure_locked-step_same :
    (b c : CircuitBreaker) (call : BreakerCall) (k : BreakerKey)
    → (key_of call == k) ≡ true
    → SameAt k b c
    → ensure_locked (step b call) k ≡ ensure_locked (step c call) k
unfolding step
ensure_locked-step_same b c (before_call j now) k h same =
    rw (ensure_locked-before b j k now, ensure_locked-before c j k now)
      (ground (
        arith,
        (beq_iff j k).0 h,
        before_endpoint-SameConfig b c (ensure_locked c k) now same.config,
      ))
ensure_locked-step_same b c (after_call j failure now) k h same =
    rw (ensure_locked-after b j k failure now, ensure_locked-after c j k failure now)
      (ground (
        arith,
        (beq_iff j k).0 h,
        after_endpoint-SameConfig b c (ensure_locked c k) failure now same.config,
      ))

SameConfig-step :
    (b c : CircuitBreaker) (x y : BreakerCall) → SameConfig b c → SameConfig (step b x) (step c y)
SameConfig-step b c x y h = ground (arith, step-SameConfig b x, step-SameConfig c y)

SameConfig-step_left :
    (b c : CircuitBreaker) (x : BreakerCall) → SameConfig b c → SameConfig (step b x) c
SameConfig-step_left b c x h = ground (arith, step-SameConfig b x)

run-SameAt :
    (b c : CircuitBreaker) (k : BreakerKey) (calls : List BreakerCall)
    → SameAt k b c
    → ensure_locked (run b calls) k ≡ ensure_locked (run c (calls_of k calls)) k
unfolding run calls_of
run-SameAt b c k [] h = h.endpoint
run-SameAt b c k (x ∷ xs) h = elim (Bool-cases (key_of x == k)) [
  | inl mine ↦ rw mine (
      run-SameAt (step b x) (step c x) k xs (record {
        config = SameConfig-step b c x x h.config;
        endpoint = ensure_locked-step_same b c x k mine h;
      }))
  | inr other ↦ rw other (
      run-SameAt (step b x) c k xs (record {
        config = SameConfig-step_left b c x h.config;
        endpoint = ensure_locked-step_other b x k other ∙ h.endpoint;
      }))
]

-- The state of an endpoint after any calls is the state after those of its own key: no call about
-- another endpoint or method moves it.
pub run-calls_of :
    (b : CircuitBreaker) (k : BreakerKey) (calls : List BreakerCall)
    → ensure_locked (run b calls) k ≡ ensure_locked (run b (calls_of k calls)) k
run-calls_of b k calls = run-SameAt b b k calls (record {
  config = record {
    enabled = refl;
    failure_threshold = refl;
    open_duration = refl;
    half_open_probes = refl;
  };
  endpoint = refl;
})
