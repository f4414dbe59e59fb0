-- ===== src/Breaker/Opening.antt =====
-- When an endpoint opens, refuses and probes, internal/clockify/circuit_breaker.go.
use go_clockify.Base.{
  ℕ, ◌+◌, ◌≤◌, ◌<◌, ◌≡◌, ap, ◌∙◌, ◌↔◌, ◌⊎◌, true, Option, none, some, List, [], ◌∷◌, ◌++◌, arith,
  ℕ_eq, String_eq, length,
}
use go_clockify.Breaker.Invariant.{
  EndpointOk, IsConsistent, ensure_locked-before, step-SameConfig, SameConfig,
}
use go_clockify.Breaker.Isolation.{before_endpoint-SameConfig}
use go_clockify.Base.Assoc.{beq_self}
use go_clockify.Breaker.Steps.{
  step, before_call, closed, open_, half_open, BreakerKey, BreakerKey_eq, Endpoint, CircuitBreaker,
  BreakerOpenError, open_error, before_endpoint, after_endpoint, ensure_locked, before,
}

-- Consecutive failures that finish at the listed times, with no call in between.
pub fail_at : CircuitBreaker → Endpoint → List ℕ → Endpoint
fail_at b st [] = st
fail_at b st (now ∷ times) = fail_at b (after_endpoint b st true now) times

failure_closed :
    (b : CircuitBreaker) (st : Endpoint) (now : ℕ)
    → st.state ≡ closed
    → st.failures + 1 < b.failure_threshold
    → ((after_endpoint b st true now).state ≡ closed)
      × ((after_endpoint b st true now).failures ≡ st.failures + 1)
unfolding after_endpoint
failure_closed b st now c h = ground arith

failure_opens :
    (b : CircuitBreaker) (st : Endpoint) (now : ℕ)
    → st.state ≡ closed
    → st.failures + 1 ≡ b.failure_threshold
    → ((after_endpoint b st true now).state ≡ open_)
      × ((after_endpoint b st true now).opened_at ≡ now)
unfolding after_endpoint
failure_opens b st now c h = ground arith

-- A closed endpoint stays closed, and counts every failure, while consecutive failures are fewer
-- than what is left to the threshold; the failure that reaches the threshold opens it at its time.
fail_at-opens :
    (b : CircuitBreaker) (st : Endpoint) (times : List ℕ) (last : ℕ)
    → st.state ≡ closed
    → st.failures + length times + 1 ≡ b.failure_threshold
    → ((fail_at b st times).state ≡ closed)
      × ((fail_at b st times).failures ≡ st.failures + length times)
      × ((fail_at b st (times ++ last ∷ [])).state ≡ open_)
      × ((fail_at b st (times ++ last ∷ [])).opened_at ≡ last)
unfolding fail_at
fail_at-opens b st [] last c h = ground (arith, failure_opens b st last c)
fail_at-opens b st (now ∷ times) last c h =
    ground
      (arith, failure_closed b st now c, fail_at-opens b (after_endpoint b st true now) times last)

-- Whether the code lets a request through, read off the endpoint's state and the clock.
abbrev pub Allows : CircuitBreaker → Endpoint → ℕ → Type 0
Allows b st now =
    (st.state ≡ closed)
    ⊎ ((st.state ≡ open_) × (st.opened_at + b.open_duration ≤ now))
    ⊎ ((st.state ≡ half_open) × (st.half_open_in_flight < b.half_open_probes))

before_endpoint-Allows :
    (b : CircuitBreaker) (st : Endpoint) (now : ℕ)
    → EndpointOk b.failure_threshold b.half_open_probes st
    → 0 < b.half_open_probes
    → ((before_endpoint b st now).1 ≡ none) ↔ Allows b st now
unfolding before_endpoint
before_endpoint-Allows b st now h p = ground arith

before-before_endpoint :
    (b : CircuitBreaker) (k : BreakerKey) (now : ℕ)
    → b.enabled ≡ true
    → (before b k.endpoint k.method now).1
      ≡ open_error k (before_endpoint b (ensure_locked b k) now).1
unfolding before
before-before_endpoint b k now on = rw on

open_error-none : (k : BreakerKey) (r : Option ℕ) → (open_error k r ≡ none) ↔ (r ≡ none)
open_error-none k r = ground arith

-- In a consistent, enabled breaker `Before` lets a request through exactly when its endpoint is
-- closed, or open since at least the open duration, or half-open with fewer probes in flight than
-- allowed.
pub before-Allows :
    (b : CircuitBreaker) (k : BreakerKey) (now : ℕ)
    → b.enabled ≡ true
    → IsConsistent b
    → ((before b k.endpoint k.method now).1 ≡ none) ↔ Allows b (ensure_locked b k) now
before-Allows b k now on h =
    let r = (before_endpoint b (ensure_locked b k) now).1 in
    let inner =
      before_endpoint-Allows b (ensure_locked b k) now (h.endpoints k) h.probes_positive in
    rw (before-before_endpoint b k now on)
      (λ e. inner.0 ((open_error-none k r).0 e), λ e. (open_error-none k r).1 (inner.1 e))

refused_open :
    (b : CircuitBreaker) (st : Endpoint) (now wait later : ℕ)
    → EndpointOk b.failure_threshold b.half_open_probes st
    → 0 < b.half_open_probes
    → st.state ≡ open_
    → (before_endpoint b st now).1 ≡ some wait
    → ((before_endpoint b st now).0 ≡ st)
      × ((before_endpoint b st later).1 ≡ none ↔ now + wait ≤ later)
unfolding before_endpoint
refused_open b st now wait later ok p o h = ground arith

open_error-some :
    (k : BreakerKey) (r : Option ℕ) (e : BreakerOpenError)
    → open_error k r ≡ some e
    → r ≡ some e.retry_after
open_error-some k r e h = ground arith

-- After a call that left the endpoint as it was, the next one finds the same endpoint.
before_again :
    (b : CircuitBreaker) (k : BreakerKey) (now later : ℕ)
    → b.enabled ≡ true
    → (before_endpoint b (ensure_locked b k) now).0 ≡ ensure_locked b k
    → (before (before b k.endpoint k.method now).0 k.endpoint k.method later).1
      ≡ open_error k (before_endpoint b (ensure_locked b k) later).1
before_again b k now later on same =
    let b' = (before b k.endpoint k.method now).0 in
    let config : SameConfig b' b = unfold step in step-SameConfig b (before_call k now) in
    let found : ensure_locked b' k ≡ ensure_locked b k =
      ensure_locked-before b k k now ∙ (simp (on, beq_self k) same) in
    before-before_endpoint b' k later (config.enabled ∙ on)
    ∙ ap (λ st. open_error k (before_endpoint b' st later).1) found
    ∙ ap (λ r. open_error k r.1) (before_endpoint-SameConfig b' b (ensure_locked b k) later config)

-- If `Before` refuses a request for an open endpoint, then the same request is let through later
-- exactly from the moment on that the error's `RetryAfter` names, provided no other call about the
-- endpoint came between.
pub before-retry_after :
    (b : CircuitBreaker) (k : BreakerKey) (now later : ℕ) (e : BreakerOpenError)
    → b.enabled ≡ true
    → IsConsistent b
    → (ensure_locked b k).state ≡ open_
    → (before b k.endpoint k.method now).1 ≡ some e
    → (before (before b k.endpoint k.method now).0 k.endpoint k.method later).1 ≡ none
      ↔ now + e.retry_after ≤ later
before-retry_after b k now later e on h o r =
    let st = ensure_locked b k in
    let refused = open_error-some k _ e (rw (before-before_endpoint b k now on) at r) in
    let (same, answer) =
      refused_open b st now e.retry_after later (h.endpoints k) h.probes_positive o refused in
    rw (before_again b k now later on same)
      (λ g. answer.0 ((open_error-none k _).0 g), λ g. (open_error-none k _).1 (answer.1 g))
