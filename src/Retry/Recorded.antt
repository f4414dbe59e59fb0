-- ===== src/Retry/Recorded.antt =====
-- A whole request: attempts, its answer and what the circuit breaker is told.
use go_clockify.Base.{
  ℕ, zero, suc, ◌+◌, ◌-◌, ◌≤◌, ◌<◌, String, ◌≡◌, sym, ap, ◌∙◌, inl, inr, false, Option, none, some,
  arith, ltb, ℕ_eq, String_eq, Bool-cases, Option-cases,
}
use go_clockify.Breaker.Steps.{CircuitBreaker, BreakerOpenError, before, after}
use go_clockify.Retry.Request.{
  RequestError, Surroundings, Finish, is_idempotent_method, attempt_loop, do_request_values,
  is_upstream_failure, breaker_open,
}
use go_clockify.Retry.Attempts.{RetriesAfter, attempt_loop-all}

module _ (to_upper : String → String) (method : String) (env : Surroundings) where
  abbrev Succeeds : Finish → Type 0
  Succeeds f = f.result ≡ none → f.recorded ≡ none

  success_now :
      (left attempt : ℕ) (last : Option RequestError)
      → env.once attempt ≡ none
      → Succeeds (attempt_loop to_upper method env (suc left) attempt last)
  unfolding attempt_loop
  success_now left zero last q h = ground arith
  success_now left (suc n) none q h = ground arith
  success_now left (suc n) (some e) q h = ground arith

  success_later :
      (left attempt : ℕ) (last : Option RequestError) (e : RequestError)
      → env.once attempt ≡ some e
      → Succeeds (attempt_loop to_upper method env left (attempt + 1) (some e))
      → Succeeds (attempt_loop to_upper method env (suc left) attempt last)
  unfolding attempt_loop
  success_later left zero last e q later h = ground arith
  success_later left (suc n) none e q later h = ground arith
  success_later left (suc n) (some e') e q later h = ground arith

  attempt_loop-success :
      (left attempt : ℕ) (last : Option RequestError)
      → (attempt_loop to_upper method env left attempt last).result ≡ none
      → (attempt_loop to_upper method env left attempt last).recorded ≡ none
  unfolding attempt_loop
  attempt_loop-success zero attempt none h = ground arith
  attempt_loop-success zero attempt (some e) h = ground arith
  attempt_loop-success (suc left) attempt last h = elim (Option-cases (env.once attempt)) [
    | inl q ↦ success_now left attempt last q h
    | inr (e, q) ↦
        success_later left attempt last e q (attempt_loop-success left (attempt + 1) (some e)) h
  ]

  -- No attempt is made of a method that is not idempotent, but the first.
  no_second :
      (f : Finish)
      → is_idempotent_method to_upper method ≡ false
      → ((i : ℕ) → 0 ≤ i → i + 1 < f.attempts → RetriesAfter to_upper method env i)
      → f.attempts ≤ 1
  no_second f unsafe why = elim (Bool-cases (ltb 1 f.attempts)) [
    | inr small ↦ ground arith
    | inl big ↦ let (e, _, r) = why 0 (omega arith) (ground arith) in absurd (ground arith)
  ]

  module _ (b : CircuitBreaker) (max_retries : ℕ) (endpoint : String) where
    abbrev admission : Option BreakerOpenError
    admission = (before b endpoint method env.started).1

    abbrev outcome : CircuitBreaker × Finish
    outcome = do_request_values to_upper method env b max_retries endpoint

    admitted_run :
        admission ≡ none
        → (outcome.1 ≡ attempt_loop to_upper method env (suc max_retries) 0 none)
          × (outcome.0
              ≡ after
                  (env.meanwhile (before b endpoint method env.started).0)
                  endpoint
                  method
                  (is_upstream_failure outcome.1.recorded)
                  env.ended)
    unfolding do_request_values
    admitted_run a = ground arith

    -- A request that the breaker lets through is tried at least once and at most `max_retries + 1`
    -- times, and after each attempt but the last it had failed in a way that may be retried; the
    -- breaker is told once, of the last attempt's error; and the caller has a success only if the last
    -- attempt was one.
    pub do_request-admitted :
        admission ≡ none
        → (1 ≤ outcome.1.attempts)
          × (outcome.1.attempts ≤ max_retries + 1)
          × ((i : ℕ) → i + 1 < outcome.1.attempts → RetriesAfter to_upper method env i)
          × (outcome.0
              ≡ after
                  (env.meanwhile (before b endpoint method env.started).0)
                  endpoint
                  method
                  (is_upstream_failure (env.once (outcome.1.attempts - 1)))
                  env.ended)
          × (outcome.1.result ≡ none → env.once (outcome.1.attempts - 1) ≡ none)
    do_request-admitted a =
        let run = admitted_run a in
        let f = attempt_loop to_upper method env (suc max_retries) 0 none in
        let (some_made, bound, r, why) = attempt_loop-all to_upper method env max_retries in
        rw run.0 (
          some_made,
          omega arith,
          λ i. why i (omega arith),
          run.1
              ∙ ap
                  (λ g.
                    after (env.meanwhile (before b endpoint method env.started).0) endpoint method
                      (is_upstream_failure g) env.ended)
                  (ap (λ (h : Finish). h.recorded) run.0 ∙ r),
          λ good. sym r ∙ attempt_loop-success (suc max_retries) 0 none good,
        )

    -- A request that the breaker refuses is not sent, the caller has the breaker's error, and the
    -- breaker is not told of any result.
    pub do_request-refused :
        (e : BreakerOpenError)
        → admission ≡ some e
        → (outcome.1.attempts ≡ 0)
          × (outcome.1.result ≡ some (breaker_open e))
          × (outcome.0 ≡ (before b endpoint method env.started).0)
    unfolding do_request_values
    do_request-refused e a = ground arith

    -- A write (any method but GET, HEAD, OPTIONS and PUT) is sent at most once, whatever fails.
    pub do_request-write_once :
        is_idempotent_method to_upper method ≡ false → outcome.1.attempts ≤ 1
    do_request-write_once unsafe = elim (Option-cases admission) [
      | inl a ↦ no_second outcome.1 unsafe (λ i _. (do_request-admitted a).2 i)
      | inr (e, q) ↦ omega (arith, (do_request-refused e q).0)
    ]
