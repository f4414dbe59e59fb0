-- ===== src/Retry/Request.antt =====
-- `doRequestValues` and the predicates on errors that it uses, internal/clockify/client.go. What one
-- attempt does (`doOnceValues`), the clock, the caller's context and the random jitter are answers of
-- the surroundings.
use go_clockify.Base.{
  ℕ, zero, suc, ◌+◌, ◌-◌, ◌*◌, ◌^◌, String, Bool, true, false, ◌&&◌, ◌||◌, Option, none, some, leb,
  ◌==◌, ℕ_eq, String_eq, ℤ, pos, positive_or,
}
use go_clockify.Breaker.Steps.{CircuitBreaker, BreakerOpenError, before, after}

-- What `errors.Is` and `errors.As` tell of an error, in the order of the code's questions: the
-- caller's own `context.Canceled` or `context.DeadlineExceeded`, the open breaker, an `APIError` with
-- its status and `RetryAfter` in nanoseconds, a `net.Error`, or none of these.
pub data RequestError : Type 0 where
  caller_done : RequestError
  breaker_open : BreakerOpenError → RequestError
  api_error : (status_code : ℕ) (retry_after : ℤ) → RequestError
  net_error : RequestError
  other_error : RequestError

abbrev pub is_retryable_status : ℕ → Bool
is_retryable_status code = (code == 429) || (code == 502) || (code == 503) || (code == 504)

-- `to_upper` is `strings.ToUpper`.
abbrev pub is_idempotent_method : (to_upper : String → String) → String → Bool
is_idempotent_method to_upper method =
    let m = to_upper method in (m == "GET") || (m == "HEAD") || (m == "OPTIONS") || (m == "PUT")

abbrev pub may_retry : RequestError → Bool
may_retry caller_done = false
may_retry (breaker_open e) = false
may_retry (api_error code retry_after) = is_retryable_status code
may_retry net_error = true
may_retry other_error = false

abbrev pub is_retryable_error : (to_upper : String → String) → String → RequestError → Bool
is_retryable_error to_upper method e = is_idempotent_method to_upper method && may_retry e

abbrev pub is_upstream_failure : Option RequestError → Bool
is_upstream_failure (some (api_error code retry_after)) = leb 500 code && leb code 599
is_upstream_failure (some net_error) = true
is_upstream_failure _ = false

abbrev millisecond : ℕ
millisecond = 1_000_000

-- 250 ms, doubled for every further attempt, and a jitter below 125 ms.
abbrev pub backoff : ℕ → ℕ → ℕ
backoff jitter attempt = (250 * 2 ^ (attempt - 1) + jitter) * millisecond

-- How the pause before an attempt ends: the deadline is nearer than its end, and it is not begun; the
-- context ends in it; or it is over.
pub data Pause : Type 0 where
  too_late interrupted over : Pause

pub record Surroundings : Type 0 where
  pub once : ℕ → Option RequestError
  pub pause : (attempt duration : ℕ) → Pause
  pub jitter : ℕ → ℕ
  -- What other requests do to the breaker while this one is under way.
  pub meanwhile : CircuitBreaker → CircuitBreaker
  pub started : ℕ
  pub ended : ℕ

-- What becomes of a request: how many attempts were made, the error for the breaker and that for
-- the caller. No error is success.
pub record Finish : Type 0 where
  pub attempts : ℕ
  pub recorded : Option RequestError
  pub result : Option RequestError

-- The explicit `RetryAfter` of an API error, 0 for others.
abbrev pub retry_after_of : RequestError → ℤ
retry_after_of (api_error code retry_after) = retry_after
retry_after_of _ = pos 0

abbrev pub wait_of : Surroundings → ℕ → RequestError → ℕ
wait_of env attempt last = positive_or (backoff (env.jitter attempt) attempt) (retry_after_of last)

module _ (to_upper : String → String) (method : String) (env : Surroundings) where
  abbrev finish : ℕ → Option RequestError → Option RequestError → Finish
  finish attempts recorded result = record {
    attempts = attempts;
    recorded = recorded;
    result = result;
  }

  abbrev pause_before : ℕ → Option RequestError → Pause
  pause_before zero last = over
  pause_before (suc n) none = env.pause (suc n) (backoff (env.jitter (suc n)) (suc n))
  pause_before (suc n) (some e) = env.pause (suc n) (wait_of env (suc n) e)

  -- After the last round: the last error, which there is after at least one round.
  abbrev out_of_rounds : Option RequestError → Option RequestError
  out_of_rounds none = some other_error
  out_of_rounds (some e) = some e

  -- The `for` loop with the rounds that it has left; `attempt` attempts are made so far.
  unfoldable pub attempt_loop : ℕ → ℕ → Option RequestError → Finish
  attempt_loop zero attempt last = finish attempt (out_of_rounds last) (out_of_rounds last)
  attempt_loop (suc left) attempt last = elim (pause_before attempt last) [
    | too_late ↦ finish attempt last last
    | interrupted ↦ finish attempt last (some caller_done)
    | over ↦ elim (env.once attempt) [
      | none ↦ finish (attempt + 1) none none
      | some e ↦ elim (is_retryable_error to_upper method e) [
        | false ↦ finish (attempt + 1) (some e) (some e)
        | true ↦ attempt_loop left (attempt + 1) (some e)
      ]
    ]
  ]

  abbrev record_result : CircuitBreaker → String → Finish → CircuitBreaker
  record_result b endpoint f =
      after (env.meanwhile b) endpoint method (is_upstream_failure f.recorded) env.ended

  -- `endpoint` is the normalised path.
  unfoldable pub do_request_values : CircuitBreaker → ℕ → String → CircuitBreaker × Finish
  do_request_values b max_retries endpoint =
      let (b', refused) = before b endpoint method env.started in
      elim refused [
        | some e ↦ (b', finish 0 none (some (breaker_open e)))
        | none ↦ let f = attempt_loop (suc max_retries) 0 none in (record_result b' endpoint f, f)
      ]
