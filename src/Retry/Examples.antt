-- ===== src/Retry/Examples.antt =====
-- Concrete requests for the theorems on the retry loop.
use go_clockify.Base.{
  ℕ, zero, suc, ◌+◌, ◌-◌, ◌≤◌, ◌<◌, String, ◌≡◌, refl, true, Option, none, some, ℕ_eq, String_eq,
  pos,
}
use go_clockify.Breaker.Steps.{
  CircuitBreaker, new_breaker, before, after, before_endpoint, after_endpoint, ensure_locked,
}
use go_clockify.Base.Assoc.{lookup, insert}
use go_clockify.Retry.Request.{
  RequestError, api_error, Surroundings, Finish, over, attempt_loop, do_request_values,
  is_upstream_failure,
}
use go_clockify.Retry.Attempts.{RetriesAfter}
use go_clockify.Retry.Recorded.{do_request-admitted, do_request-write_once}

-- Twice 503, and then success.
abbrev answers : ℕ → Option RequestError
answers zero = some (api_error 503 (pos 0))
answers (suc zero) = some (api_error 503 (pos 2_000_000_000))
answers (suc (suc n)) = none

abbrev flaky : Surroundings
flaky = record {
  once = answers;
  pause = λ attempt duration. over;
  jitter = λ attempt. 7;
  meanwhile = λ b. b;
  started = 1000;
  ended = 2000;
}

abbrev same_text : String → String
same_text s = s

abbrev breaker : CircuitBreaker
breaker = new_breaker (record {
  enabled = true;
  failure_threshold = pos 1;
  open_duration = pos 100;
  half_open_probes = pos 1;
})

abbrev tripped : CircuitBreaker
tripped = after breaker "/user" "GET" true 950

abbrev send : String → CircuitBreaker → CircuitBreaker × Finish
send method b = do_request_values same_text method flaky b 3 "/user"

admitted : (before breaker "/user" "GET" 1000).1 ≡ none
unfolding before after before_endpoint after_endpoint ensure_locked lookup insert new_breaker
admitted = refl

refused :
    (before tripped "/user" "GET" 1000).1
    ≡ some (record { endpoint = "/user"; method = "GET"; retry_after = 50 })
unfolding before after before_endpoint after_endpoint ensure_locked lookup insert new_breaker
refused = refl

get_attempts : (send "GET" breaker).1 ≡ record { attempts = 3; recorded = none; result = none }
unfolding do_request_values attempt_loop before after before_endpoint after_endpoint ensure_locked
    lookup insert new_breaker
get_attempts = refl

post_attempts : (send "POST" breaker).1.attempts ≡ 1
unfolding do_request_values attempt_loop before after before_endpoint after_endpoint ensure_locked
    lookup insert new_breaker
post_attempts = refl

do_request-admitted_example :
    let (b, f) = send "GET" breaker in
    (1 ≤ f.attempts)
    × (f.attempts ≤ 3 + 1)
    × ((i : ℕ) → i + 1 < f.attempts → RetriesAfter same_text "GET" flaky i)
    × (b
        ≡ after
            (before breaker "/user" "GET" 1000).0
            "/user"
            "GET"
            (is_upstream_failure (answers (f.attempts - 1)))
            2000)
    × (f.result ≡ none → answers (f.attempts - 1) ≡ none)
do_request-admitted_example = do_request-admitted same_text "GET" flaky breaker 3 "/user" admitted

do_request-write_once_example : (send "DELETE" breaker).1.attempts ≤ 1
do_request-write_once_example =
    do_request-write_once same_text "DELETE" flaky breaker 3 "/user" refl
