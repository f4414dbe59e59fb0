-- ===== src/RateLimit/Bucket.antt =====
-- A token bucket, internal/mcp/rate_limit.go, with the float64 numbers that the code keeps. `time.Now`
-- is monotonic, and its reading in nanoseconds is an argument.
use go_clockify.Base.{
  ℕ, zero, suc, ◌-◌, ◌/◌, ◌%◌, Bool, true, false, Option, none, some, List, [], ◌∷◌, ltb,
  if◌then◌else◌, ◌==◌, ℕ_eq, String_eq, ℤ, pos, negsuc,
}
use Prim.Native.Nat.{max}
use go_clockify.Base.Float.{Float, one, of_nat, add, sub, mul, div, ceil}

abbrev pub nanoseconds_per_second : ℕ
nanoseconds_per_second = 1_000_000_000

pub record TokenBucket : Type 0 where
  pub capacity : Float
  pub tokens : Float
  pub refill_rate : Float
  pub last : ℕ

-- A nil bucket, `none`, where the number is zero or negative.
unfoldable pub new_token_bucket : ℤ → ℕ → Option TokenBucket
new_token_bucket (pos zero) now = none
new_token_bucket (pos (suc n)) now = some (record {
  capacity = of_nat (suc n);
  tokens = of_nat (suc n);
  refill_rate = div (of_nat (suc n)) (of_nat 60);
  last = now;
})
new_token_bucket (negsuc n) now = none

-- Duration.Seconds, of nanoseconds.
abbrev pub seconds_of : ℕ → Float
seconds_of d =
    add (of_nat (d / nanoseconds_per_second))
      (div (of_nat (d % nanoseconds_per_second)) (of_nat nanoseconds_per_second))

unfoldable pub refill : TokenBucket → ℕ → TokenBucket
refill b now =
    let tokens = add b.tokens (mul (seconds_of (now - b.last)) b.refill_rate) in
    record b { tokens = if ltb b.capacity tokens then b.capacity else tokens; last = now }

-- max(ceil((1 - tokens) / refillRate), 1), in seconds.
unfoldable pub wait_seconds : TokenBucket → ℕ
wait_seconds b = max (ceil (div (sub one b.tokens) b.refill_rate)) 1

abbrev pub take_token : TokenBucket → TokenBucket × Bool × ℕ
take_token b =
    if ltb b.tokens one
    then (b, false, if b.refill_rate == 0 then 60 else wait_seconds b)
    else (record b { tokens = sub b.tokens one }, true, 0)

unfoldable pub allow_with_retry : TokenBucket → ℕ → TokenBucket × Bool × ℕ
allow_with_retry b now = take_token (refill b now)

-- The calls at the listed times, in their order: the bucket that they leave, and how many passed.
unfoldable pub allow_all : TokenBucket → List ℕ → TokenBucket × ℕ
allow_all b [] = (b, 0)
allow_all b (now ∷ times) =
    let (b', allowed, wait) = allow_with_retry b now in
    let (b'', n) = allow_all b' times in (b'', if allowed then suc n else n)
