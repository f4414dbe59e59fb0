-- ===== src/RateLimit/Burst.antt =====
-- What a token bucket lets through at one instant, internal/mcp/rate_limit.go.
use go_clockify.Base.{
  ℕ, zero, suc, ◌-◌, ◌*◌, ◌≤◌, ◌<◌, ◌≡◌, refl, ap, ◌∙◌, true, false, some, List, [], ◌∷◌, arith,
  leb, if◌then◌else◌, ℕ_eq, String_eq, pos,
}
use go_clockify.Base.Float.{Float, one, of_nat, add, sub, mul, div, rounded}
use go_clockify.Base.Float.Rounding.{rounded-zero, of_nat-exact, add-zero, sub-one, one_pos}
use go_clockify.RateLimit.Bucket.{
  take_token, TokenBucket, new_token_bucket, seconds_of, nanoseconds_per_second, refill,
  allow_with_retry, allow_all,
}

-- So many calls at one time.
abbrev pub repeat : ℕ → ℕ → List ℕ
repeat zero now = []
repeat (suc calls) now = now ∷ repeat calls now

no_tokens : of_nat 0 ≡ 0
no_tokens = of_nat-exact 0 (omega arith) ∙ omega arith

a_second_pos : 0 < of_nat nanoseconds_per_second
a_second_pos = omega (arith, of_nat-exact nanoseconds_per_second (omega arith), one_pos)

div-zero : (x : Float) → 0 < x → div 0 x ≡ 0
div-zero x h =
    let nothing : 0 * one ≡ 0 = omega arith in ap (λ n. rounded n x) nothing ∙ rounded-zero x h

no_seconds : seconds_of 0 ≡ 0
no_seconds =
    ap (λ z. add z (div z (of_nat nanoseconds_per_second))) no_tokens
    ∙ ap (λ z. add 0 z) (div-zero (of_nat nanoseconds_per_second) a_second_pos)
    ∙ rounded-zero 1 (omega arith)

no_refill : (rate : Float) → mul (seconds_of 0) rate ≡ 0
no_refill rate =
    let nothing : 0 * rate ≡ 0 = omega arith in
    ap (λ s. mul s rate) no_seconds ∙ ap (λ n. rounded n one) nothing ∙ rounded-zero one one_pos

-- The bucket holds k whole tokens at the time.
pub record Holds (k now : ℕ) (b : TokenBucket) : Type 0 where
  pub whole : b.tokens ≡ k * one
  pub below : k < 9_007_199_254_740_992
  pub fits : k * one ≤ b.capacity
  pub clock : b.last ≡ now

refill-now : (k now : ℕ) (b : TokenBucket) → Holds k now b → (refill b now).tokens ≡ k * one
unfolding refill
refill-now k now b h =
    let still : now - b.last ≡ 0 = omega (arith, h.clock) in
    let gone : mul (seconds_of (now - b.last)) b.refill_rate ≡ 0 =
      ap (λ d. mul (seconds_of d) b.refill_rate) still ∙ no_refill b.refill_rate in
    let sum : add b.tokens (mul (seconds_of (now - b.last)) b.refill_rate) ≡ k * one =
      ap (λ z. add b.tokens z) gone ∙ ap (λ z. add z 0) h.whole ∙ add-zero k h.below in
    ground (arith, sum, h.fits)

take_lacking :
    (c : TokenBucket) → c.tokens < one → ((take_token c).1 ≡ false) × ((take_token c).0 ≡ c)
take_lacking c h = ground (arith, h)

take_taking :
    (c : TokenBucket)
    → one ≤ c.tokens
    → ((take_token c).1 ≡ true) × ((take_token c).0 ≡ record c { tokens = sub c.tokens one })
take_taking c h = ground (arith, h)

-- Where a token lacks, the call is refused and the bucket is the refilled one; else a token is taken.
lacking :
    (now : ℕ) (b : TokenBucket)
    → (refill b now).tokens < one
    → ((allow_with_retry b now).1 ≡ false) × ((allow_with_retry b now).0 ≡ refill b now)
unfolding allow_with_retry
lacking now b h = take_lacking (refill b now) h

taking :
    (now : ℕ) (b : TokenBucket)
    → one ≤ (refill b now).tokens
    → ((allow_with_retry b now).1 ≡ true)
      × ((allow_with_retry b now).0
          ≡ record (refill b now) { tokens = sub (refill b now).tokens one })
unfolding allow_with_retry
taking now b h = take_taking (refill b now) h

empty_call :
    (now : ℕ) (b : TokenBucket)
    → Holds 0 now b
    → ((allow_with_retry b now).1 ≡ false) × Holds 0 now (allow_with_retry b now).0
empty_call now b h =
    let left = refill-now 0 now b h in
    let (refused, same) = lacking now b (omega (arith, left, one_pos)) in
    (
      refused,
      rw same (record {
        whole = left;
        below = h.below;
        fits = unfold refill in h.fits;
        clock = unfold refill in refl;
      }),
    )

full_call :
    (k now : ℕ) (b : TokenBucket)
    → Holds (suc k) now b
    → ((allow_with_retry b now).1 ≡ true) × Holds k now (allow_with_retry b now).0
full_call k now b h =
    let left = refill-now (suc k) now b h in
    let (passed, same) = taking now b (omega (arith, left)) in
    let fits : k * one ≤ b.capacity = omega (arith, h.fits) in
    (
      passed,
      rw same (record {
        whole = ap (λ t. sub t one) left ∙ sub-one k (omega (arith, h.below));
        below = omega (arith, h.below);
        fits = unfold refill in fits;
        clock = unfold refill in refl;
      }),
    )

burst_from :
    (calls k now : ℕ) (b : TokenBucket)
    → Holds k now b
    → (allow_all b (repeat calls now)).1 ≡ (if leb calls k then calls else k)
unfolding allow_all
burst_from zero k now b h = ground arith
burst_from (suc calls) zero now b h =
    let (refused, left) = empty_call now b h in
    ground (arith, refused, burst_from calls zero now (allow_with_retry b now).0 left)
burst_from (suc calls) (suc k) now b h =
    let (passed, left) = full_call k now b h in
    ground (arith, passed, burst_from calls k now (allow_with_retry b now).0 left)

-- Of any number of calls at the instant at which a bucket for n calls a minute is made, the first n
-- pass and every other is refused, where n is below 2 ^ 53.
pub allow_all-burst :
    (n calls start : ℕ) (b : TokenBucket)
    → n < 9_007_199_254_740_992
    → new_token_bucket (pos n) start ≡ some b
    → (allow_all b (repeat calls start)).1 ≡ (if leb calls n then calls else n)
unfolding new_token_bucket
allow_all-burst zero calls start b h e = cc
allow_all-burst (suc n) calls start b h e =
    let made : record {
      capacity = of_nat (suc n);
      tokens = of_nat (suc n);
      refill_rate = div (of_nat (suc n)) (of_nat 60);
      last = start;
    }
        ≡ b =
      cc in
    rw (← made) (
      burst_from calls (suc n) start _ (record {
        whole = of_nat-exact (suc n) h;
        below = h;
        fits = omega (arith, of_nat-exact (suc n) h);
        clock = refl;
      }))
