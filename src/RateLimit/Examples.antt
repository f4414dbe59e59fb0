-- ===== src/RateLimit/Examples.antt =====
-- The theorems on the limits at concrete inputs, and runs of the code.
use go_clockify.Base.{ℕ, ◌≤◌, ◌≡◌, refl, true, false, List, [], ◌∷◌, arith, ℕ_eq, String_eq}
use go_clockify.Base.Float.{of_nat, div, one, rounded, round_from, half_even}
use go_clockify.Risk.{has, risk_billing}
use go_clockify.RateLimit.Bucket.{
  TokenBucket, new_token_bucket, allow_with_retry, allow_all, refill, wait_seconds,
}
use go_clockify.RateLimit.Burst.{repeat, allow_all-burst}
use go_clockify.RateLimit.Family.{
  write_sem, high_sem, family_of, new_family_limiter, acquire, Calls, count_of, Reach, start, next,
  begin, Reach-capped,
}

abbrev six_a_minute : TokenBucket
six_a_minute = record {
  capacity = of_nat 6;
  tokens = of_nat 6;
  refill_rate = div (of_nat 6) (of_nat 60);
  last = 0;
}

allow_all-burst_example : (allow_all six_a_minute (repeat 8 0)).1 ≡ 6
unfolding new_token_bucket
allow_all-burst_example = allow_all-burst 6 8 0 six_a_minute (omega arith) refl

abbrev seven_calls : List ℕ
seven_calls = 0 ∷ 0 ∷ 0 ∷ 8_000_000_000 ∷ 8_000_000_000 ∷ 8_000_000_000 ∷ 11_000_000_000 ∷ []

abbrev after_seven : TokenBucket
after_seven = (allow_all six_a_minute seven_calls).0

-- The eighth call, at the same time as the seventh, is told to wait nine seconds.
nine_seconds : (allow_with_retry after_seven 11_000_000_000).2 ≡ 9
unfolding allow_all allow_with_retry refill wait_seconds one rounded round_from half_even
nine_seconds = refl

-- Nine seconds later the rounded tokens are still fewer than one.
refused_again :
    (allow_with_retry (allow_with_retry after_seven 11_000_000_000).0 20_000_000_000).1 ≡ false
unfolding allow_all allow_with_retry refill wait_seconds one rounded round_from half_even
refused_again = refl

abbrev one_billing : Calls
one_billing = record { limiter = record { write = 0; high = 1 }; running = risk_billing ∷ [] }

Reach-one_billing : Reach one_billing
unfolding acquire family_of has
Reach-one_billing = next start (
    begin (record { limiter = new_family_limiter; running = [] }) risk_billing false true
      (record { write = 0; high = 1 }) refl)

Reach-capped_example :
    (count_of write_sem (risk_billing ∷ []) ≤ 2) × (count_of high_sem (risk_billing ∷ []) ≤ 1)
Reach-capped_example = Reach-capped one_billing Reach-one_billing
