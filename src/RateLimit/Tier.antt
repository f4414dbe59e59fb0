-- ===== src/RateLimit/Tier.antt =====
-- The buckets of the four risk tiers, internal/mcp/rate_limit.go.
use go_clockify.Base.{
  ℕ, ◌≡◌, refl, ap, ◌∙◌, Bool, true, not, ◌&&◌, ◌||◌, Option, none, some, arith, ltb, if◌then◌else◌,
  ℕ_eq, String_eq, ℤ, positive_or,
}
use go_clockify.Risk.{
  RiskClass, has, risk_write, risk_billing, risk_admin, risk_permission_change,
  risk_external_side_effect, risk_destructive,
}
use go_clockify.RateLimit.Bucket.{TokenBucket, new_token_bucket, allow_with_retry}

pub record RiskRateLimits : Type 0 where
  pub read_per_minute : ℤ
  pub write_per_minute : ℤ
  pub billing_admin_per_minute : ℤ
  pub destructive_per_minute : ℤ

-- A nil bucket is `none`, and always allows.
pub record RiskRateLimiter : Type 0 where
  pub read : Option TokenBucket
  pub write : Option TokenBucket
  pub billing_admin : Option TokenBucket
  pub destructive : Option TokenBucket

abbrev is_positive : ℤ → Bool
is_positive n = ltb 0 (positive_or 0 n)

unfoldable pub new_risk_rate_limiter : RiskRateLimits → ℕ → Option RiskRateLimiter
new_risk_rate_limiter l now =
    if not (is_positive l.read_per_minute)
      && not (is_positive l.write_per_minute)
      && not (is_positive l.billing_admin_per_minute)
      && not (is_positive l.destructive_per_minute)
    then none
    else some (record {
      read = new_token_bucket l.read_per_minute now;
      write = new_token_bucket l.write_per_minute now;
      billing_admin = new_token_bucket l.billing_admin_per_minute now;
      destructive = new_token_bucket l.destructive_per_minute now;
    })

pub data TierName : Type 0 where
  read_tier write_tier billing_admin_tier destructive_tier : TierName

-- The `switch` of `bucket`.
unfoldable pub tier_of : RiskClass → TierName
tier_of rc =
    if has rc risk_destructive
    then destructive_tier
    else if has rc risk_billing
        || has rc risk_admin
        || has rc risk_permission_change
        || has rc risk_external_side_effect
    then billing_admin_tier
    else if has rc risk_write
    then write_tier
    else read_tier

unfoldable pub bucket_of : TierName → RiskRateLimiter → Option TokenBucket
bucket_of read_tier l = l.read
bucket_of write_tier l = l.write
bucket_of billing_admin_tier l = l.billing_admin
bucket_of destructive_tier l = l.destructive

-- The bucket is a pointer: what a call takes from it, the limiter has lost.
set_bucket : TierName → Option TokenBucket → RiskRateLimiter → RiskRateLimiter
set_bucket read_tier b l = record l { read = b }
set_bucket write_tier b l = record l { write = b }
set_bucket billing_admin_tier b l = record l { billing_admin = b }
set_bucket destructive_tier b l = record l { destructive = b }

allow_bucket : Option TokenBucket → ℕ → Option TokenBucket × Bool × ℕ
allow_bucket none now = (none, true, 0)
allow_bucket (some b) now =
    let (b', allowed, wait) = allow_with_retry b now in (some b', allowed, wait)

unfoldable pub allow : Option RiskRateLimiter → RiskClass → ℕ → Option RiskRateLimiter × Bool × ℕ
unfolding allow_bucket set_bucket bucket_of
allow none rc now = (none, true, 0)
allow (some l) rc now =
    let tier = tier_of rc in
    let (b, allowed, wait) = allow_bucket (bucket_of tier l) now in
    (some (set_bucket tier b l), allowed, wait)

abbrev pub tier_after : TierName → Option RiskRateLimiter → Option (Option TokenBucket)
tier_after t none = none
tier_after t (some l) = some (bucket_of t l)

bucket-set_self :
    (t : TierName) (b : Option TokenBucket) (l : RiskRateLimiter)
    → bucket_of t (set_bucket t b l) ≡ b
unfolding bucket_of set_bucket
bucket-set_self read_tier b l = refl
bucket-set_self write_tier b l = refl
bucket-set_self billing_admin_tier b l = refl
bucket-set_self destructive_tier b l = refl

bucket-set_ne :
    (t u : TierName) (b : Option TokenBucket) (l : RiskRateLimiter)
    → (u ≡ t → ⊥)
    → bucket_of u (set_bucket t b l) ≡ bucket_of u l
unfolding bucket_of set_bucket
bucket-set_ne t u b l ne = ground arith

-- A call is charged to its own tier only: the answer is that of the tier's bucket alone, a tier with
-- no limit allows, and the buckets of the other tiers are as they were.
pub allow-tier :
    (l : RiskRateLimiter) (rc : RiskClass) (now : ℕ) (other : TierName)
    → (other ≡ tier_of rc → ⊥)
    → let r = allow (some l) rc now in
      (tier_after other r.0 ≡ some (bucket_of other l))
      × (bucket_of (tier_of rc) l ≡ none → r.1 ≡ true)
      × ((b : TokenBucket)
          → bucket_of (tier_of rc) l ≡ some b
          → (r.1 ≡ (allow_with_retry b now).1)
            × (tier_after (tier_of rc) r.0 ≡ some (some (allow_with_retry b now).0)))
unfolding allow
allow-tier l rc now other ne =
    let tier = tier_of rc in
    let b' = (allow_bucket (bucket_of tier l) now).0 in
    (
      ap some (bucket-set_ne tier other b' l ne),
      λ e. ground arith,
      λ b e. (ground arith, ap some (bucket-set_self tier b' l) ∙ ground arith),
    )
