-- ===== src/Money/Earnings.antt =====
-- The money that an entry's duration earns, internal/tools/money.go. The currency goes along. A float64
-- operation rounds a negative number as it does its opposite, so the sign is kept beside the magnitude.
use go_clockify.Base.{
  ℕ, zero, suc, ◌+◌, ◌-◌, ◌^◌, String, Bool, true, false, Option, none, some, ltb, leb,
  if◌then◌else◌, ℕ_eq, String_eq, ℤ, pos, negsuc,
}
use go_clockify.Base.Float.{of_nat, mul, div, round_away}
use go_clockify.Money.Rates.{Rate, EffectiveRate}

abbrev pub seconds_per_hour : ℕ
seconds_per_hour = 3600

abbrev pub int64_limit : ℕ
int64_limit = 2 ^ 63

abbrev pub least_int64 : ℤ
least_int64 = negsuc (2 ^ 63 - 1)

abbrev pub signed : ℕ → ℤ
signed zero = pos 0
signed (suc n) = negsuc n

-- int64 of a whole number, given by its magnitude: what is out of range becomes the least int64, as on
-- amd64.
abbrev pub to_int64 : (negative : Bool) → ℕ → ℤ
to_int64 false n = if ltb n int64_limit then pos n else least_int64
to_int64 true n = if leb n int64_limit then signed n else least_int64

-- math.Round(float64(amount) * float64(seconds) / 3600.0), without the sign.
unfoldable pub rounded_cents : ℕ → ℕ → ℕ
rounded_cents amount seconds =
    round_away (div (mul (of_nat amount) (of_nat seconds)) (of_nat seconds_per_hour))

unfoldable pub earned_cents : ℤ → ℕ → ℤ
earned_cents (pos a) seconds = to_int64 false (rounded_cents a seconds)
earned_cents (negsuc a) seconds = to_int64 true (rounded_cents (a + 1) seconds)

pub record Money : Type 0 where
  pub cents : ℤ
  pub currency : String

-- The zero `MoneyView` is `none`.
abbrev pub earned : Option Rate → ℤ → Option Money
earned none seconds = none
earned (some r) (pos zero) = none
earned (some r) (pos (suc s)) =
    some (record { cents = earned_cents r.amount (suc s); currency = r.currency })
earned (some r) (negsuc s) = none

unfoldable pub derived_earnings : EffectiveRate → ℤ → Option Money × Option Money
derived_earnings eff seconds = (earned eff.hourly seconds, earned eff.cost seconds)
