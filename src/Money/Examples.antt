-- ===== src/Money/Examples.antt =====
-- The theorems on money at concrete inputs, and runs of the code.
use go_clockify.Base.{
  ℕ, ◌≡◌, refl, ap, Bool, true, false, Option, none, some, List, [], ◌∷◌, ◌++◌, arith, ℕ_eq,
  String_eq, ℤ, pos, negsuc, neg_part,
}
use go_clockify.Money.Decimal.{
  neg_int64, print_int, print_int02, cents_to_decimal_string, IsDecimal, sign_of, magnitude,
  cents_to_decimal_string_lem,
}
use go_clockify.Money.Rates.{
  Rate, Scoped, project_scope, none_scope, EffectiveRate, resolve_layer, membership_rate,
  resolve_side, resolve_effective_rate,
}
use go_clockify.Money.Precedence.{first_of, hierarchy, resolve_effective_rate_lem}
use go_clockify.Money.Earnings.{derived_earnings, earned_cents, rounded_cents}
use go_clockify.Base.Float.{one, rounded, round_from, half_even}
use go_clockify.Money.Nearest.{Earns, derived_earnings-Earns}

cents_to_decimal_string_runs :
    (cents_to_decimal_string (pos 4321) ≡ b'4' ∷ b'3' ∷ b'.' ∷ b'2' ∷ b'1' ∷ [])
    × (cents_to_decimal_string (negsuc 249) ≡ b'-' ∷ b'2' ∷ b'.' ∷ b'5' ∷ b'0' ∷ [])
    × (cents_to_decimal_string (pos 7) ≡ b'0' ∷ b'.' ∷ b'0' ∷ b'7' ∷ [])
unfolding cents_to_decimal_string neg_int64 print_int02 print_int
cents_to_decimal_string_runs = (refl, refl, refl)

cents_to_decimal_string_lem_example :
    (text : List ℕ) × (cents_to_decimal_string (negsuc 249) ≡ sign_of (negsuc 249) ++ text)
    × IsDecimal (magnitude (negsuc 249)) text
cents_to_decimal_string_lem_example =
    cents_to_decimal_string_lem (negsuc 249) (omega arith) (λ e. omega (arith, ap neg_part e))

abbrev euros : ℤ → Bool → Option Rate
euros n inherited = some (record { amount = n; currency = "EUR"; inherited = inherited })

abbrev project : Scoped
project = record {
  rated = record { hourly_rate = euros (pos 5000) false; cost_rate = none };
  memberships = record { user_id = "u1"; hourly_rate = euros (pos 0) true; cost_rate = none } ∷ [];
}

-- The member's inherited rate falls through to the project's own.
resolve_effective_rate_runs :
    (resolve_effective_rate none (some project) none none "u1").hourly_scope ≡ project_scope
unfolding resolve_effective_rate resolve_side resolve_layer membership_rate
resolve_effective_rate_runs = refl

resolve_effective_rate_lem_example :
    let eff = resolve_effective_rate none (some project) none none "u1" in
    ((eff.hourly, eff.hourly_scope) ≡ first_of (hierarchy false none (some project) none none "u1"))
    × ((eff.cost, eff.cost_scope) ≡ first_of (hierarchy true none (some project) none none "u1"))
resolve_effective_rate_lem_example = resolve_effective_rate_lem none (some project) none none "u1"

abbrev effective : EffectiveRate
effective = record {
  hourly = euros (negsuc 4999) false;
  cost = none;
  hourly_scope = project_scope;
  cost_scope = none_scope;
}

derived_earnings-Earns_example :
    Earns (euros (negsuc 4999) false) (pos 1801) (derived_earnings effective (pos 1801)).0
    × Earns none (pos 1801) (derived_earnings effective (pos 1801)).1
derived_earnings-Earns_example = derived_earnings-Earns effective (pos 1801) (omega arith) tt

-- Half a cent is rounded away from zero.
half_a_cent : earned_cents (pos 1) 1800 ≡ pos 1
unfolding earned_cents rounded_cents one rounded round_from half_even
half_a_cent = refl

half_a_cent_less : earned_cents (negsuc 0) 1800 ≡ negsuc 0
unfolding earned_cents rounded_cents one rounded round_from half_even
half_a_cent_less = refl

-- The amount 2 ^ 53 + 1 has 54 bits, and loses the last.
lost_cent : earned_cents (pos 9_007_199_254_740_993) 3600 ≡ pos 9_007_199_254_740_992
unfolding earned_cents rounded_cents one rounded round_from half_even
lost_cent = refl
