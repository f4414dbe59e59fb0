-- ===== src/Money/Nearest.antt =====
-- How near the earned cents are to amount times seconds over 3600, internal/tools/money.go.
use go_clockify.Base.{
  ℕ, zero, suc, ◌+◌, ◌*◌, ◌^◌, ◌≤◌, ◌<◌, ◌≡◌, refl, ap, ◌∙◌, inl, inr, true, false, Option, none,
  some, arith, leb, ℕ_eq, String_eq, ℤ, pos, negsuc,
}
use go_clockify.Base.Float.{one, of_nat, mul, div, round_away, rounded, max_dropped}
use go_clockify.Base.Float.Rounding.{
  round_from-near, one_pos, scale, below_or, of_nat-exact, mul-exact, rounded-zero,
}
use native.Mathlib.Nat.{div-mul-le_self, lt-div-mul-add}
use go_clockify.Money.Rates.{Rate, EffectiveRate}
use go_clockify.Money.Earnings.{
  rounded_cents, earned_cents, to_int64, signed, int64_limit, Money, earned, derived_earnings,
}

-- Twice the distance of the cents from amount · seconds / 3600, in 3600ths, is at most 3600.
abbrev pub IsNearest : ℤ → ℕ → ℤ → Type 0
IsNearest (pos a) s (pos c) =
    (2 * (c * 3600) ≤ 2 * (a * s) + 3600) × (2 * (a * s) ≤ 2 * (c * 3600) + 3600)
IsNearest (negsuc a) s (negsuc c) =
    (2 * ((c + 1) * 3600) ≤ 2 * ((a + 1) * s) + 3600)
    × (2 * ((a + 1) * s) ≤ 2 * ((c + 1) * 3600) + 3600)
IsNearest (negsuc a) s (pos zero) = 2 * ((a + 1) * s) ≤ 3600
IsNearest _ _ _ = ⊥

-- Amount times seconds has 53 bits or fewer.
abbrev pub IsExact : ℤ → ℕ → Type 0
IsExact (pos a) s = a * s < 9_007_199_254_740_992
IsExact (negsuc a) s = (a + 1) * s < 9_007_199_254_740_992

pub cancel : (a b c : ℕ) → 0 < c → a * c ≤ b * c → a ≤ b
cancel a b c h e = elim (below_or b a) [
  | inl less ↦ absurd (omega (arith, scale (b + 1) a c (omega (arith, less))))
  | inr le ↦ le
]

-- The last bit of a quotient by 3600 is at most this.
last_bit : ℕ
last_bit = 2 ^ 1063

one_bits : one ≡ 2048 * last_bit
unfolding one last_bit
one_bits = refl

last_bit_pos : 0 < last_bit
last_bit_pos = omega (arith, one_bits, one_pos)

rounded-near :
    (p q : ℕ)
    → 0 < q
    → p < 9_007_199_254_740_992 * (last_bit * q)
    → (2 * (rounded p q * q) ≤ 2 * p + last_bit * q)
      × (2 * p ≤ 2 * (rounded p q * q) + last_bit * q)
unfolding rounded last_bit
rounded-near p q h b = round_from-near max_dropped 1063 p q _ (omega arith) h refl b

module _ (k o w x : ℕ) (o_pos : 0 < o) (bits : o ≡ 2048 * w) where
  fits : k < 9_007_199_254_740_992 → k * o * o < 9_007_199_254_740_992 * (w * (3600 * o))
  fits b = omega (
    arith,
    scale (k + 1) 9_007_199_254_740_992 (o * o) (omega (arith, b)),
    ap (λ n. n * o) bits,
    scale 1 o o (omega arith),
  )

  without_factor :
      (2 * (x * (3600 * o)) ≤ 2 * (k * o * o) + w * (3600 * o))
      → (2 * (k * o * o) ≤ 2 * (x * (3600 * o)) + w * (3600 * o))
      → (2 * (x * 3600) ≤ 2 * (k * o) + w * 3600) × (2 * (k * o) ≤ 2 * (x * 3600) + w * 3600)
  without_factor low high = (
    cancel (2 * (x * 3600)) (2 * (k * o) + w * 3600) o o_pos (omega (arith, low)),
    cancel (2 * (k * o)) (2 * (x * 3600) + w * 3600) o o_pos (omega (arith, high)),
  )

  -- Rounding to a whole number does not go further than rounding the exact quotient may.
  away-near :
      (c : ℕ)
      → 0 < w
      → c * (2 * o) ≤ 2 * x + o
      → 2 * x + o < c * (2 * o) + 2 * o
      → 2 * (x * 3600) ≤ 2 * (k * o) + w * 3600
      → 2 * (k * o) ≤ 2 * (x * 3600) + w * 3600
      → (2 * (c * 3600) ≤ 2 * k + 3600) × (2 * k ≤ 2 * (c * 3600) + 3600)
  away-near c pos_w under over low high =
      let co = ap (λ n. c * n) bits in
      let ko = ap (λ n. k * n) bits in
      (
        omega (
          arith,
          cancel (14_745_600 * c) (4096 * k + 7_376_400) w pos_w
              (omega (arith, under, low, co, ko, bits)),
        ),
        omega (
          arith,
          cancel (4096 * k) (14_745_600 * c + 7_376_400) w pos_w
              (omega (arith, over, high, co, ko, bits)),
        ),
      )

-- A quotient by 3600 of a product with 53 bits or fewer, rounded twice, is a nearest whole number.
quotient-near :
    (k : ℕ)
    → k < 9_007_199_254_740_992
    → let c = round_away (div (k * one) (3600 * one)) in
      (2 * (c * 3600) ≤ 2 * k + 3600) × (2 * k ≤ 2 * (c * 3600) + 3600)
quotient-near k b =
    let x = div (k * one) (3600 * one) in
    let (low, high) =
      rounded-near (k * one * one) (3600 * one) (omega (arith, one_pos))
        (fits k one last_bit x one_pos one_bits b) in
    let (low', high') = without_factor k one last_bit x one_pos one_bits low high in
    away-near k one last_bit x one_pos one_bits (round_away x) last_bit_pos
      (div-mul-le_self (2 * x + one) (2 * one)) (lt-div-mul-add (omega (arith, one_pos))) low' high'

product-exact :
    (a s : ℕ) → 0 < s → a * s < 9_007_199_254_740_992 → mul (of_nat a) (of_nat s) ≡ a * s * one
product-exact zero s h b =
    let nothing : 0 * one * of_nat s ≡ 0 = omega arith in
    ap (λ z. mul z (of_nat s)) (of_nat-exact 0 (omega arith))
    ∙ ap (λ n. rounded n one) nothing
    ∙ rounded-zero one one_pos
    ∙ omega arith
product-exact (suc a) s h b =
    let amount = of_nat-exact (suc a) (omega (arith, scale 1 s (suc a) (omega (arith, h)))) in
    let seconds = of_nat-exact s (omega (arith, scale 1 (suc a) s (omega arith))) in
    ap (λ z. mul z (of_nat s)) amount
    ∙ ap (λ z. mul (suc a * one) z) seconds
    ∙ mul-exact (suc a) s b

rounded_cents-near :
    (a s : ℕ)
    → 0 < s
    → a * s < 9_007_199_254_740_992
    → let c = rounded_cents a s in
      (2 * (c * 3600) ≤ 2 * (a * s) + 3600) × (2 * (a * s) ≤ 2 * (c * 3600) + 3600)
unfolding rounded_cents
rounded_cents-near a s h b =
    let same : rounded_cents a s ≡ round_away (div (a * s * one) (3600 * one)) =
      ap (λ x. round_away (div x (of_nat 3600))) (product-exact a s h b)
      ∙ ap (λ y. round_away (div (a * s * one) y)) (of_nat-exact 3600 (omega arith)) in
    rw same (quotient-near (a * s) b)

in_range_pos :
    (a s c : ℕ)
    → a * s < 9_007_199_254_740_992
    → (2 * (c * 3600) ≤ 2 * (a * s) + 3600) × (2 * (a * s) ≤ 2 * (c * 3600) + 3600)
    → IsNearest (pos a) s (to_int64 false c)
in_range_pos a s c b near =
    let small : c < int64_limit = omega (arith, near.0, b) in ground (arith, small, near)

signed-IsNearest :
    (a s c : ℕ)
    → (2 * (c * 3600) ≤ 2 * ((a + 1) * s) + 3600) × (2 * ((a + 1) * s) ≤ 2 * (c * 3600) + 3600)
    → IsNearest (negsuc a) s (signed c)
signed-IsNearest a s zero near = omega (arith, near.1)
signed-IsNearest a s (suc c) near = omega (arith, near.0, near.1)

in_range_neg :
    (a s c : ℕ)
    → (a + 1) * s < 9_007_199_254_740_992
    → (2 * (c * 3600) ≤ 2 * ((a + 1) * s) + 3600) × (2 * ((a + 1) * s) ≤ 2 * (c * 3600) + 3600)
    → IsNearest (negsuc a) s (to_int64 true c)
in_range_neg a s c b near =
    let small : leb c int64_limit ≡ true = ground (arith, near.0, b) in
    rw small (signed-IsNearest a s c near)

earned_cents-IsNearest : (a : ℤ) (s : ℕ) → 0 < s → IsExact a s → IsNearest a s (earned_cents a s)
unfolding earned_cents
earned_cents-IsNearest (pos a) s h b =
    in_range_pos a s (rounded_cents a s) b (rounded_cents-near a s h b)
earned_cents-IsNearest (negsuc a) s h b =
    in_range_neg a s (rounded_cents (a + 1) s) b (rounded_cents-near (a + 1) s h b)

-- What is earned on one side: nothing without a rate or a positive duration, and otherwise a nearest
-- number of cents, in the rate's currency.
abbrev pub Earns : Option Rate → ℤ → Option Money → Type 0
Earns none seconds money = money ≡ none
Earns (some r) (negsuc s) money = money ≡ none
Earns (some r) (pos zero) money = money ≡ none
Earns (some r) (pos (suc s)) none = ⊥
Earns (some r) (pos (suc s)) (some m) =
    IsNearest r.amount (suc s) m.cents × (m.currency ≡ r.currency)

-- The product of a side's rate and the duration has 53 bits or fewer, where it is computed.
abbrev pub Exact : Option Rate → ℤ → Type 0
Exact none seconds = Unit
Exact (some r) (negsuc s) = Unit
Exact (some r) (pos s) = IsExact r.amount s

earned-Earns :
    (r : Option Rate) (seconds : ℤ) → Exact r seconds → Earns r seconds (earned r seconds)
earned-Earns none seconds h = refl
earned-Earns (some r) (negsuc s) h = refl
earned-Earns (some r) (pos zero) h = refl
earned-Earns (some r) (pos (suc s)) h =
    (earned_cents-IsNearest r.amount (suc s) (omega arith) h, refl)

-- Billable earnings and cost: each is nothing without its rate or without a positive duration, and
-- otherwise a nearest number of cents to amount · seconds / 3600, in the currency of its own rate; where
-- amount times seconds is below 2 ^ 53 on each side, whatever its sign.
pub derived_earnings-Earns :
    (eff : EffectiveRate) (seconds : ℤ)
    → Exact eff.hourly seconds
    → Exact eff.cost seconds
    → Earns eff.hourly seconds (derived_earnings eff seconds).0
      × Earns eff.cost seconds (derived_earnings eff seconds).1
unfolding derived_earnings
derived_earnings-Earns eff seconds h k =
    (earned-Earns eff.hourly seconds h, earned-Earns eff.cost seconds k)
