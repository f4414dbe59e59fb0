-- ===== src/Base/Float.antt =====
-- Go's float64, as far as the code computes with it: the values from zero up and below infinity, each as
-- a multiple of the least one, 2 ^ -1074. An operation rounds its exact result to 53 significant bits,
-- half to even. The code stays far below the overflow, and an operation is rounded by itself (amd64; Go
-- may fuse a product with a sum elsewhere).
pub mod Rounding
use go_clockify.Base.{
  ℕ, zero, suc, ◌+◌, ◌-◌, ◌*◌, ◌/◌, ◌%◌, ◌^◌, ◌≤◌, ◌<◌, String, ◌≡◌, refl, sym, ap, ◌∙◌, ◌≢◌, ◌↔◌,
  ◌⊎◌, inl, inr, Bool, true, false, not, ◌&&◌, ◌||◌, Option, none, some, List, [], ◌∷◌, ◌++◌, map,
  arith, ltb, leb, if◌then◌else◌, Testable, ◌==◌, beq_iff, nat_eq, nat_eq_iff, ℕ_eq, String_eq,
  Bool-cases, Option-cases, length, take, any, all, length-append, length-take, take_all, All, ℤ,
  pos, negsuc, pos_part, neg_part, sub_ℕ, positive_or,
}

abbrev pub Float : Type 0
Float = ℕ

-- What is nearest to k and r of q parts, the even one of two.
abbrev nearest : (k r q : ℕ) → ℕ
nearest k r q =
    if ltb (2 * r) q then k else if ltb q (2 * r) then k + 1 else if k % 2 == 0 then k else k + 1

-- A nearest integer to p / q.
unfoldable pub half_even : ℕ → ℕ → ℕ
half_even p q = nearest (p / q) (p % q) q

-- p / q, rounded: as many bits are dropped as leaves 53. The fuel is the bits that may be dropped.
unfoldable pub round_from : ℕ → ℕ → ℕ → Float
round_from zero p q = half_even p q
round_from (suc fuel) p q = elim (ltb p (9_007_199_254_740_992 * q)) [
  | true ↦ half_even p q
  | false ↦ 2 * round_from fuel p (2 * q)
]

abbrev pub exponent : ℕ
exponent = 1074

-- No value below infinity drops more bits.
abbrev pub max_dropped : ℕ
max_dropped = 2100

unfoldable pub one : Float
one = 2 ^ exponent

unfoldable pub rounded : ℕ → ℕ → Float
rounded p q = round_from max_dropped p q

-- float64(n)
abbrev pub of_nat : ℕ → Float
of_nat n = rounded (n * one) 1

abbrev pub add : Float → Float → Float
add a b = rounded (a + b) 1

-- a - b where that is not below zero.
abbrev pub sub : Float → Float → Float
sub a b = rounded (a - b) 1

abbrev pub mul : Float → Float → Float
mul a b = rounded (a * b) one

abbrev pub div : Float → Float → Float
div a b = rounded (a * one) b

-- int(math.Ceil(a))
abbrev pub ceil : Float → ℕ
ceil a = (a + one - 1) / one

-- math.Round, half away from zero.
abbrev pub round_away : Float → ℕ
round_away a = (2 * a + one) / (2 * one)
