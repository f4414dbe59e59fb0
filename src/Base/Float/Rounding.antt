-- ===== src/Base/Float/Rounding.antt =====
-- How far the rounding of float64 is off, and what it leaves as it is.
use go_clockify.Base.{
  ℕ, zero, suc, ◌+◌, ◌-◌, ◌*◌, ◌/◌, ◌%◌, ◌^◌, ◌≤◌, ◌<◌, ◌≡◌, refl, ap, ◌∙◌, ◌⊎◌, inl, inr, arith,
  ltb, ℕ_eq, String_eq, Bool-cases,
}
use native.Mathlib.Nat.{div-add-mod, mod-lt, mul-div_cancel, pow-suc}
use go_clockify.Base.Float.{
  nearest, half_even, round_from, exponent, max_dropped, one, rounded, of_nat, add, sub, mul,
}

nearest-near :
    (k r q kq : ℕ)
    → r < q
    → kq ≡ k * q
    → (2 * (nearest k r q * q) ≤ 2 * (kq + r) + q) × (2 * (kq + r) ≤ 2 * (nearest k r q * q) + q)
nearest-near k r q kq h e =
    let above : (k + 1) * q ≡ kq + q = omega arith in ground (arith, above, e, h)

half_even-near :
    (p q : ℕ)
    → 0 < q
    → (2 * (half_even p q * q) ≤ 2 * p + q) × (2 * p ≤ 2 * (half_even p q * q) + q)
unfolding half_even
half_even-near p q h =
    let whole : p / q * q + p % q ≡ p = omega (arith, div-add-mod p q) in
    let near = nearest-near (p / q) (p % q) q (p / q * q) (mod-lt p h) refl in rw whole at near

half_even-exact : (k q : ℕ) → 0 < q → half_even (k * q) q ≡ k
unfolding half_even
half_even-exact k q h =
    let quotient : k * q / q ≡ k = mul-div_cancel k h in
    let rest : k * q % q ≡ 0 = omega (arith, div-add-mod (k * q) q, ap (λ n. q * n) quotient) in
    ground (arith, quotient, rest, h)

stops : (fuel p q : ℕ) → p < 9_007_199_254_740_992 * q → round_from fuel p q ≡ half_even p q
unfolding round_from
stops zero p q h = refl
stops (suc fuel) p q h = ground (arith, h)

goes_on :
    (fuel p q : ℕ)
    → 9_007_199_254_740_992 * q ≤ p
    → round_from (suc fuel) p q ≡ 2 * round_from fuel p (2 * q)
unfolding round_from
goes_on fuel p q h = ground (arith, h)

pow-grows : (s q : ℕ) → q ≤ 2 ^ s * q
pow-grows zero q = omega arith
pow-grows (suc s) q =
    let twice : 2 ^ suc s * q ≡ 2 * (2 ^ s * q) = omega (arith, ap (λ n. n * q) (pow-suc 2 s)) in
    omega (arith, pow-grows s q)

pub below_or : (a b : ℕ) → (a < b) ⊎ (b ≤ a)
below_or a b = elim (Bool-cases (ltb a b)) [
  | inl h ↦ inl (ground (arith, h))
  | inr h ↦ inr (ground (arith, h))
]

near_stop :
    (fuel p q t : ℕ)
    → 0 < q
    → q ≤ t
    → p < 9_007_199_254_740_992 * q
    → (2 * (round_from fuel p q * q) ≤ 2 * p + t) × (2 * p ≤ 2 * (round_from fuel p q * q) + t)
near_stop fuel p q t h g b =
    let (low, high) = half_even-near p q h in rw (stops fuel p q b) (omega arith, omega arith)

-- Rounding is off by half of the last bit that is kept at most; t is q times a power of two.
pub round_from-near :
    (fuel s p q t : ℕ)
    → s ≤ fuel
    → 0 < q
    → t ≡ 2 ^ s * q
    → p < 9_007_199_254_740_992 * t
    → (2 * (round_from fuel p q * q) ≤ 2 * p + t) × (2 * p ≤ 2 * (round_from fuel p q * q) + t)
round_from-near fuel zero p q t l h e b =
    near_stop fuel p q t h (omega (arith, e)) (omega (arith, e))
round_from-near zero (suc s) p q t l h e b = absurd (omega arith)
round_from-near (suc fuel) (suc s) p q t l h e b = elim (below_or p (9_007_199_254_740_992 * q)) [
  | inl done ↦ near_stop (suc fuel) p q t h (omega (arith, e, pow-grows (suc s) q)) done
  | inr more ↦
      let same : t ≡ 2 ^ s * (2 * q) = omega (arith, e, ap (λ n. n * q) (pow-suc 2 s)) in
      let (low, high) = round_from-near fuel s p (2 * q) t (omega arith) (omega arith) same b in
      rw (goes_on fuel p q more) (omega (arith, low), omega (arith, high))
]

pub scale : (a b c : ℕ) → a ≤ b → a * c ≤ b * c
scale a b c h = grind arith

exact_stop :
    (fuel m p q : ℕ) → 0 < q → p ≡ m * q → p < 9_007_199_254_740_992 * q → round_from fuel p q ≡ m
exact_stop fuel m p q h e b = stops fuel p q b ∙ ap (λ n. half_even n q) e ∙ half_even-exact m q h

-- A multiple of a power of two with 53 bits or fewer stays as it is.
pub round_from-exact :
    (fuel j k q p : ℕ)
    → j ≤ fuel
    → 0 < q
    → k < 9_007_199_254_740_992
    → p ≡ k * (2 ^ j * q)
    → round_from fuel p q ≡ k * 2 ^ j
round_from-exact fuel zero k q p l h b e =
    exact_stop fuel (k * 2 ^ 0) p q h (omega (arith, e))
      (omega (arith, e, scale (k + 1) 9_007_199_254_740_992 q (omega arith)))
round_from-exact zero (suc j) k q p l h b e = absurd (omega arith)
round_from-exact (suc fuel) (suc j) k q p l h b e = elim (below_or p (9_007_199_254_740_992 * q)) [
  | inl done ↦ exact_stop (suc fuel) (k * 2 ^ suc j) p q h (e ∙ omega arith) done
  | inr more ↦
      goes_on fuel p q more
      ∙ ap (λ n. 2 * n)
          (round_from-exact fuel j k (2 * q) p (omega arith) (omega arith) b
            (e ∙ ap (λ n. k * n) (omega (arith, ap (λ n. n * q) (pow-suc 2 j)))))
      ∙ omega (arith, ap (λ n. k * n) (pow-suc 2 j))
]

pow_pos : (s : ℕ) → 0 < 2 ^ s
pow_pos s = omega (arith, pow-grows s 1)

pub one_pos : 0 < one
unfolding one
one_pos = pow_pos exponent

-- A product k · 2 ^ 1074 · q over q is k, exactly.
rounded-exact :
    (k q p : ℕ) → 0 < q → k < 9_007_199_254_740_992 → p ≡ k * (one * q) → rounded p q ≡ k * one
unfolding rounded one
rounded-exact k q p h b e = round_from-exact max_dropped exponent k q p (omega arith) h b e

pub rounded-zero : (q : ℕ) → 0 < q → rounded 0 q ≡ 0
rounded-zero q h = rounded-exact 0 q 0 h (omega arith) (omega arith) ∙ omega arith

pub of_nat-exact : (k : ℕ) → k < 9_007_199_254_740_992 → of_nat k ≡ k * one
of_nat-exact k b = rounded-exact k 1 (k * one) (omega arith) b (omega arith)

pub add-zero : (k : ℕ) → k < 9_007_199_254_740_992 → add (k * one) 0 ≡ k * one
add-zero k b = rounded-exact k 1 (k * one + 0) (omega arith) b (omega arith)

pub sub-one : (k : ℕ) → k < 9_007_199_254_740_992 → sub (suc k * one) one ≡ k * one
sub-one k b = rounded-exact k 1 (suc k * one - one) (omega arith) b (omega arith)

pub mul-exact : (a b : ℕ) → a * b < 9_007_199_254_740_992 → mul (a * one) (b * one) ≡ a * b * one
mul-exact a b h = rounded-exact (a * b) one (a * one * (b * one)) one_pos h (omega arith)
