-- ===== src/Money/Decimal.antt =====
-- The decimal text of an amount in cents, internal/clockify/money.go. Texts are lists of bytes. An
-- `int64` is an integer whose negation wraps at the least one.
use go_clockify.Base.{
  ℕ, zero, suc, ◌+◌, ◌-◌, ◌*◌, ◌/◌, ◌%◌, ◌^◌, ◌≤◌, ◌<◌, ◌≡◌, refl, ap, ◌∙◌, ◌≢◌, inl, inr, Bool,
  true, false, List, [], ◌∷◌, ◌++◌, arith, ltb, if◌then◌else◌, ◌==◌, ℕ_eq, String_eq, Bool-cases,
  All, ℤ, pos, negsuc,
}

abbrev pub int64_bound : ℕ
int64_bound = 2 ^ 63

abbrev pub IsInt64 : ℤ → Type 0
IsInt64 (pos n) = n < int64_bound
IsInt64 (negsuc n) = n < int64_bound

-- -x on int64: the least integer is its own negation.
unfoldable pub neg_int64 : ℤ → ℤ
neg_int64 (pos zero) = pos 0
neg_int64 (pos (suc n)) = negsuc n
neg_int64 (negsuc n) = if n + 1 == int64_bound then negsuc n else pos (n + 1)

abbrev is_negative : ℤ → Bool
is_negative (pos n) = false
is_negative (negsuc n) = true

-- Go's quotient and remainder round toward zero.
negate : ℕ → ℤ
negate zero = pos 0
negate (suc n) = negsuc n

quot : ℤ → ℕ → ℤ
unfolding negate
quot (pos n) d = pos (n / d)
quot (negsuc n) d = negate ((n + 1) / d)

rem : ℤ → ℕ → ℤ
unfolding negate
rem (pos n) d = pos (n % d)
rem (negsuc n) d = negate ((n + 1) % d)

-- The decimal digits of a number, with fuel.
unfoldable pub digits : ℕ → ℕ → List ℕ
digits zero n = []
digits (suc fuel) n =
    let rest = digits fuel (n / 10) ++ (48 + n % 10) ∷ [] in
    if ltb n 10 then (48 + n) ∷ [] else rest

-- %d
unfoldable pub print_int : ℤ → List ℕ
unfolding digits
print_int (pos n) = digits (suc n) n
print_int (negsuc n) = b'-' ∷ digits (suc (n + 1)) (n + 1)

pad2 : List ℕ → List ℕ
pad2 [] = b'0' ∷ b'0' ∷ []
pad2 (c ∷ []) = b'0' ∷ c ∷ []
pad2 (c ∷ d ∷ cs) = c ∷ d ∷ cs

-- %02d: a sign counts to the width of two.
unfoldable pub print_int02 : ℤ → List ℕ
unfolding pad2 print_int
print_int02 n = pad2 (print_int n)

unfoldable pub cents_to_decimal_string : ℤ → List ℕ
unfolding quot rem
cents_to_decimal_string cents =
    let sign : List ℕ = if is_negative cents then b'-' ∷ [] else [] in
    let cents' = if is_negative cents then neg_int64 cents else cents in
    sign ++ (print_int (quot cents' 100) ++ (b'.' ∷ print_int02 (rem cents' 100)))

-- The number that decimal digits stand for.
unfoldable pub value_from : ℕ → List ℕ → ℕ
value_from acc [] = acc
value_from acc (c ∷ cs) = value_from (acc * 10 + (c - 48)) cs

abbrev pub IsDigit : ℕ → Type 0
IsDigit c = (48 ≤ c) × (c ≤ 57)

value_from-append :
    (acc : ℕ) (xs : List ℕ) (c : ℕ)
    → value_from acc (xs ++ c ∷ []) ≡ value_from acc xs * 10 + (c - 48)
unfolding value_from
value_from-append acc [] c = refl
value_from-append acc (x ∷ xs) c = value_from-append (acc * 10 + (x - 48)) xs c

All-snoc : (P : ℕ → Type 0) (xs : List ℕ) (c : ℕ) → All P xs → P c → All P (xs ++ c ∷ [])
All-snoc P [] c h p = (p, tt)
All-snoc P (x ∷ xs) c h p = (h.0, All-snoc P xs c h.1 p)

pub digits_lem :
    (fuel n : ℕ) → n < fuel → (value_from 0 (digits fuel n) ≡ n) × All IsDigit (digits fuel n)
unfolding digits
digits_lem zero n h = absurd (omega arith)
digits_lem (suc fuel) n h = elim (Bool-cases (ltb n 10)) [
  | inl small ↦ rw small (unfold value_from in ground arith, ground arith)
  | inr large ↦
      let (v, d) = digits_lem fuel (n / 10) (ground arith) in
      rw large (
        value_from-append 0 (digits fuel (n / 10)) (48 + n % 10) ∙ ground arith,
        All-snoc IsDigit (digits fuel (n / 10)) (48 + n % 10) d (omega arith),
      )
]

digits_one : (f n : ℕ) → n < 10 → digits (suc f) n ≡ (48 + n) ∷ []
unfolding digits
digits_one f n h = ground arith

digits_two :
    (f n : ℕ) → 10 ≤ n → n < 100 → digits (suc (suc f)) n ≡ (48 + n / 10) ∷ (48 + n % 10) ∷ []
digits_two f n h k = unfold digits in ground (arith, digits_one f (n / 10) (omega arith))

print_int02_lem : (n : ℕ) → n < 100 → print_int02 (pos n) ≡ (48 + n / 10) ∷ (48 + n % 10) ∷ []
unfolding print_int02 print_int
print_int02_lem zero h = refl
print_int02_lem (suc n) h = elim (Bool-cases (ltb (suc n) 10)) [
  | inl small ↦
      let small' : suc n < 10 = ground arith in
      let tens : 48 ≡ 48 + suc n / 10 = omega arith in
      let ones : 48 + suc n ≡ 48 + suc n % 10 = omega arith in
      rw (digits_one (suc n) (suc n) small') (λ i. tens i ∷ ones i ∷ [])
  | inr large ↦ rw (digits_two n (suc n) (ground arith) h)
]

-- The text of an amount that is not negative, or of the absolute value of one that is.
abbrev unsigned : ℕ → List ℕ
unsigned n = print_int (pos (n / 100)) ++ (b'.' ∷ print_int02 (pos (n % 100)))

-- Digits, a point and two digits, which together stand for a number of hundredths.
abbrev pub IsDecimal : ℕ → List ℕ → Type 0
IsDecimal n text =
    (whole : List ℕ) × (c : ℕ) × (d : ℕ) × (text ≡ whole ++ (b'.' ∷ c ∷ d ∷ []))
    × All IsDigit whole
    × IsDigit c
    × IsDigit d
    × (value_from 0 whole * 100 + (c - 48) * 10 + (d - 48) ≡ n)

unsigned_lem : (n : ℕ) → IsDecimal n (unsigned n)
unfolding print_int
unsigned_lem n =
    let (v, ds) = digits_lem (suc (n / 100)) (n / 100) (omega arith) in
    (
      print_int (pos (n / 100)),
      48 + n % 100 / 10,
      48 + n % 100 % 10,
      ap (λ r. print_int (pos (n / 100)) ++ (b'.' ∷ r)) (print_int02_lem (n % 100) (omega arith)),
      ds,
      omega arith,
      omega arith,
      omega arith,
    )

abbrev pub magnitude : ℤ → ℕ
magnitude (pos n) = n
magnitude (negsuc n) = n + 1

abbrev pub sign_of : ℤ → List ℕ
sign_of (pos n) = []
sign_of (negsuc n) = b'-' ∷ []

-- For every int64 but the least, the text is a minus sign if the amount is negative, then digits
-- for the whole part, a point, and two digits, which together stand for the amount.
pub cents_to_decimal_string_lem :
    (cents : ℤ)
    → IsInt64 cents
    → cents ≢ negsuc (int64_bound - 1)
    → (text : List ℕ) × (cents_to_decimal_string cents ≡ sign_of cents ++ text)
      × IsDecimal (magnitude cents) text
unfolding cents_to_decimal_string neg_int64
cents_to_decimal_string_lem (pos n) range least = (unsigned n, refl, unsigned_lem n)
cents_to_decimal_string_lem (negsuc n) range least = elim (Bool-cases (n + 1 == int64_bound)) [
  | inl is ↦ let e : n ≡ int64_bound - 1 = ground arith in absurd (least (ap negsuc e))
  | inr other ↦ (unsigned (n + 1), (rw other), unsigned_lem (n + 1))
]

-- The least int64 is its own negation, so both parts of its text carry a sign and the text has no
-- decimal form: "--92233720368547758.-8".
pub least_int64_text :
    cents_to_decimal_string (negsuc (int64_bound - 1))
    ≡ b'-' ∷ (print_int (negsuc 92233720368547757) ++ (b'.' ∷ b'-' ∷ b'8' ∷ []))
unfolding cents_to_decimal_string neg_int64 print_int02 print_int
least_int64_text = refl
