-- ===== src/Json/Equality.antt =====
-- JSON trees have decidable equality, so they can stand for the bytes that they are written as.
use go_clockify.Base.{
  String, ◌≡◌, refl, sym, ◌∙◌, ◌↔◌, inl, inr, Bool, true, false, Testable, ◌==◌, beq_iff, ℕ_eq,
  String_eq, Bool-cases,
}
use mathlib.Core.Bool.{false≢true}
use go_clockify.Json.{Value}

pub String_discrete : Discrete String
String_discrete a b = elim (Bool-cases (a == b)) [
  | inl h ↦ yes ((beq_iff a b).0 h)
  | inr h ↦ no (λ e. false≢true (sym h ∙ (beq_iff a b).1 e))
]

pub Value_discrete : Discrete Value
Value_discrete = hlevel (String_discrete)

abbrev pub is_yes : {A : Type 0} → Dec A → Bool
is_yes (yes a) = true
is_yes (no f) = false

pub is_yes_iff : {A : Type 0} (d : Dec A) → (is_yes d ≡ true) ↔ A
is_yes_iff (yes a) = (λ _. a, λ _. refl)
is_yes_iff (no f) = (λ h. absurd (false≢true h), λ a. absurd (f a))

instance abbrev pub Value_eq : Testable Value
Value_eq = record {
  test = λ a b. is_yes (Value_discrete a b);
  test_iff = λ a b. is_yes_iff (Value_discrete a b);
}
