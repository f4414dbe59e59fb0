-- ===== src/Base/Assoc.antt =====
-- Go's maps as association lists. The program never depends on the order of a map's entries.
use go_clockify.Base.Tests.{Testable, ◌==◌, beq_iff, if◌then◌else◌}
use mathlib.Core.Path.{◌≡◌, refl}
use mathlib.Core.Bool.{true}
use mathlib.Core.Option.{Option, none, some}
use mathlib.Core.List.{List, [], ◌∷◌}
use native.Mathlib.Omega.{arith}

module _ {ℓ κ} {K : Type ℓ} {V : Type κ} ⦃e : Testable K⦄ where
  -- v, ok := m[k]
  unfoldable pub lookup : K → List (K × V) → Option V
  lookup k [] = none
  lookup k ((j, v) ∷ m) = if j == k then some v else lookup k m

  -- delete(m, k)
  unfoldable pub erase : K → List (K × V) → List (K × V)
  erase k [] = []
  erase k ((j, v) ∷ m) = let rest = erase k m in if j == k then rest else (j, v) ∷ rest

  -- m[k] = v
  unfoldable pub insert : K → V → List (K × V) → List (K × V)
  unfolding erase
  insert k v m = (k, v) ∷ erase k m

  pub lookup-erase :
      (k j : K) (m : List (K × V)) → lookup j (erase k m) ≡ (if k == j then none else lookup j m)
  unfolding lookup erase
  lookup-erase k j [] = ground arith
  lookup-erase k j ((i, v) ∷ m) =
      ground (arith, lookup-erase k j m, beq_iff i k, beq_iff i j, beq_iff k j)

  pub lookup-insert :
      (k j : K) (v : V) (m : List (K × V))
      → lookup j (insert k v m) ≡ (if k == j then some v else lookup j m)
  unfolding lookup insert
  lookup-insert k j v m = ground (arith, lookup-erase k j m)

  -- A map's keys are distinct.
  abbrev pub Distinct : List (K × V) → Type κ
  Distinct [] = Unit
  Distinct ((k, v) ∷ m) = (lookup k m ≡ none) × Distinct m

  pub erase_absent : (k : K) (m : List (K × V)) → lookup k m ≡ none → erase k m ≡ m
  unfolding lookup erase
  erase_absent k [] h = refl
  erase_absent k ((j, v) ∷ m) h = ground (arith, erase_absent k m, beq_iff j k)

  pub Distinct-erase : (k : K) (m : List (K × V)) → Distinct m → Distinct (erase k m)
  unfolding erase
  Distinct-erase k [] h = h
  Distinct-erase k ((j, v) ∷ m) h =
      ground (arith, Distinct-erase k m h.1, lookup-erase k j m, beq_iff j k)

  pub Distinct-insert : (k : K) (v : V) (m : List (K × V)) → Distinct m → Distinct (insert k v m)
  unfolding insert
  Distinct-insert k v m h = ground (arith, lookup-erase k k m, beq_iff k k, Distinct-erase k m h)

pub beq_self {ℓ} : {K : Type ℓ} ⦃e : Testable K⦄ (k : K) → (k == k) ≡ true
beq_self k = (beq_iff k k).1 refl
