-- ===== src/SizeGuard/Search.antt =====
-- The binary search of `shrinkListToBudget`, internal/mcp/response_size_guard.go, over the envelope
-- that it changes as it goes: `set_kept k` stands for setting the first k rows and their metadata, and
-- `fits` for marshalling the envelope and comparing its size with the budget.
use go_clockify.Base.{
  ℕ, zero, suc, ◌+◌, ◌-◌, ◌/◌, ◌≤◌, ◌<◌, ◌≡◌, inl, inr, Bool, true, false, arith, ltb, leb,
  if◌then◌else◌, ◌==◌, ℕ_eq, String_eq, Bool-cases,
}

abbrev pub middle : ℕ → ℕ → ℕ
middle low high = low + (high - low) / 2

module _ {S : Type 0} (set_kept : ℕ → S → S) (fits : S → Bool) where
  -- The `for` loop; the fuel is at least the number of candidates.
  unfoldable pub search_loop : ℕ → ℕ → ℕ → ℕ → S → ℕ × S
  search_loop zero low high best s = (best, s)
  search_loop (suc fuel) low high best s = elim (leb low high) [
    | false ↦ (best, s)
    | true ↦
        let kept = middle low high in
        let s' = set_kept kept s in
        elim (fits s') [
          | true ↦ search_loop fuel (kept + 1) high kept s'
          | false ↦ search_loop fuel low (kept - 1) best s'
        ]
  ]

  -- `true` is an envelope that is within the budget.
  unfoldable pub shrink_list_to_budget : ℕ → S → S × Bool
  shrink_list_to_budget total s =
      if total == 0
      then (s, false)
      else if total == 1
      then (s, false)
      else (let (best, s') = search_loop total 1 (total - 1) 0 s in
          if ltb 0 best then (set_kept best s', true) else (set_kept 1 s', false))

  module _ (fuel low high best : ℕ) (s : S) where
    search_stop : leb low high ≡ false → search_loop (suc fuel) low high best s ≡ (best, s)
    unfolding search_loop
    search_stop h = ground arith

    search_fits :
        leb low high ≡ true
        → fits (set_kept (middle low high) s) ≡ true
        → search_loop (suc fuel) low high best s
          ≡ search_loop fuel
              (middle low high + 1)
              high
              (middle low high)
              (set_kept (middle low high) s)
    unfolding search_loop
    search_fits h f = ground arith

    search_over :
        leb low high ≡ true
        → fits (set_kept (middle low high) s) ≡ false
        → search_loop (suc fuel) low high best s
          ≡ search_loop fuel low (middle low high - 1) best (set_kept (middle low high) s)
    unfolding search_loop
    search_over h f = ground arith

  middle_bounds :
      (low high : ℕ) → leb low high ≡ true → (low ≤ middle low high) × (middle low high ≤ high)
  middle_bounds low high h = let le : low ≤ high = ground arith in (omega arith, omega arith)

  -- The rule of the loop: an invariant that holds at its start and that both kinds of round keep
  -- holds at its end, where the bounds have met.
  module _ (Inv : ℕ → ℕ → ℕ → S → Type 0)
      (keep_fits : (low high best : ℕ) (s : S)
        → low ≤ middle low high
        → middle low high ≤ high
        → fits (set_kept (middle low high) s) ≡ true
        → Inv low high best s
        → Inv (middle low high + 1) high (middle low high) (set_kept (middle low high) s))
      (keep_over : (low high best : ℕ) (s : S)
        → low ≤ middle low high
        → middle low high ≤ high
        → fits (set_kept (middle low high) s) ≡ false
        → Inv low high best s
        → Inv low (middle low high - 1) best (set_kept (middle low high) s)) where
    abbrev Met : ℕ × S → Type 0
    Met (best, s) = (low : ℕ) × (high : ℕ) × (high < low) × Inv low high best s

    pub search_loop-rule :
        (fuel low high best : ℕ) (s : S)
        → 1 ≤ low
        → high < low + fuel
        → Inv low high best s
        → Met (search_loop fuel low high best s)
    unfolding search_loop
    search_loop-rule zero low high best s l h i = (low, high, omega arith, i)
    search_loop-rule (suc fuel) low high best s l h i = elim (Bool-cases (leb low high)) [
      | inr stop ↦ rw (search_stop fuel low high best s stop) (low, high, ground arith, i)
      | inl go ↦
          let (m, n) = middle_bounds low high go in
          elim (Bool-cases (fits (set_kept (middle low high) s))) [
            | inl f ↦ rw (search_fits fuel low high best s go f) (
                search_loop-rule fuel (middle low high + 1) high (middle low high)
                  (set_kept (middle low high) s) (omega arith) (omega arith)
                  (keep_fits low high best s m n f i))
            | inr f ↦ rw (search_over fuel low high best s go f) (
                search_loop-rule fuel low (middle low high - 1) best (set_kept (middle low high) s)
                  l (omega arith) (keep_over low high best s m n f i))
          ]
    ]
