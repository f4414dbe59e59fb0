-- ===== src/SizeGuard/Largest.antt =====
-- What the search finds: the largest number of rows that fits.
use go_clockify.Base.{
  ℕ, zero, suc, ◌+◌, ◌-◌, ◌≤◌, ◌<◌, ◌≡◌, refl, ◌∙◌, ◌⊎◌, inl, inr, Bool, true, false, arith, ltb,
  ◌==◌, beq_iff, ℕ_eq, String_eq, Bool-cases,
}
use go_clockify.SizeGuard.Search.{shrink_list_to_budget, search_loop, search_loop-rule, middle}

module _ {S : Type 0} (set_kept : ℕ → S → S) (fits : S → Bool) (start : S) (total : ℕ)
    (overwrites : (j k : ℕ) (s : S) → set_kept k (set_kept j s) ≡ set_kept k s)
    (shrinks : (k : ℕ)
      → fits (set_kept (suc k) start) ≡ true
      → fits (set_kept k start) ≡ true) where
  abbrev fits_at : ℕ → Bool
  fits_at k = fits (set_kept k start)

  larger_too : (k m : ℕ) → k ≤ m → fits_at k ≡ false → fits_at m ≡ false
  larger_too k zero le f = let e : k ≡ 0 = omega arith in rw (← e) f
  larger_too k (suc m) le f = elim (Bool-cases (k == suc m)) [
    | inl here ↦ rw (← ((beq_iff k (suc m)).0 here)) f
    | inr on ↦ ground (arith, shrinks m, larger_too k m (ground arith) f)
  ]

  -- What is known when the candidates are those from low to high.
  record Searched (low high best : ℕ) (s : S) : Type 0 where
    tracks : (k : ℕ) → set_kept k s ≡ set_kept k start
    next : best + 1 ≡ low
    bound : high < total
    small : best < total
    found : 0 < best → fits_at best ≡ true
    above : (k : ℕ) → high < k → k < total → fits_at k ≡ false

  search_loop-Searched :
      2 ≤ total
      → let (best, s) = search_loop set_kept fits total 1 (total - 1) 0 start in
        (low : ℕ) × (high : ℕ) × (high < low) × Searched low high best s
  search_loop-Searched two =
      search_loop-rule set_kept fits Searched keep_fits keep_over total 1 (total - 1) 0 start
        (omega arith) (omega arith)
        (record {
          tracks = λ k. refl;
          next = omega arith;
          bound = omega arith;
          small = omega arith;
          found = λ h. absurd (omega arith);
          above = λ k h b. absurd (omega arith);
        })
    where
      keep_fits :
          (low high best : ℕ) (s : S)
          → low ≤ middle low high
          → middle low high ≤ high
          → fits (set_kept (middle low high) s) ≡ true
          → Searched low high best s
          → Searched (middle low high + 1) high (middle low high) (set_kept (middle low high) s)
      keep_fits low high best s m n f i = record {
        tracks = λ k. overwrites (middle low high) k s ∙ i.tracks k;
        next = refl;
        bound = i.bound;
        small = omega (arith, i.bound);
        found = λ _. rw (← (i.tracks (middle low high))) f;
        above = i.above;
      }

      keep_over :
          (low high best : ℕ) (s : S)
          → low ≤ middle low high
          → middle low high ≤ high
          → fits (set_kept (middle low high) s) ≡ false
          → Searched low high best s
          → Searched low (middle low high - 1) best (set_kept (middle low high) s)
      keep_over low high best s m n f i = record {
        tracks = λ k. overwrites (middle low high) k s ∙ i.tracks k;
        next = i.next;
        bound = omega (arith, i.bound);
        small = i.small;
        found = i.found;
        above = λ k h b.
            larger_too (middle low high) k (omega arith) (rw (← (i.tracks (middle low high))) f);
      }

  abbrev result : S × Bool
  result = shrink_list_to_budget set_kept fits total start

  abbrev best_found : ℕ × S
  best_found = search_loop set_kept fits total 1 (total - 1) 0 start

  result_fits :
      2 ≤ total → ltb 0 best_found.0 ≡ true → result ≡ (set_kept best_found.0 best_found.1, true)
  unfolding shrink_list_to_budget
  result_fits two h = ground arith

  result_none : 2 ≤ total → ltb 0 best_found.0 ≡ false → result ≡ (set_kept 1 best_found.1, false)
  unfolding shrink_list_to_budget
  result_none two h = ground arith

  -- An envelope of at least two rows that can be cut to the budget is cut to the largest number of
  -- rows that is within it, fewer than all. If it cannot, it keeps one row, which is not within it.
  pub shrink_list_to_budget_lem :
      2 ≤ total
      → ((result.1 ≡ true)
          × (kept : ℕ) × (1 ≤ kept)
          × (kept < total)
          × (result.0 ≡ set_kept kept start)
          × (fits result.0 ≡ true)
          × ((k : ℕ) → kept < k → k < total → fits (set_kept k start) ≡ false))
        ⊎ ((result.1 ≡ false)
            × (result.0 ≡ set_kept 1 start)
            × ((k : ℕ) → 1 ≤ k → k < total → fits (set_kept k start) ≡ false))
  shrink_list_to_budget_lem two =
      let (low, high, met, i) = search_loop-Searched two in
      elim (Bool-cases (ltb 0 best_found.0)) [
        | inl h ↦
            let same = i.tracks best_found.0 in
            rw (result_fits two h) (
              inl (
                refl,
                best_found.0,
                ground arith,
                i.small,
                same,
                rw same (i.found (ground arith)),
                λ k l b. i.above k (omega (arith, i.next)) b,
              ))
        | inr h ↦
            rw (result_none two h)
              (inr (refl, i.tracks 1, λ k l b. i.above k (ground (arith, i.next)) b))
      ]
