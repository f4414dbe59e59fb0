-- ===== src/SizeGuard/Overwrite.antt =====
-- Setting the kept rows of an envelope undoes what was set before.
use go_clockify.Base.{
  ℕ, suc, ◌-◌, ◌≤◌, ◌<◌, String, ◌≡◌, refl, ap, ◌∙◌, ◌⊎◌, Bool, true, false, Option, none, some,
  List, [], ◌∷◌, arith, beq_iff, ℕ_eq, String_eq,
}
use go_clockify.Json.{
  arr, obj, str, num, bool, Fields, end, field, get, put, remove, get-remove, Items,
}
use go_clockify.SizeGuard.Search.{shrink_list_to_budget}
use go_clockify.SizeGuard.Largest.{shrink_list_to_budget_lem}
use go_clockify.SizeGuard.Envelope.{
  with_size_cap, fields_of, within_budget, truncate_envelope_data_to_budget, set_kept,
  add_size_cap_meta, take_items, count_items, next_hint,
}

remove_absent : (k : String) (fs : Fields) → get k fs ≡ none → remove k fs ≡ fs
unfolding get remove
remove_absent k end h = refl
remove_absent k (field j v fs) h = ground (arith, remove_absent k fs)

remove-remove : (k j : String) (fs : Fields) → remove k (remove j fs) ≡ remove j (remove k fs)
unfolding remove
remove-remove k j end = refl
remove-remove k j (field i v fs) = ground (arith, remove-remove k j fs)

remove_twice : (k : String) (fs : Fields) → remove k (remove k fs) ≡ remove k fs
remove_twice k fs = remove_absent k (remove k fs) (ground (arith, get-remove k k fs, beq_iff k k))

remove_all : List String → Fields → Fields
remove_all [] fs = fs
remove_all (k ∷ ks) fs = remove k (remove_all ks fs)

remove_all-remove :
    (ks : List String) (k : String) (fs : Fields)
    → remove_all ks (remove k fs) ≡ remove k (remove_all ks fs)
unfolding remove_all
remove_all-remove [] k fs = refl
remove_all-remove (j ∷ ks) k fs =
    ap (remove j) (remove_all-remove ks k fs) ∙ remove-remove j k (remove_all ks fs)

remove_all_twice :
    (ks : List String) (fs : Fields) → remove_all ks (remove_all ks fs) ≡ remove_all ks fs
unfolding remove_all
remove_all_twice [] fs = refl
remove_all_twice (k ∷ ks) fs =
    ap (remove k)
      (remove_all-remove ks k (remove_all ks fs) ∙ ap (remove k) (remove_all_twice ks fs))
    ∙ remove_twice k (remove_all ks fs)

abbrev cap_keys : List String
cap_keys = "next_hint" ∷ "dropped" ∷ "returned" ∷ "size_capped" ∷ "truncated" ∷ []

abbrev envelope_keys : List String
envelope_keys = "meta" ∷ "data" ∷ []

module _ (itoa : ℕ → String) where
  with_size_cap-with_size_cap :
      (r d r' d' : ℕ) (meta : Fields)
      → with_size_cap itoa r d (with_size_cap itoa r' d' meta) ≡ with_size_cap itoa r d meta
  unfolding put remove remove_all
  with_size_cap-with_size_cap r d r' d' meta =
      ap
        (λ rest. field "next_hint" (str next_hint) (
          field "dropped" (num (itoa d)) (
            field "returned" (num (itoa r))
              (field "size_capped" (bool true) (field "truncated" (bool true) rest)))))
        (remove_all_twice cap_keys meta)

  pub set_kept-set_kept :
      (items : Items) (j k : ℕ) (s : Fields)
      → set_kept itoa items k (set_kept itoa items j s) ≡ set_kept itoa items k s
  unfolding set_kept add_size_cap_meta put remove get remove_all
  set_kept-set_kept items j k s = λ i.
      field "meta"
        (obj (
          with_size_cap-with_size_cap k (count_items items - k) j (count_items items - j)
            (fields_of (get "meta" (remove "data" s))) i))
        (field "data" (arr (take_items k items)) (remove_all_twice envelope_keys s i))

module _ (itoa : ℕ → String) (marshal_size : Fields → Option ℕ) (budget : ℕ) (envelope : Fields)
    (items : Items) where
  abbrev truncated : Fields × Bool
  truncated = truncate_envelope_data_to_budget itoa marshal_size budget envelope

  abbrev fits : Fields → Bool
  fits = within_budget itoa marshal_size budget

  truncated_list :
      get "data" envelope ≡ some (arr items)
      → truncated ≡ shrink_list_to_budget (set_kept itoa items) fits (count_items items) envelope
  unfolding truncate_envelope_data_to_budget
  truncated_list h = ground arith

  -- The answer of a list tool, with at least two rows under `data`, is cut to the largest number of
  -- rows with which the marshalled envelope is within the budget, with `returned` and `dropped` in its
  -- metadata; and it is refused only if no number of rows is within it. A row more never makes an
  -- envelope small enough that was too large.
  pub truncate_envelope_lem :
      ((k : ℕ)
        → fits (set_kept itoa items (suc k) envelope) ≡ true
        → fits (set_kept itoa items k envelope) ≡ true)
      → get "data" envelope ≡ some (arr items)
      → 2 ≤ count_items items
      → ((truncated.1 ≡ true)
          × (kept : ℕ) × (1 ≤ kept)
          × (kept < count_items items)
          × (truncated.0
              ≡ add_size_cap_meta itoa
                  (put "data" (arr (take_items kept items)) envelope)
                  kept
                  (count_items items - kept))
          × (fits truncated.0 ≡ true)
          × ((k : ℕ)
              → kept < k
              → k < count_items items
              → fits (set_kept itoa items k envelope) ≡ false))
        ⊎ ((truncated.1 ≡ false)
            × (truncated.0 ≡ set_kept itoa items 1 envelope)
            × ((k : ℕ)
                → 1 ≤ k
                → k < count_items items
                → fits (set_kept itoa items k envelope) ≡ false))
  unfolding set_kept
  truncate_envelope_lem shrinks listed two = rw (truncated_list listed) (
      shrink_list_to_budget_lem (set_kept itoa items) fits envelope (count_items items)
        (set_kept-set_kept itoa items) shrinks two)
