-- ===== src/SizeGuard/Examples.antt =====
-- A concrete tool result for the theorems on the size cap.
use go_clockify.Base.{
  ℕ, zero, suc, ◌+◌, ◌-◌, ◌*◌, ◌≤◌, ◌<◌, String, ◌≡◌, refl, ◌⊎◌, Bool, true, false, Option, none,
  some, List, [], ◌∷◌, arith, if◌then◌else◌, ◌==◌, ℕ_eq, String_eq, length, pos,
}
use mathlib.Core.Bool.{false≢true}
use go_clockify.Json.{
  Value, null, bool, arr, obj, Items, nil, cons, Fields, end, field, get, put, remove,
}
use go_clockify.SizeGuard.Search.{shrink_list_to_budget, search_loop}
use go_clockify.SizeGuard.Envelope.{
  count_items, take_items, set_kept, add_size_cap_meta, within_budget,
  truncate_envelope_data_to_budget,
}
use go_clockify.SizeGuard.Overwrite.{truncate_envelope_lem}
use go_clockify.SizeGuard.Result.{
  ToolResult, tool_result_envelope_guarded, refused, guarded-fits, marshal_size,
}

abbrev itoa : ℕ → String
itoa n = if n == 3 then "3" else "1"

abbrev rows : Items
rows = cons null (cons null (cons null (cons null nil)))

abbrev answer : Fields
answer = field "ok" (bool true) (field "data" (arr rows) end)

abbrev rows_of : Option Value → ℕ
rows_of (some (arr items)) = count_items items
rows_of _ = 0

-- A hundred bytes of frame, and ten for each row.
abbrev size : Fields → Option ℕ
size envelope = some (100 + 10 * rows_of (get "data" envelope))

cut_to_three :
    truncate_envelope_data_to_budget itoa size 135 answer
    ≡ (add_size_cap_meta itoa (put "data" (arr (take_items 3 rows)) answer) 3 1, true)
unfolding truncate_envelope_data_to_budget shrink_list_to_budget search_loop set_kept
    add_size_cap_meta get put remove
cut_to_three = refl

none_fits : (truncate_envelope_data_to_budget itoa size 105 answer).1 ≡ false
unfolding truncate_envelope_data_to_budget shrink_list_to_budget search_loop set_kept
    add_size_cap_meta get put remove
none_fits = refl

abbrev fits : Fields → Bool
fits = within_budget itoa size 135

shrinks :
    (k : ℕ)
    → fits (set_kept itoa rows (suc k) answer) ≡ true
    → fits (set_kept itoa rows k answer) ≡ true
unfolding set_kept add_size_cap_meta get put remove
shrinks zero h = refl
shrinks (suc zero) h = refl
shrinks (suc (suc zero)) h = refl
shrinks (suc (suc (suc zero))) h = refl
shrinks (suc (suc (suc (suc k)))) h = absurd (false≢true h)

truncate_envelope_lem_example :
    let (cut, done) = truncate_envelope_data_to_budget itoa size 135 answer in
    ((done ≡ true)
      × (kept : ℕ) × (1 ≤ kept)
      × (kept < 4)
      × (cut
          ≡ add_size_cap_meta itoa (put "data" (arr (take_items kept rows)) answer) kept (4 - kept))
      × (fits cut ≡ true)
      × ((k : ℕ) → kept < k → k < 4 → fits (set_kept itoa rows k answer) ≡ false))
    ⊎ ((done ≡ false)
        × (cut ≡ set_kept itoa rows 1 answer)
        × ((k : ℕ) → 1 ≤ k → k < 4 → fits (set_kept itoa rows k answer) ≡ false))
unfolding get
truncate_envelope_lem_example =
    truncate_envelope_lem itoa size 135 answer rows shrinks listed (omega arith)
  where
    listed : get "data" answer ≡ some (arr rows)
    listed = refl

-- A text of as many bytes as the frame and the rows have, and the answer that it was made from.
abbrev zeros : ℕ → List ℕ
zeros zero = []
zeros (suc n) = 48 ∷ zeros n

abbrev bytes_of : Fields → ℕ
bytes_of envelope = 5 + 2 * rows_of (get "data" envelope)

abbrev marshal : Value → Option (List ℕ)
marshal (obj fs) = some (zeros (bytes_of fs))
marshal v = none

abbrev decode : List ℕ → Option Fields
decode raw = some answer

abbrev message : String → ℕ → ℕ → String
message tool_name bytes budget = "too large"

abbrev fits_eleven : Fields → Bool
fits_eleven = within_budget itoa (marshal_size [] marshal itoa message decode) 11

shrinks_to_eleven :
    (k : ℕ)
    → fits_eleven (set_kept itoa rows (suc k) answer) ≡ true
    → fits_eleven (set_kept itoa rows k answer) ≡ true
unfolding set_kept add_size_cap_meta get put remove
shrinks_to_eleven zero h = refl
shrinks_to_eleven (suc zero) h = refl
shrinks_to_eleven (suc (suc zero)) h = refl
shrinks_to_eleven (suc (suc (suc zero))) h = absurd (false≢true h)
shrinks_to_eleven (suc (suc (suc (suc k)))) h = absurd (false≢true h)

abbrev guarded : ToolResult
guarded =
    tool_result_envelope_guarded [] marshal itoa message decode "entries" (obj answer) (pos 11)

guarded-fits_example :
    (length guarded.text ≤ 11)
    ⊎ (guarded ≡ refused [] marshal itoa message decode "entries" (zeros 13) 11)
unfolding get
guarded-fits_example =
    guarded-fits [] marshal itoa message decode "entries" (zeros 13) 11 answer rows (obj answer)
      refl refl refl (omega arith) (omega arith) shrinks_to_eleven
