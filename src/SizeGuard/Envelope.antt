-- ===== src/SizeGuard/Envelope.antt =====
-- The envelope of a tool's result and its cut to the budget, internal/mcp/response_size_guard.go.
-- `json.Marshal` is an argument, of which only the size of its output counts; `itoa` is how it writes
-- an int.
use go_clockify.Base.{
  ℕ, zero, suc, ◌-◌, String, Bool, true, false, Option, none, some, ltb, leb, if◌then◌else◌, ℕ_eq,
  String_eq, ◌==◌,
}
use go_clockify.Json.{
  Value, bool, num, str, arr, obj, Items, nil, cons, Fields, end, field, get, put,
}
use go_clockify.SizeGuard.Search.{shrink_list_to_budget}

abbrev pub count_items : Items → ℕ
count_items nil = 0
count_items (cons x xs) = suc (count_items xs)

-- items[:kept]
abbrev pub take_items : ℕ → Items → Items
take_items zero xs = nil
take_items (suc n) nil = nil
take_items (suc n) (cons x xs) = cons x (take_items n xs)

-- m, _ := v.(map[string]any), with no map for a missing key.
abbrev pub fields_of : Option Value → Fields
fields_of (some (obj fs)) = fs
fields_of _ = end

abbrev pub next_hint : String
next_hint =
    "Response was size-capped by CLOCKIFY_MAX_TOOL_RESULT_BYTES; narrow filters, lower page_size or max_rows, or page through results to continue."

module _ (itoa : ℕ → String) where
  -- The five keys, the last one first.
  abbrev pub with_size_cap : ℕ → ℕ → Fields → Fields
  with_size_cap returned dropped meta = put "next_hint" (str next_hint) (
      put "dropped" (num (itoa dropped)) (
        put "returned" (num (itoa returned))
          (put "size_capped" (bool true) (put "truncated" (bool true) meta))))

  unfoldable pub add_size_cap_meta : Fields → ℕ → ℕ → Fields
  add_size_cap_meta envelope returned dropped =
      put "meta" (obj (with_size_cap returned dropped (fields_of (get "meta" envelope)))) envelope

  -- One round of the search: `set(items[:kept])` for a list under `data`, and the metadata.
  unfoldable pub set_kept : Items → ℕ → Fields → Fields
  set_kept items kept envelope =
      add_size_cap_meta (put "data" (arr (take_items kept items)) envelope) kept
        (count_items items - kept)

  -- The same for a list under a key of the object `data`, whose `count` follows if it has one.
  abbrev with_rows : String → Items → ℕ → Fields → Fields
  with_rows key items kept value =
      let value' = put key (arr (take_items kept items)) value in
      elim (get "count" value') [ none ↦ value' | some v ↦ put "count" (num (itoa kept)) value' ]

  unfoldable pub set_kept_field : String → Items → ℕ → Fields → Fields
  set_kept_field key items kept envelope =
      add_size_cap_meta
        (put "data" (obj (with_rows key items kept (fields_of (get "data" envelope)))) envelope)
        kept (count_items items - kept)

-- The longest array that is not empty. Go visits the keys in any order: this visits them in the
-- map's, so which of several arrays of the same length is taken is one of the answers that Go may give.
abbrev longer : Option (String × Items) → String → Value → Option (String × Items)
longer none key (arr (cons x xs)) = some (key, cons x xs)
longer (some (k, best)) key (arr xs) =
    if ltb (count_items best) (count_items xs) then some (key, xs) else some (k, best)
longer best key v = best

unfoldable pub largest_array_field : Option (String × Items) → Fields → Option (String × Items)
largest_array_field best end = best
largest_array_field best (field k v fs) = largest_array_field (longer best k v) fs

module _ (itoa : ℕ → String) (marshal_size : Fields → Option ℕ) (budget : ℕ) where
  abbrev pub within_budget : Fields → Bool
  within_budget envelope = elim (marshal_size envelope) [ none ↦ false | some n ↦ leb n budget ]

  -- `true` with an envelope that is within the budget.
  unfoldable pub truncate_envelope_data_to_budget : Fields → Fields × Bool
  truncate_envelope_data_to_budget envelope = elim (get "data" envelope) [
    | some (arr items) ↦
        shrink_list_to_budget (set_kept itoa items) within_budget (count_items items) envelope
    | some (obj value) ↦ elim (largest_array_field none value) [
      | none ↦ (envelope, false)
      | some (key, items) ↦
          if key == ""
          then (envelope, false)
          else shrink_list_to_budget (set_kept_field itoa key items) within_budget
              (count_items items) envelope
    ]
    | _ ↦ (envelope, false)
  ]
