-- ===== src/SizeGuard/Result.antt =====
-- The whole answer of a tool, `toolResultEnvelopeGuarded` of internal/mcp/response_size_guard.go and
-- `toolResultEnvelope` of internal/mcp/server.go. A text is the list of its bytes; `marshal` is
-- `json.Marshal`, with no text for an error, and `decode` reads a text into a map, if it holds one.
use go_clockify.Base.{
  ℕ, suc, ◌≤◌, String, ◌≡◌, refl, sym, ◌∙◌, ◌⊎◌, inl, inr, Bool, true, false, ◌||◌, Option, none,
  some, List, [], ◌∷◌, arith, leb, if◌then◌else◌, ◌==◌, ℕ_eq, String_eq, Bool-cases, length, ℤ, pos,
  positive_or,
}
use mathlib.Core.Bool.{false≢true}
use go_clockify.Json.{Value, bool, num, str, arr, obj, Items, Fields, end, field, get}
use go_clockify.SizeGuard.Envelope.{
  count_items, set_kept, within_budget, truncate_envelope_data_to_budget,
}
use go_clockify.SizeGuard.Overwrite.{truncate_envelope_lem}

-- `content[0].text`, and `structuredContent` if there is any.
pub record ToolResult : Type 0 where
  pub text : List ℕ
  pub structured : Option (List ℕ)

abbrev is_space : ℕ → Bool
is_space b = (b == 32) || (b == 10) || (b == 13) || (b == 9)

unfoldable pub json_object_raw : List ℕ → Bool
json_object_raw [] = false
json_object_raw (b ∷ raw) = let rest = json_object_raw raw in if is_space b then rest else b == b'{'

unfoldable pub tool_result_envelope_from_raw : List ℕ → ToolResult
tool_result_envelope_from_raw raw = record {
  text = raw;
  structured = if json_object_raw raw then some raw else none;
}

-- The error text of a failed marshalling is a parameter.
module _ (error_text : List ℕ) (marshal : Value → Option (List ℕ)) where
  unfoldable pub tool_result_envelope : Value → ToolResult
  tool_result_envelope v = elim (marshal v) [
    | none ↦ record { text = error_text; structured = none }
    | some raw ↦ tool_result_envelope_from_raw raw
  ]

  module _ (itoa : ℕ → String) (message : String → ℕ → ℕ → String)
      (decode : List ℕ → Option Fields) where
    -- `message` is what `fmt.Sprintf` makes of the tool's name, the bytes and the budget.
    unfoldable pub result_too_large_envelope : String → ℕ → ℕ → Fields
    result_too_large_envelope tool_name actual_bytes budget = field "ok" (bool false) (
        field "action" (str tool_name) (
          field "error"
            (obj (
              field "code" (str "result_too_large")
                (field "message" (str (message tool_name actual_bytes budget)) end)))
            (field "recovery"
              (obj (
                field "hint"
                  (str
                    "Retry with narrower filters, a lower page_size or max_rows value, or a more specific get/list tool.")
                  (field "retryable" (bool true) end)))
              (field "meta"
                (obj (
                  field "resultBytes" (num (itoa actual_bytes)) (
                    field "maxToolResultBytes" (num (itoa budget)) (
                      field "size_capped" (bool true) (
                        field "truncationAttempted" (bool true)
                          (field "truncationSuccessful" (bool false) end))))))
                end))))

    abbrev pub marshal_size : Fields → Option ℕ
    marshal_size envelope = elim (marshal (obj envelope)) [
      | none ↦ none
      | some raw ↦ some (length raw)
    ]

    abbrev pub refused : String → List ℕ → ℕ → ToolResult
    refused tool_name raw budget =
        tool_result_envelope (obj (result_too_large_envelope tool_name (length raw) budget))

    abbrev shrunk : String → List ℕ → ℕ → Fields × Bool → ToolResult
    shrunk tool_name raw budget (envelope, true) = tool_result_envelope (obj envelope)
    shrunk tool_name raw budget (envelope, false) = refused tool_name raw budget

    -- A budget of zero or less is no cap.
    unfoldable pub guard_raw : String → List ℕ → ℕ → ToolResult
    guard_raw tool_name raw budget =
        if (budget == 0) || leb (length raw) budget
        then tool_result_envelope_from_raw raw
        else elim (decode raw) [
          | none ↦ refused tool_name raw budget
          | some envelope ↦
              shrunk tool_name raw budget
                (truncate_envelope_data_to_budget itoa marshal_size budget envelope)
        ]

    unfoldable pub tool_result_envelope_guarded : String → Value → ℤ → ToolResult
    tool_result_envelope_guarded tool_name result budget = elim (marshal result) [
      | none ↦ record { text = error_text; structured = none }
      | some raw ↦ guard_raw tool_name raw (positive_or 0 budget)
    ]

    fits_text :
        (budget : ℕ) (envelope : Fields)
        → within_budget itoa marshal_size budget envelope ≡ true
        → length (tool_result_envelope (obj envelope)).text ≤ budget
    unfolding tool_result_envelope tool_result_envelope_from_raw
    fits_text budget envelope h = ground arith

    shrunk_cases :
        (tool_name : String) (raw : List ℕ) (budget : ℕ) (cut : Fields × Bool)
        → (cut.1 ≡ true → within_budget itoa marshal_size budget cut.0 ≡ true)
        → (length (shrunk tool_name raw budget cut).text ≤ budget)
          ⊎ (shrunk tool_name raw budget cut ≡ refused tool_name raw budget)
    shrunk_cases tool_name raw budget (envelope, true) fits =
        inl (fits_text budget envelope (fits refl))
    shrunk_cases tool_name raw budget (envelope, false) fits = inr refl

    module _ (tool_name : String) (raw : List ℕ) (budget : ℕ) (envelope : Fields)
        (items : Items) where
      small_raw :
          leb (length raw) budget ≡ true → length (guard_raw tool_name raw budget).text ≤ budget
      unfolding guard_raw tool_result_envelope_from_raw
      small_raw h = ground arith

      large_raw :
          decode raw ≡ some envelope
          → 1 ≤ budget
          → leb (length raw) budget ≡ false
          → guard_raw tool_name raw budget
            ≡ shrunk tool_name raw budget
                (truncate_envelope_data_to_budget itoa marshal_size budget envelope)
      unfolding guard_raw
      large_raw d b h = ground arith

      guard_raw-cases :
          decode raw ≡ some envelope
          → ((truncate_envelope_data_to_budget itoa marshal_size budget envelope).1 ≡ true
              → within_budget itoa marshal_size budget
                  (truncate_envelope_data_to_budget itoa marshal_size budget envelope).0
                ≡ true)
          → 1 ≤ budget
          → (length (guard_raw tool_name raw budget).text ≤ budget)
            ⊎ (guard_raw tool_name raw budget ≡ refused tool_name raw budget)
      guard_raw-cases d fits some_budget = elim (Bool-cases (leb (length raw) budget)) [
        | inl small ↦ inl (small_raw small)
        | inr large ↦ rw (large_raw d some_budget large) (
            shrunk_cases tool_name raw budget
              (truncate_envelope_data_to_budget itoa marshal_size budget envelope) fits)
      ]

      cut_fits :
          ((k : ℕ)
            → within_budget itoa marshal_size budget (set_kept itoa items (suc k) envelope) ≡ true
            → within_budget itoa marshal_size budget (set_kept itoa items k envelope) ≡ true)
          → get "data" envelope ≡ some (arr items)
          → 2 ≤ count_items items
          → (truncate_envelope_data_to_budget itoa marshal_size budget envelope).1 ≡ true
          → within_budget itoa marshal_size budget
              (truncate_envelope_data_to_budget itoa marshal_size budget envelope).0
            ≡ true
      cut_fits shrinks listed two done =
          elim (truncate_envelope_lem itoa marshal_size budget envelope items shrinks listed two) [
            | inl (t, kept, l, h, e, fits, best) ↦ fits
            | inr (f, e, none_fits) ↦ absurd (false≢true (sym f ∙ done))
          ]

      guarded_raw :
          (result : Value)
          → marshal result ≡ some raw
          → 1 ≤ budget
          → tool_result_envelope_guarded tool_name result (pos budget)
            ≡ guard_raw tool_name raw budget
      unfolding tool_result_envelope_guarded
      guarded_raw result m b = ground arith

      -- Under a positive budget, the answer of a list tool with at least two rows is within the budget,
      -- or it is the refusal that names the size: it is never sent too large. `decode` reads back what
      -- the tool answered, and a row more never makes an envelope small enough that was too large.
      pub guarded-fits :
          (result : Value)
          → marshal result ≡ some raw
          → decode raw ≡ some envelope
          → get "data" envelope ≡ some (arr items)
          → 2 ≤ count_items items
          → 1 ≤ budget
          → ((k : ℕ)
              → within_budget itoa marshal_size budget (set_kept itoa items (suc k) envelope) ≡ true
              → within_budget itoa marshal_size budget (set_kept itoa items k envelope) ≡ true)
          → (length (tool_result_envelope_guarded tool_name result (pos budget)).text ≤ budget)
            ⊎ (tool_result_envelope_guarded tool_name result (pos budget)
                ≡ refused tool_name raw budget)
      guarded-fits result m d listed two b shrinks =
          rw (guarded_raw result m b) (guard_raw-cases d (cut_fits shrinks listed two) b)
