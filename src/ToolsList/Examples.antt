-- ===== src/ToolsList/Examples.antt =====
-- The theorem on the pages at a concrete input, and runs of the code.
use go_clockify.Base.{
  ℕ, zero, suc, ◌+◌, ◌-◌, String, ◌≡◌, refl, ap, inl, inr, true, false, Option, none, some, List,
  [], ◌∷◌, arith, ◌==◌, beq_iff, ℕ_eq, String_eq, Bool-cases, length, ℤ, pos,
}
use Prim.Native.String.{◌∷◌ as push, count}
use Prim.Native.String.count
use go_clockify.Json.{null, obj, str, field, end, get}
use go_clockify.ToolsList.Build.{
  Tool, ToolDescriptor, Registry, items_of, place, sort_items, build_tool_list, Coherent,
}
use go_clockify.ToolsList.Pages.{Texts, parse_tools_list_cursor, page_at, handle_tools_list, follow}
use go_clockify.ToolsList.Complete.{follow_complete}

-- Numbers as strokes, one more than the number.
strokes : ℕ → String
strokes zero = push "I" ""
strokes (suc n) = push "I" (strokes n)

abbrev stroke_texts : Texts
stroke_texts = record { trim_space = λ s. s; itoa = strokes; atoi = λ s. some (count s - 1) }

count_strokes : (n : ℕ) → count (strokes n) ≡ n + 1
unfolding strokes
count_strokes zero = count.cons "I" ""
count_strokes (suc n) = omega (arith, count.cons "I" (strokes n), count_strokes n)

strokes_round_trip : (n : ℕ) → stroke_texts.atoi (stroke_texts.itoa n) ≡ some n
strokes_round_trip n =
    let q : count (strokes n) - 1 ≡ n = omega (arith, count_strokes n) in ap some q

strokes_not_empty : (n : ℕ) → (stroke_texts.itoa n == "") ≡ false
unfolding strokes
strokes_not_empty zero = refl
strokes_not_empty (suc n) = elim (Bool-cases (strokes (suc n) == "")) [
  | inr q ↦ q
  | inl q ↦
      let e : count (strokes (suc n)) ≡ 0 = ap count ((beq_iff (strokes (suc n)) "").0 q) in
      absurd (omega (arith, e, count_strokes (suc n)))
]

abbrev tool : String → Option ℤ → Tool
tool name priority = record { name = name; priority = priority; output_schema = null }

abbrev full : Tool → ToolDescriptor
full t = record { tool = t; advertise_output_schema = true }

-- Three tools, of which one comes first by its priority, listed two by two.
abbrev three_tools : Registry
three_tools = record {
  tools =
      ("b", full (tool "b" none))
      ∷ ("a", full (tool "a" none))
      ∷ ("z", full (tool "z" (some (pos 1))))
      ∷ [];
  advertised_tools = none;
  tools_list_page_size = pos 2;
  tool_list_cache = none;
}

abbrev in_order : List Tool
in_order = tool "z" (some (pos 1)) ∷ tool "a" none ∷ tool "b" none ∷ []

three_in_order : build_tool_list three_tools ≡ in_order
unfolding build_tool_list items_of sort_items place
three_in_order = refl

follow_complete_example :
    follow stroke_texts (suc (length (build_tool_list three_tools))) null three_tools
    ≡ some (build_tool_list three_tools)
unfolding Coherent
follow_complete_example =
    follow_complete stroke_texts (λ n. refl) strokes_round_trip strokes_not_empty three_tools
      (λ tools e. absurd (ground (arith, e)))

-- A cursor that is no number of a page is refused.
blank_refused :
    (handle_tools_list stroke_texts (obj (field "cursor" (str "") end)) three_tools).0 ≡ none
unfolding handle_tools_list parse_tools_list_cursor get page_at
blank_refused = refl
