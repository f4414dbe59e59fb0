-- ===== src/ToolsList/Pages.antt =====
-- The pages of tools/list and their cursors, internal/mcp/tools.go.
use go_clockify.Base.{
  ℕ, zero, suc, ◌+◌, ◌-◌, String, ◌&&◌, Option, none, some, List, [], ◌∷◌, ◌++◌, ltb, if◌then◌else◌,
  ◌==◌, ℕ_eq, String_eq, length, take, positive_or,
}
use go_clockify.Json.{Value, null, obj, str, field, end, get}
use go_clockify.ToolsList.Build.{Tool, Registry, ensure_cache}

abbrev pub drop {ℓ} : {A : Type ℓ} → ℕ → List A → List A
drop zero xs = xs
drop (suc n) [] = []
drop (suc n) (x ∷ xs) = drop n xs

abbrev pub default_tools_list_page_size : ℕ
default_tools_list_page_size = 80

unfoldable pub tools_list_page_size : Registry → ℕ
tools_list_page_size s = positive_or default_tools_list_page_size s.tools_list_page_size

-- `toolsListResult`; the cursor is the number that `strconv.Itoa` writes.
pub record ToolsListResult : Type 0 where
  pub tools : List Tool
  pub next_cursor : Option ℕ

-- cursor + pageSize, or the whole rest.
abbrev pub page_end : ℕ → ℕ → ℕ → ℕ
page_end size cursor count =
    if ltb size count && ltb (cursor + size) count then cursor + size else count

unfoldable pub tools_list_page : ℕ → List Tool → ℕ → ToolsListResult
tools_list_page size tools cursor =
    let count = length tools in
    let start = if ltb count cursor then count else cursor in
    let finish = page_end size start count in
    record {
      tools = take (finish - start) (drop start tools);
      next_cursor = if ltb finish count then some finish else none;
    }

-- What the code takes from the Go standard library: `strings.TrimSpace`, `strconv.Itoa`, and
-- `strconv.Atoi` where its result is not negative.
pub record Texts : Type 0 where
  pub trim_space : String → String
  pub itoa : ℕ → String
  pub atoi : String → Option ℕ

module _ (texts : Texts) where
  abbrev pub cursor_value : Option Value → Option ℕ
  cursor_value none = some 0
  cursor_value (some null) = some 0
  cursor_value (some (str t)) =
      if texts.trim_space t == "" then none else texts.atoi (texts.trim_space t)
  cursor_value (some v) = none

  unfoldable pub parse_tools_list_cursor : Value → Option ℕ
  parse_tools_list_cursor null = some 0
  parse_tools_list_cursor (obj fs) = cursor_value (get "cursor" fs)
  parse_tools_list_cursor v = none

  unfoldable pub page_at : Option ℕ → Registry → Option ToolsListResult × Registry
  page_at none s = (none, s)
  page_at (some cursor) s =
      let filled = ensure_cache s in
      (some (tools_list_page (tools_list_page_size s) filled.0 cursor), filled.1)

  -- `handleToolsList`: an invalid cursor is error -32602, before the cache is looked at.
  unfoldable pub handle_tools_list : Value → Registry → Option ToolsListResult × Registry
  handle_tools_list raw s = page_at (parse_tools_list_cursor raw) s

  -- The parameters of the request for the next page.
  abbrev pub params_of : ℕ → Value
  params_of cursor = obj (field "cursor" (str (texts.itoa cursor)) end)

  -- What a client makes of an answer, with what it does with a cursor.
  abbrev pub append_to : List Tool → Option (List Tool) → Option (List Tool)
  append_to tools none = none
  append_to tools (some rest) = some (tools ++ rest)

  abbrev pub read_on : (ℕ → Option (List Tool)) → Option ToolsListResult → Option (List Tool)
  read_on next none = none
  read_on next (some page) = elim page.next_cursor [
    | none ↦ some page.tools
    | some cursor ↦ append_to page.tools (next cursor)
  ]

  -- A client that follows the cursors, with fuel for its requests, and what it has read.
  unfoldable pub follow : ℕ → Value → Registry → Option (List Tool)
  follow zero raw s = none
  follow (suc fuel) raw s =
      let answer = handle_tools_list raw s in
      read_on (λ cursor. follow fuel (params_of cursor) answer.1) answer.0
