-- ===== src/Pagination/ToolResults.antt =====
-- `runAutoPaginatedToolResult` and `autoPaginated`, internal/tools/helpers_pagination.go: the scan of
-- a list tool that answers with a whole result for each page. What stands in a result beside its data
-- and the keys of its metadata that the scan writes is kept as it is.
use go_clockify.Base.{
  ℕ, zero, suc, ◌+◌, Bool, true, false, not, ◌&&◌, ◌||◌, Option, none, some, List, [], ◌++◌, ltb,
  leb, if◌then◌else◌, ◌==◌, ℕ_eq, String_eq, length, take, pos,
}
use go_clockify.Pagination.Fallible.{Fallible, ok, err}
use go_clockify.Pagination.Args.{
  PageArgs, auto_paginate_page_size, list_all_safety_stop_pages, max_rows_arg,
}

-- The data of a result, as reflection sees it.
pub data Data (T : Type 0) : Type 0 where
  slice : List T → Data T
  other : Data T

abbrev pub data_rows : {T : Type 0} → Data T → List T
data_rows (slice rows) = rows
data_rows other = []

abbrev pub is_slice : {T : Type 0} → Data T → Bool
is_slice (slice rows) = true
is_slice other = false

-- The keys that the scan writes; `none` and false are absent keys.
pub record ScanMeta : Type 0 where
  pub auto_paginate : Bool
  pub max_rows : Option ℕ
  pub has_more : Option Bool
  pub truncated : Bool
  pub count : Option ℕ

pub record ToolResult (T : Type 0) : Type 0 where
  pub data_of : Data T
  pub meta : ScanMeta

abbrev pub scan_args : PageArgs → ℕ → PageArgs
scan_args args number = record args {
  page = some (pos number);
  page_size = some (pos auto_paginate_page_size);
  auto_paginate = false;
  max_rows = none;
}

-- A batch after which the scan ends.
abbrev pub ends : {T : Type 0} → Data T → Bool
ends batch = not (is_slice batch) || ltb (length (data_rows batch)) auto_paginate_page_size

abbrev pub append_batch : {T : Type 0} → ToolResult T → Data T → ToolResult T
append_batch merged batch = record merged {
  data_of = slice (data_rows merged.data_of ++ data_rows batch);
}

abbrev pub cut_at : {T : Type 0} → ℕ → ToolResult T → ToolResult T
cut_at max_rows merged = record merged {
  data_of = slice (take max_rows (data_rows merged.data_of));
}

-- The zero value of a result.
abbrev pub no_result : {T : Type 0} → ToolResult T
no_result = record {
  data_of = other;
  meta = record {
    auto_paginate = false;
    max_rows = none;
    has_more = none;
    truncated = false;
    count = none;
  };
}

-- What the scan writes into the metadata.
abbrev pub add_auto_paginate_meta : ScanMeta → Bool → Bool → ℕ → ScanMeta
add_auto_paginate_meta meta auto truncated max_rows = if not auto then meta else record meta {
  auto_paginate = true;
  max_rows = some max_rows;
  has_more = some false;
  truncated = if truncated then true else meta.truncated;
}

abbrev pub with_count : {T : Type 0} → ScanMeta → Data T → ScanMeta
with_count meta (slice rows) = record meta { count = some (length rows) }
with_count meta other = meta

module _ {E T : Type 0} where
  -- The loop over page numbers, with what is merged so far; the fuel is the pages left before the
  -- safety stop.
  unfoldable pub scan_results :
      (ℕ → Fallible E (ToolResult T)) → ℕ → ℕ → ℕ → ToolResult T → Fallible E (ToolResult T × Bool)
  scan_results handler max_rows zero number merged = ok (merged, true)
  scan_results handler max_rows (suc left) number merged = elim (handler number) [
    | err e ↦ err e
    | ok partial ↦
        let first = number == 1 in
        let now = if first then partial else append_batch merged partial.data_of in
        let rest = scan_results handler max_rows left (number + 1) now in
        if first && not (is_slice partial.data_of)
        then ok (partial, false)
        else if leb max_rows (length (data_rows now.data_of))
        then ok (cut_at max_rows now, true)
        else if ends partial.data_of
        then ok (now, false)
        else rest
  ]

  abbrev pub stamped : ℕ → Fallible E (ToolResult T × Bool × Bool) → Fallible E (ToolResult T)
  stamped max_rows (err e) = err e
  stamped max_rows (ok (merged, auto, truncated)) =
      if not auto
      then ok merged
      else ok (record merged {
        meta =
            with_count (add_auto_paginate_meta merged.meta true truncated max_rows) merged.data_of;
      })

  abbrev pub scanned : Fallible E (ToolResult T × Bool) → Fallible E (ToolResult T × Bool × Bool)
  scanned (err e) = err e
  scanned (ok (r, cut)) = ok (r, true, cut)

  abbrev pub single_result : Fallible E (ToolResult T) → Fallible E (ToolResult T × Bool × Bool)
  single_result (err e) = err e
  single_result (ok r) = ok (r, false, false)

  module _ (args : PageArgs) (handler : PageArgs → Fallible E (ToolResult T)) where
    -- The result, whether it was auto-paginated, and whether it was truncated.
    unfoldable pub run_auto_paginated_tool_result : Fallible E (ToolResult T × Bool × Bool)
    run_auto_paginated_tool_result =
        if not args.auto_paginate
        then single_result (handler args)
        else scanned (
            scan_results (λ n. handler (scan_args args n)) (max_rows_arg args)
              list_all_safety_stop_pages 1 no_result)

    unfoldable pub auto_paginated : Fallible E (ToolResult T)
    auto_paginated = stamped (max_rows_arg args) run_auto_paginated_tool_result
