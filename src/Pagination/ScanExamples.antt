-- ===== src/Pagination/ScanExamples.antt =====
-- A list tool that scans its pages.
use go_clockify.Base.{
  ℕ, zero, suc, ◌≤◌, String, ◌≡◌, refl, true, false, Option, none, some, List, [], ◌∷◌, ◌++◌,
  if◌then◌else◌, ◌==◌, ℕ_eq, String_eq, length, ℤ, pos,
}
use go_clockify.Pagination.Fallible.{Fallible, ok}
use go_clockify.Pagination.Args.{PageArgs, max_rows_arg}
use go_clockify.Pagination.AutoPaginate.{Complete}
use go_clockify.Pagination.ToolResults.{
  Data, slice, other, ToolResult, no_result, scan_args, scan_results,
  run_auto_paginated_tool_result, auto_paginated,
}
use go_clockify.Pagination.MergedRows.{page_in, auto_paginated_lem}

abbrev numbers : ℕ → List ℕ
numbers zero = []
numbers (suc n) = n ∷ numbers n

abbrev whole : PageArgs
whole = record { page = some (pos 4); page_size = none; auto_paginate = true; max_rows = none }

-- A full page and one with two rows.
abbrev data_on : Option ℤ → Data ℕ
data_on (some (pos n)) = slice (if n == 1 then numbers 200 else numbers 2)
data_on number = other

abbrev list_numbers : PageArgs → Fallible String (ToolResult ℕ)
list_numbers args = ok (record { data_of = data_on args.page; meta = (no_result {T = ℕ}).meta })

abbrev all_numbers : List ℕ
all_numbers = numbers 200 ++ numbers 2

abbrev answer : ToolResult ℕ
answer = record {
  data_of = slice all_numbers;
  meta = record {
    auto_paginate = true;
    max_rows = some 5000;
    has_more = some false;
    truncated = false;
    count = some 202;
  };
}

numbers_listed : auto_paginated whole list_numbers ≡ ok answer
unfolding auto_paginated run_auto_paginated_tool_result scan_results max_rows_arg
numbers_listed = refl

auto_paginated_lem_example :
    (length all_numbers ≤ max_rows_arg whole)
    × (length all_numbers ≤ 50000)
    × (answer.meta.count ≡ some (length all_numbers))
    × (answer.meta.has_more ≡ some false)
    × (answer.meta.truncated ≡ false
        → Complete (λ n. page_in (list_numbers (scan_args whole n))) 1 all_numbers)
auto_paginated_lem_example =
    auto_paginated_lem whole list_numbers answer all_numbers refl numbers_listed refl
