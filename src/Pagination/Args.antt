-- ===== src/Pagination/Args.antt =====
-- The page arguments of list tools, internal/tools/helpers_pagination.go. `intArg` answers with its
-- fallback where a key is absent or holds no number: both are `none` here.
use go_clockify.Base.{
  ℕ, ◌≤◌, Bool, Option, none, some, arith, ltb, if◌then◌else◌, ℕ_eq, String_eq, ℤ, pos, positive_or,
}

pub record PageArgs : Type 0 where
  pub page : Option ℤ
  pub page_size : Option ℤ
  pub auto_paginate : Bool
  pub max_rows : Option ℤ

abbrev pub int_arg : Option ℤ → ℤ → ℤ
int_arg none fallback = fallback
int_arg (some n) fallback = n

abbrev pub default_auto_paginate_max_rows : ℕ
default_auto_paginate_max_rows = 5000

abbrev pub max_auto_paginate_max_rows : ℕ
max_auto_paginate_max_rows = 50000

abbrev pub auto_paginate_page_size : ℕ
auto_paginate_page_size = 200

abbrev pub list_all_safety_stop_pages : ℕ
list_all_safety_stop_pages = 1000

-- max(page, 1), and a page size from 1 to 200.
unfoldable pub pagination_from_args : PageArgs → ℕ × ℕ
pagination_from_args args =
    let size = positive_or 50 (int_arg args.page_size (pos 50)) in
    (positive_or 1 (int_arg args.page (pos 1)), if ltb 200 size then 200 else size)

unfoldable pub max_rows_arg : PageArgs → ℕ
max_rows_arg args =
    let n =
      positive_or default_auto_paginate_max_rows
        (int_arg args.max_rows (pos default_auto_paginate_max_rows)) in
    if ltb max_auto_paginate_max_rows n then max_auto_paginate_max_rows else n

-- Whatever the caller asks for: a page from 1 on, 1 to 200 rows on it, 1 to 50000 rows in a scan.
pub page_args_bounds :
    (args : PageArgs)
    → (1 ≤ (pagination_from_args args).0)
      × (1 ≤ (pagination_from_args args).1)
      × ((pagination_from_args args).1 ≤ 200)
      × (1 ≤ max_rows_arg args)
      × (max_rows_arg args ≤ 50000)
unfolding pagination_from_args max_rows_arg
page_args_bounds args = ground arith
