-- ===== src/Pagination/Examples.antt =====
-- Concrete pages for the theorems on lists in pages.
use go_clockify.Base.{
  ℕ, ◌*◌, ◌≤◌, String, ◌≡◌, refl, true, false, none, some, List, [], ◌∷◌, arith, if◌then◌else◌,
  ◌==◌, ℕ_eq, String_eq, length, pos, positive_or, ◌≢◌, ◌<◌, inr,
}
use go_clockify.Pagination.Fallible.{Fallible, ok, err}
use go_clockify.Pagination.Args.{
  PageArgs, pagination_from_args, max_rows_arg, auto_paginate_page_size,
}
use go_clockify.Pagination.AutoPaginate.{
  Page, Complete, run_list_with_auto_paginate, run_list_lem, scan_pages,
}
use go_clockify.Pagination.ListAll.{
  AllPages, list_all, list_all-AllPages, default_list_all_max_rows, ListAllError, row_cap_exceeded,
}
use go_clockify.Pagination.Meta.{
  ListMeta, add_pagination_meta, add_pagination_meta_lem, counted, rows_on,
}

-- Seven rows in pages of three, the third page short.
abbrev rows_of : ℕ → List ℕ
rows_of n =
    if n == 1
    then 11 ∷ 12 ∷ 13 ∷ []
    else if n == 2
    then 21 ∷ 22 ∷ 23 ∷ []
    else if n == 3
    then 31 ∷ []
    else []

abbrev seven_rows : ℕ → Fallible String (List ℕ)
seven_rows n = ok (rows_of n)

abbrev read_page : ℕ → ℕ → Fallible String (Page ℕ)
read_page n size = ok (record { items = rows_of n; page = n; page_size = 3 })

abbrev scanned : PageArgs
scanned = record { page = none; page_size = none; auto_paginate = true; max_rows = some (pos 9) }

abbrev seven : List ℕ
seven = 11 ∷ 12 ∷ 13 ∷ 21 ∷ 22 ∷ 23 ∷ 31 ∷ []

seven_listing :
    run_list_with_auto_paginate scanned read_page
    ≡ ok (record {
      items = seven;
      page = 1;
      page_size = 50;
      auto_paginated = true;
      truncated = false;
    })
unfolding run_list_with_auto_paginate pagination_from_args max_rows_arg scan_pages
seven_listing = refl

run_list_lem_example :
    (length seven ≤ max_rows_arg scanned)
    × (length seven ≤ 50000)
    × (false ≡ false → Complete (λ n. read_page n auto_paginate_page_size) 1 seven)
run_list_lem_example =
    run_list_lem scanned read_page
      (record { items = seven; page = 1; page_size = 50; auto_paginated = true; truncated = false })
      refl seven_listing

seven_whole : list_all seven_rows 3 (pos 7) ≡ ok seven
unfolding list_all go_clockify.Pagination.ListAll.list_all_func
    go_clockify.Pagination.ListAll.list_all_loop go_clockify.Pagination.ListAll.page_round
seven_whole = refl

six_capped : list_all seven_rows 3 (pos 6) ≡ err (row_cap_exceeded 7 6 3)
unfolding list_all go_clockify.Pagination.ListAll.list_all_func
    go_clockify.Pagination.ListAll.list_all_loop go_clockify.Pagination.ListAll.page_round
six_capped = refl

list_all-AllPages_example :
    AllPages seven_rows 3 1 seven × (length seven ≤ positive_or default_list_all_max_rows (pos 7))
list_all-AllPages_example = list_all-AllPages seven_rows 3 (pos 7) seven seven_whole

-- The first three of seven rows, with the total from the handler.
abbrev first_three : ListMeta
first_three = record (counted (rows_on 7 1 3)) { total = some 7 }

abbrev first_page : ListMeta
first_page = add_pagination_meta first_three (some 3) 1 3

first_page_more : first_page.has_more ≡ some true
unfolding add_pagination_meta
first_page_more = refl

add_pagination_meta_lem_example :
    ((t : ℕ) → first_page.total ≡ some t → t ≡ 7)
    × (first_three.total ≡ some 7 → first_page.total ≡ some 7)
    × ((t : ℕ) → first_page.total_min ≡ some t → t ≤ 7)
    × (first_page.has_more ≢ none)
    × (first_page.has_more ≡ some false → 7 ≤ 1 * 3)
    × (first_three.total ≡ some 7 → first_page.has_more ≡ some true → 1 * 3 < 7)
add_pagination_meta_lem_example =
    add_pagination_meta_lem 7 1 3 (some 3) first_three (omega arith) (omega arith) (omega arith)
      refl (inr refl) refl refl
