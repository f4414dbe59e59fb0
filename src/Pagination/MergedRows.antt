-- ===== src/Pagination/MergedRows.antt =====
-- What a list tool that scans its pages answers, `autoPaginated` of internal/tools/helpers_pagination.go:
-- its scan reads the rows that a scan of pages reads.
use go_clockify.Base.{
  ℕ, zero, suc, ◌+◌, ◌≤◌, ◌<◌, ◌≡◌, refl, sym, ap, ◌∙◌, inl, inr, Bool, true, false, some, List, [],
  arith, if◌then◌else◌, ℕ_eq, String_eq, Bool-cases, length,
}
use go_clockify.Pagination.Fallible.{Fallible, ok, err, Fallible-cases}
use go_clockify.Pagination.Args.{
  PageArgs, auto_paginate_page_size, list_all_safety_stop_pages, max_rows_arg, page_args_bounds,
}
use go_clockify.Pagination.AutoPaginate.{Page, scan_pages, Complete, all_pages, scan_pages-length}
use go_clockify.Pagination.ToolResults.{
  slice, data_rows, is_slice, ToolResult, scan_args, append_batch, no_result, scan_results,
  run_auto_paginated_tool_result, auto_paginated,
}

module _ {E T : Type 0} where
  -- The page that a result holds.
  abbrev pub page_in : Fallible E (ToolResult T) → Fallible E (Page T)
  page_in (err e) = err e
  page_in (ok r) = ok (record {
    items = data_rows r.data_of;
    page = 0;
    page_size = if is_slice r.data_of then auto_paginate_page_size else 0;
  })

  abbrev rows_in : Fallible E (ToolResult T × Bool) → Fallible E (List T × Bool)
  rows_in (err e) = err e
  rows_in (ok (r, cut)) = ok (data_rows r.data_of, cut)

  -- After the first page, the scan of results reads the rows that the scan of pages reads.
  scan_results_later :
      (handler : ℕ → Fallible E (ToolResult T)) (max_rows left number : ℕ) (merged : ToolResult T)
      → 1 < number
      → rows_in (scan_results handler max_rows left number merged)
        ≡ scan_pages (λ n. page_in (handler n)) max_rows left number (data_rows merged.data_of)
  unfolding scan_results scan_pages
  scan_results_later handler max_rows zero number merged h = refl
  scan_results_later handler max_rows (suc left) number merged h =
      elim (Fallible-cases (handler number)) [
        | inl (e, q) ↦ ground (arith, q)
        | inr (p, q) ↦ ground (
          arith,
          q,
          scan_results_later handler max_rows left (number + 1) (append_batch merged p.data_of)
              (omega arith),
        )
      ]

  -- So it does from the first page on, if that one holds rows.
  scan_results_first :
      (handler : ℕ → Fallible E (ToolResult T)) (max_rows left : ℕ) (merged p : ToolResult T)
      → handler 1 ≡ ok p
      → is_slice p.data_of ≡ true
      → rows_in (scan_results handler max_rows (suc left) 1 merged)
        ≡ scan_pages (λ n. page_in (handler n)) max_rows (suc left) 1 []
  unfolding scan_results scan_pages
  scan_results_first handler max_rows left merged p q s =
      ground (arith, q, s, scan_results_later handler max_rows left 2 p (omega arith))

  scan_rows :
      (handler : ℕ → Fallible E (ToolResult T)) (max_rows left : ℕ) (merged r : ToolResult T)
      (rows : List T) (cut : Bool)
      → scan_results handler max_rows (suc left) 1 merged ≡ ok (r, cut)
      → r.data_of ≡ slice rows
      → scan_pages (λ n. page_in (handler n)) max_rows (suc left) 1 [] ≡ ok (rows, cut)
  unfolding scan_results
  scan_rows handler max_rows left merged r rows cut h d = elim (Fallible-cases (handler 1)) [
    | inl (e, q) ↦ ground (arith, q, h)
    | inr (p, q) ↦ elim (Bool-cases (is_slice p.data_of)) [
      | inl s ↦
          sym (scan_results_first handler max_rows left merged p q s)
          ∙ ap rows_in h
          ∙ ap (λ x. ok (data_rows x, cut)) d
      | inr s ↦ ground (arith, q, h, s, d)
    ]
  ]

  module _ (args : PageArgs) (handler : PageArgs → Fallible E (ToolResult T)) where
    run_results :
        (r : ToolResult T) (scan cut : Bool)
        → args.auto_paginate ≡ true
        → run_auto_paginated_tool_result args handler ≡ ok (r, scan, cut)
        → scan_results
            (λ n. handler (scan_args args n))
            (max_rows_arg args)
            list_all_safety_stop_pages
            1
            no_result
          ≡ ok (r, cut)
    unfolding run_auto_paginated_tool_result
    run_results r scan cut on h = ground arith

    -- The rows of a scan are within the cap, and if it was not cut, they are those of all pages.
    run_auto_paginated_tool_result_lem :
        (r : ToolResult T) (rows : List T) (scan cut : Bool)
        → args.auto_paginate ≡ true
        → run_auto_paginated_tool_result args handler ≡ ok (r, scan, cut)
        → r.data_of ≡ slice rows
        → (length rows ≤ max_rows_arg args)
          × (length rows ≤ 50000)
          × (cut ≡ false → Complete (λ n. page_in (handler (scan_args args n))) 1 rows)
    run_auto_paginated_tool_result_lem r rows scan cut on h d =
        let pages = λ (n : ℕ). page_in (handler (scan_args args n)) in
        let read =
          scan_rows (λ n. handler (scan_args args n)) (max_rows_arg args) 999 no_result r rows cut
            (run_results r scan cut on h) d in
        let bounds = page_args_bounds args in
        let cap = scan_pages-length pages (max_rows_arg args) 1000 1 [] rows cut bounds.3 read in
        (
          cap,
          omega arith,
          λ whole.
              all_pages pages (max_rows_arg args) 1000 rows (read ∙ ap (λ b. ok (rows, b)) whole),
        )

    run_scans :
        (r : ToolResult T) (scan cut : Bool)
        → args.auto_paginate ≡ true
        → run_auto_paginated_tool_result args handler ≡ ok (r, scan, cut)
        → scan ≡ true
    unfolding run_auto_paginated_tool_result
    run_scans r scan cut on h = ground arith

    stamped_ok :
        (r p : ToolResult T) (rows : List T) (scan cut : Bool)
        → scan ≡ true
        → run_auto_paginated_tool_result args handler ≡ ok (p, scan, cut)
        → auto_paginated args handler ≡ ok r
        → r.data_of ≡ slice rows
        → (p.data_of ≡ slice rows)
          × (r.meta.count ≡ some (length rows))
          × (r.meta.has_more ≡ some false)
          × (r.meta.truncated ≡ false → cut ≡ false)
    unfolding auto_paginated
    stamped_ok r p rows scan cut on q h d = ground arith

    stamped_err :
        (r : ToolResult T) (e : E)
        → run_auto_paginated_tool_result args handler ≡ err e
        → auto_paginated args handler ≡ ok r
        → ⊥
    unfolding auto_paginated
    stamped_err r e q h = ground arith

    -- Where a list tool scans its pages and answers with rows: they are at most `max_rows`, and never
    -- more than 50000; its metadata counts them, and its has_more is false, whether the scan was truncated
    -- or not; and if it is not marked truncated, they are the rows of all pages, from the first to one with
    -- fewer than 200 rows or with none to read.
    pub auto_paginated_lem :
        (r : ToolResult T) (rows : List T)
        → args.auto_paginate ≡ true
        → auto_paginated args handler ≡ ok r
        → r.data_of ≡ slice rows
        → (length rows ≤ max_rows_arg args)
          × (length rows ≤ 50000)
          × (r.meta.count ≡ some (length rows))
          × (r.meta.has_more ≡ some false)
          × (r.meta.truncated ≡ false → Complete (λ n. page_in (handler (scan_args args n))) 1 rows)
    auto_paginated_lem r rows on h d =
        elim (Fallible-cases (run_auto_paginated_tool_result args handler)) [
          | inl (e, q) ↦ absurd (stamped_err r e q h)
          | inr ((p, scan, cut), q) ↦
              let (read, count, has_more, whole) =
                stamped_ok r p rows scan cut (run_scans p scan cut on q) q h d in
              let found = run_auto_paginated_tool_result_lem p rows scan cut on q read in
              (found.0, found.1, count, has_more, λ unmarked. found.2 (whole unmarked))
        ]
