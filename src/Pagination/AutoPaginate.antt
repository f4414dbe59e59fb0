-- ===== src/Pagination/AutoPaginate.antt =====
-- `runListWithAutoPaginate`, internal/tools/helpers_pagination.go. The list function asks Clockify
-- for one page: it is any function of the page's number and size, with an error or with rows and the
-- page and page size that it used.
use go_clockify.Base.{
  ℕ, zero, suc, ◌+◌, ◌≤◌, ◌<◌, ◌≡◌, ap, ◌∙◌, ◌⊎◌, inl, inr, Bool, true, false, not, ◌||◌, List, [],
  ◌++◌, arith, ltb, leb, if◌then◌else◌, ◌==◌, ℕ_eq, String_eq, length, take, length-take,
}
use go_clockify.Pagination.Fallible.{Fallible, ok, err, Fallible-cases}
use mathlib.Core.List.{append_assoc}
use mathlib.Core.Bool.{false≢true}
use go_clockify.Pagination.Args.{
  PageArgs, auto_paginate_page_size, list_all_safety_stop_pages, pagination_from_args, max_rows_arg,
  page_args_bounds,
}

pub record Page {ℓ} (T : Type ℓ) : Type ℓ where
  pub items : List T
  pub page : ℕ
  pub page_size : ℕ

pub record Listing {ℓ} (T : Type ℓ) : Type ℓ where
  pub items : List T
  pub page : ℕ
  pub page_size : ℕ
  pub auto_paginated : Bool
  pub truncated : Bool

-- A page is short if it names no page size or has fewer rows than that: no page follows.
abbrev pub is_short {ℓ} : {T : Type ℓ} → Page T → Bool
is_short p = (p.page_size == 0) || ltb (length p.items) p.page_size

abbrev or_requested : ℕ → ℕ → ℕ
or_requested requested n = if n == 0 then requested else n

module _ {ℓ} {E T : Type ℓ} where
  -- The loop over page numbers; the fuel is the pages left before the safety stop.
  unfoldable pub scan_pages :
      (ℕ → Fallible E (Page T)) → ℕ → ℕ → ℕ → List T → Fallible E (List T × Bool)
  scan_pages list max_rows zero number all_rows = ok (all_rows, true)
  scan_pages list max_rows (suc left) number all_rows = elim (list number) [
    | err e ↦ err e
    | ok p ↦
        let more = all_rows ++ p.items in
        let rest = scan_pages list max_rows left (number + 1) more in
        if leb max_rows (length more)
        then ok (take max_rows more, true)
        else if is_short p
        then ok (more, false)
        else rest
  ]

  abbrev finish : ℕ × ℕ → Fallible E (List T × Bool) → Fallible E (Listing T)
  finish (page, page_size) (err e) = err e
  finish (page, page_size) (ok (items, truncated)) = ok (record {
    items = items;
    page = page;
    page_size = page_size;
    auto_paginated = true;
    truncated = truncated;
  })

  abbrev single : ℕ × ℕ → Fallible E (Page T) → Fallible E (Listing T)
  single (page, page_size) (err e) = err e
  single (page, page_size) (ok p) = ok (record {
    items = p.items;
    page = or_requested page p.page;
    page_size = or_requested page_size p.page_size;
    auto_paginated = false;
    truncated = false;
  })

  -- `list` is given the caller's page and page size, or the scan's.
  unfoldable pub run_list_with_auto_paginate :
      PageArgs → (list : ℕ → ℕ → Fallible E (Page T)) → Fallible E (Listing T)
  run_list_with_auto_paginate args list =
      let requested = pagination_from_args args in
      if not args.auto_paginate
      then single requested (list requested.0 requested.1)
      else finish requested (
          scan_pages (λ n. list n auto_paginate_page_size) (max_rows_arg args)
            list_all_safety_stop_pages 1 [])

  -- The rows of pages in a row, as long as each is read and none but the last is short: the
  -- independent description of a complete scan.
  pub data Complete (list : ℕ → Fallible E (Page T)) : ℕ → List T → Type ℓ where
    last :
        (number : ℕ) (p : Page T)
        → list number ≡ ok p
        → is_short p ≡ true
        → Complete list number p.items
    more :
        (number : ℕ) (p : Page T) (rest : List T)
        → list number ≡ ok p
        → is_short p ≡ false
        → Complete list (number + 1) rest
        → Complete list number (p.items ++ rest)

module _ {E T : Type 0} (list : ℕ → Fallible E (Page T)) (max_rows : ℕ) where
  module _ (left number : ℕ) (before items : List T) where
    -- The one way for a page to fail a scan, and the ways for it not to.
    scan_err :
        (e : E) (cut : Bool)
        → list number ≡ err e
        → scan_pages list max_rows (suc left) number before ≡ ok (items, cut)
        → ⊥
    unfolding scan_pages
    scan_err e cut q h = ground arith

    scan_ok :
        (p : Page T) (cut : Bool)
        → list number ≡ ok p
        → scan_pages list max_rows (suc left) number before ≡ ok (items, cut)
        → ((items ≡ take max_rows (before ++ p.items))
            × (cut ≡ true)
            × (max_rows ≤ length (before ++ p.items)))
          ⊎ ((items ≡ before ++ p.items)
              × (cut ≡ false)
              × (is_short p ≡ true)
              × (length (before ++ p.items) < max_rows))
          ⊎ ((is_short p ≡ false)
              × (length (before ++ p.items) < max_rows)
              × (scan_pages list max_rows left (number + 1) (before ++ p.items) ≡ ok (items, cut)))
    unfolding scan_pages
    scan_ok p cut q h = ground arith

  -- A scan that says it is not truncated holds the rows of all pages.
  scan_pages-Complete :
      (left number : ℕ) (before items : List T)
      → scan_pages list max_rows left number before ≡ ok (items, false)
      → (found : List T) × (items ≡ before ++ found) × Complete list number found
  unfolding scan_pages
  scan_pages-Complete zero number before items h = cc
  scan_pages-Complete (suc left) number before items h = elim (Fallible-cases (list number)) [
    | inl (e, q) ↦ absurd (scan_err left number before items e false q h)
    | inr (p, q) ↦ elim (scan_ok left number before items p false q h) [
      | inl full ↦ absurd (false≢true full.1)
      | inr (inl end) ↦ (p.items, end.0, last number p q end.2)
      | inr (inr on) ↦
          let (found, e, c) =
            scan_pages-Complete left (number + 1) (before ++ p.items) items on.2 in
          (p.items ++ found, e ∙ append_assoc before p.items found, more number p found q on.0 c)
    ]
  ]

  pub scan_pages-length :
      (left number : ℕ) (before items : List T) (cut : Bool)
      → length before < max_rows
      → scan_pages list max_rows left number before ≡ ok (items, cut)
      → length items ≤ max_rows
  unfolding scan_pages
  scan_pages-length zero number before items cut b h =
      let e : before ≡ items = cc in rw (← e) (omega arith)
  scan_pages-length (suc left) number before items cut b h = elim (Fallible-cases (list number)) [
    | inl (e, q) ↦ absurd (scan_err left number before items e cut q h)
    | inr (p, q) ↦ elim (scan_ok left number before items p cut q h) [
      | inl full ↦ rw full.0 (omega (arith, length-take max_rows (before ++ p.items)))
      | inr (inl end) ↦ rw end.0 (omega arith)
      | inr (inr on) ↦ scan_pages-length left (number + 1) (before ++ p.items) items cut on.1 on.2
    ]
  ]

-- A scan from the first page on that is not cut has read all pages.
pub all_pages :
    {E T : Type 0} (pages : ℕ → Fallible E (Page T)) (max_rows left : ℕ) (items : List T)
    → scan_pages pages max_rows left 1 [] ≡ ok (items, false)
    → Complete pages 1 items
all_pages pages max_rows left items scan =
    let (found, e, c) = scan_pages-Complete pages max_rows left 1 [] items scan in rw e c

module _ {E T : Type 0} (args : PageArgs) (list : ℕ → ℕ → Fallible E (Page T)) (l : Listing T) where
  -- The scan that a caller's `auto_paginate` starts.
  run_scan :
      args.auto_paginate ≡ true
      → run_list_with_auto_paginate args list ≡ ok l
      → scan_pages
          (λ n. list n auto_paginate_page_size)
          (max_rows_arg args)
          list_all_safety_stop_pages
          1
          []
        ≡ ok (l.items, l.truncated)
  unfolding run_list_with_auto_paginate
  run_scan on h = ground arith

  -- An answer of an auto-paginated list holds at most `max_rows` rows, and never more than 50000; and
  -- one that is not marked truncated holds the rows of all pages, from the first to a short one.
  pub run_list_lem :
      args.auto_paginate ≡ true
      → run_list_with_auto_paginate args list ≡ ok l
      → (length l.items ≤ max_rows_arg args)
        × (length l.items ≤ 50000)
        × (l.truncated ≡ false → Complete (λ n. list n auto_paginate_page_size) 1 l.items)
  run_list_lem on h =
      let pages = λ (n : ℕ). list n auto_paginate_page_size in
      let scan = run_scan on h in
      let bounds = page_args_bounds args in
      let cap =
        scan_pages-length pages (max_rows_arg args) list_all_safety_stop_pages 1 [] l.items
          l.truncated bounds.3 scan in
      (
        cap,
        omega arith,
        λ whole.
            all_pages pages (max_rows_arg args) list_all_safety_stop_pages l.items
              (scan ∙ ap (λ cut. ok (l.items, cut)) whole),
      )
