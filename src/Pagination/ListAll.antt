-- ===== src/Pagination/ListAll.antt =====
-- `ListAllWithOptions` and `ListAllFuncWithOptions`, internal/clockify/client.go. A request for a page
-- is any function of its number; `page_size` is what `atoiDefault` reads from the query, at least 1.
use go_clockify.Base.{
  ℕ, zero, suc, ◌+◌, ◌≡◌, Bool, true, false, not, ◌||◌, List, [], ◌∷◌, ◌++◌, ltb, if◌then◌else◌,
  ◌==◌, ℕ_eq, String_eq, length, ℤ, positive_or, arith, ◌≤◌, ◌⊎◌, inl, inr, length-append, ◌∙◌,
}
use go_clockify.Pagination.Fallible.{Fallible, ok, err, Fallible-cases}
use mathlib.Core.List.{append_assoc, append-nil}

pub data ListAllError (E : Type 0) : Type 0 where
  request_failed : E → ListAllError E
  row_cap_exceeded : (rows_scanned max_rows page : ℕ) → ListAllError E
  safety_stop : ListAllError E
  callback_failed : E → ListAllError E

abbrev pub default_list_all_max_rows : ℕ
default_list_all_max_rows = 5000

abbrev pub list_all_safety_stop_pages : ℕ
list_all_safety_stop_pages = 1000

module _ {E T S : Type 0} (get : ℕ → Fallible E (List T)) (on_page : S → List T → Fallible E S)
    (page_size max_rows : ℕ) where
  abbrev call : S → List T → Fallible (ListAllError E) S
  call s [] = ok s
  call s (x ∷ batch) = elim (on_page s (x ∷ batch)) [
    | ok s' ↦ ok s'
    | err e ↦ err (callback_failed e)
  ]

  -- The round of one page, up to the question whether another follows: `true` if the page was full.
  unfoldable pub page_round : ℕ → ℕ → S → List T → Fallible (ListAllError E) (S × Bool)
  page_round page scanned s batch =
      if ltb max_rows scanned
      then err (row_cap_exceeded scanned max_rows page)
      else elim (call s batch) [
        | err e ↦ err e
        | ok s' ↦ ok (s', not ((length batch == 0) || ltb (length batch) page_size))
      ]

  -- The `for` loop, with fuel for the pages before the safety stop.
  unfoldable pub list_all_loop : ℕ → ℕ → ℕ → S → Fallible (ListAllError E) S
  list_all_loop zero page scanned s = err safety_stop
  list_all_loop (suc left) page scanned s = elim (get page) [
    | err e ↦ err (request_failed e)
    | ok batch ↦ elim (page_round page (scanned + length batch) s batch) [
      | err e ↦ err e
      | ok (s', full) ↦ elim full [
        | false ↦ ok s'
        | true ↦ list_all_loop left (page + 1) (scanned + length batch) s'
      ]
    ]
  ]

  -- Page 1 to page 1000; the code finds the stop reached after a full page 1000, and so does the
  -- loop when its fuel is out.
  unfoldable pub list_all_func : S → Fallible (ListAllError E) S
  list_all_func s = list_all_loop list_all_safety_stop_pages 1 0 s

-- `ListAllWithOptions`: the callback appends, and cannot fail.
unfoldable pub list_all :
    {E T : Type 0} → (ℕ → Fallible E (List T)) → ℕ → ℤ → Fallible (ListAllError E) (List T)
list_all get page_size max_rows =
    list_all_func get (λ all_rows batch. ok (all_rows ++ batch)) page_size
      (positive_or default_list_all_max_rows max_rows) []

module _ {E T : Type 0} (get : ℕ → Fallible E (List T)) (page_size : ℕ) where
  -- The rows of the pages from a number on: every page but the last is full, the last is not.
  pub data AllPages : ℕ → List T → Type 0 where
    last :
        (page : ℕ) (batch : List T)
        → get page ≡ ok batch
        → ((length batch == 0) || ltb (length batch) page_size) ≡ true
        → AllPages page batch
    more :
        (page : ℕ) (batch rest : List T)
        → get page ≡ ok batch
        → ((length batch == 0) || ltb (length batch) page_size) ≡ false
        → AllPages (page + 1) rest
        → AllPages page (batch ++ rest)

module _ {E T : Type 0} (get : ℕ → Fallible E (List T)) (page_size max_rows : ℕ) where
  abbrev append : List T → List T → Fallible E (List T)
  append all_rows batch = ok (all_rows ++ batch)

  abbrev scan : ℕ → ℕ → ℕ → List T → Fallible (ListAllError E) (List T)
  scan = list_all_loop get append page_size max_rows

  module _ (left page scanned : ℕ) (before rows : List T) where
    loop_err : (e : E) → get page ≡ err e → scan (suc left) page scanned before ≡ ok rows → ⊥
    unfolding list_all_loop page_round
    loop_err e q h = ground arith

    loop_ok :
        (batch : List T)
        → get page ≡ ok batch
        → scan (suc left) page scanned before ≡ ok rows
        → (scanned + length batch ≤ max_rows)
          × (((rows ≡ before ++ batch)
                × (((length batch == 0) || ltb (length batch) page_size) ≡ true))
              ⊎ ((((length batch == 0) || ltb (length batch) page_size) ≡ false)
                  × (scan left (page + 1) (scanned + length batch) (before ++ batch) ≡ ok rows)))
    unfolding list_all_loop page_round
    loop_ok [] q h = ground (arith, append-nil before)
    loop_ok (x ∷ xs) q h = ground arith

  list_all_loop-AllPages :
      (left page scanned : ℕ) (before rows : List T)
      → length before ≡ scanned
      → scan left page scanned before ≡ ok rows
      → (found : List T) × (rows ≡ before ++ found)
        × AllPages get page_size page found
        × (length rows ≤ max_rows)
  unfolding list_all_loop
  list_all_loop-AllPages zero page scanned before rows l h = absurd (cc)
  list_all_loop-AllPages (suc left) page scanned before rows l h =
      elim (Fallible-cases (get page)) [
        | inl (e, q) ↦ absurd (loop_err left page scanned before rows e q h)
        | inr (batch, q) ↦
            let (b, outcome) = loop_ok left page scanned before rows batch q h in
            elim outcome [
              | inl end ↦ (
                batch,
                end.0,
                last page batch q end.1,
                rw end.0 (omega (arith, length-append before batch)),
              )
              | inr on ↦
                  let (found, e, c, n) =
                    list_all_loop-AllPages left (page + 1) (scanned + length batch)
                      (before ++ batch) rows (omega (arith, length-append before batch)) on.1 in
                  (
                    batch ++ found,
                    e ∙ append_assoc before batch found,
                    more page batch found q on.0 c,
                    n,
                  )
            ]
      ]

-- A list that is fetched whole holds the rows of all pages, from the first to one that is not full,
-- and no more rows than the cap: a list is never cut.
pub list_all-AllPages :
    {E T : Type 0} (get : ℕ → Fallible E (List T)) (page_size : ℕ) (max_rows : ℤ) (rows : List T)
    → list_all get page_size max_rows ≡ ok rows
    → AllPages get page_size 1 rows × (length rows ≤ positive_or default_list_all_max_rows max_rows)
unfolding list_all list_all_func
list_all-AllPages get page_size max_rows rows h =
    let (found, e, c, n) =
      list_all_loop-AllPages get page_size (positive_or default_list_all_max_rows max_rows)
        list_all_safety_stop_pages 1 0 [] rows (omega arith) h in
    (rw e c, n)
