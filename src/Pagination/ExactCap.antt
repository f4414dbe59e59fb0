-- ===== src/Pagination/ExactCap.antt =====
-- A scan of runListWithAutoPaginate, internal/tools/helpers_pagination.go, whose pages hold exactly as
-- many rows as the cap.
use go_clockify.Base.{
  ℕ, zero, suc, ◌+◌, ◌<◌, ◌≡◌, refl, ap, ◌∙◌, inl, inr, true, false, List, [], ◌∷◌, ◌++◌, arith,
  leb, ℕ_eq, String_eq, Bool-cases, length, length-append, take_all,
}
use go_clockify.Pagination.Fallible.{Fallible, ok}
use go_clockify.Pagination.AutoPaginate.{Page, is_short, scan_pages, Complete, last, more}
use mathlib.Core.List.{append_assoc, append-nil}

module _ {E T : Type 0} (list : ℕ → Fallible E (Page T)) (max_rows : ℕ) where
  empty : (xs : List T) → length xs ≡ 0 → xs ≡ []
  empty [] e = refl
  empty (x ∷ xs) e = cc

  not_empty : (p : Page T) → is_short p ≡ false → 0 < length p.items
  not_empty p s = ground arith

  scan_full :
      (left number : ℕ) (before : List T) (p : Page T)
      → list number ≡ ok p
      → length (before ++ p.items) ≡ max_rows
      → scan_pages list max_rows (suc left) number before ≡ ok (before ++ p.items, true)
  unfolding scan_pages
  scan_full left number before p q e =
      ground (arith, take_all max_rows (before ++ p.items) (omega arith))

  scan_on :
      (left number : ℕ) (before : List T) (p : Page T)
      → list number ≡ ok p
      → is_short p ≡ false
      → length (before ++ p.items) < max_rows
      → scan_pages list max_rows (suc left) number before
        ≡ scan_pages list max_rows left (number + 1) (before ++ p.items)
  unfolding scan_pages
  scan_on left number before p q s b = ground arith

  -- Where the rows of all pages are exactly as many as the cap, and no scan was cut, the answer still
  -- says that it was truncated.
  scan_pages-exact :
      (left number : ℕ) (before found : List T)
      → Complete list number found
      → length before + length found ≡ max_rows
      → length found < left
      → scan_pages list max_rows left number before ≡ ok (before ++ found, true)
  scan_pages-exact zero number before found c e h = absurd (omega arith)
  scan_pages-exact (suc left) number before found (last _ p q s) e h =
      scan_full left number before p q (omega (arith, length-append before p.items))
  scan_pages-exact (suc left) number before found (more _ p rest q s c) e h =
      elim (Bool-cases (leb max_rows (length (before ++ p.items)))) [
        | inl full ↦
            let none_left : rest ≡ [] =
              empty rest
                (ground (arith, length-append before p.items, length-append p.items rest)) in
            let all_read : p.items ++ rest ≡ p.items =
              ap (λ l. p.items ++ l) none_left ∙ append-nil p.items in
            rw all_read (
              scan_full left number before p q
                (omega (arith, length-append before p.items, ap length all_read)))
        | inr room ↦
            scan_on left number before p q s (ground arith)
            ∙ scan_pages-exact left (number + 1) (before ++ p.items) rest c
                (omega (arith, length-append before p.items, length-append p.items rest))
                (omega (arith, length-append p.items rest, not_empty p s))
            ∙ ap (λ l. ok (l, true)) (append_assoc before p.items rest)
      ]
