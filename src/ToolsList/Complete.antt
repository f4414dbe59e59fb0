-- ===== src/ToolsList/Complete.antt =====
-- A client that follows the cursors of tools/list reads the whole list once, internal/mcp/tools.go.
use go_clockify.Base.{
  ℕ, zero, suc, ◌+◌, ◌-◌, ◌≤◌, ◌<◌, ◌≡◌, refl, sym, ap, ◌∙◌, inl, inr, false, Option, none, some,
  List, [], ◌∷◌, ◌++◌, arith, ltb, ◌==◌, ℕ_eq, String_eq, Bool-cases, length, take, take_all,
  positive_or,
}
use go_clockify.Json.{Value, null, get}
use go_clockify.ToolsList.Build.{
  Tool, Registry, build_tool_list, ensure_cache, cached, set_advertised_tools, Coherent,
}
use go_clockify.ToolsList.Pages.{
  Texts, drop, tools_list_page_size, default_tools_list_page_size, tools_list_page,
  parse_tools_list_cursor, params_of, handle_tools_list, page_at, append_to, read_on, follow,
}

module _ {ℓ} {A : Type ℓ} where
  length-drop : (n : ℕ) (xs : List A) → length (drop n xs) ≡ length xs - n
  length-drop zero xs = omega arith
  length-drop (suc n) [] = omega arith
  length-drop (suc n) (x ∷ xs) = omega (arith, length-drop n xs)

  take-drop : (n : ℕ) (xs : List A) → take n xs ++ drop n xs ≡ xs
  take-drop zero xs = refl
  take-drop (suc n) [] = refl
  take-drop (suc n) (x ∷ xs) = λ i. x ∷ take-drop n xs i

  abbrev no_items : List A
  no_items = []

  drop_nil : (n : ℕ) → drop n no_items ≡ no_items
  drop_nil zero = refl
  drop_nil (suc n) = refl

  drop-drop : (m n : ℕ) (xs : List A) → drop m (drop n xs) ≡ drop (m + n) xs
  drop-drop m zero xs = ap (λ k. drop k xs) (omega arith)
  drop-drop m (suc n) [] = drop_nil m ∙ sym (drop_nil (m + suc n))
  drop-drop m (suc n) (x ∷ xs) =
      let q : suc (m + n) ≡ m + suc n = omega arith in
      drop-drop m n xs ∙ ap (λ k. drop k (x ∷ xs)) q

  -- A page and what is behind it.
  page-rest : (c e : ℕ) (xs : List A) → c ≤ e → take (e - c) (drop c xs) ++ drop e xs ≡ drop c xs
  page-rest c e xs h =
      ap (λ r. take (e - c) (drop c xs) ++ r)
        (ap (λ k. drop k xs) (omega arith) ∙ sym (drop-drop (e - c) c xs))
      ∙ take-drop (e - c) (drop c xs)

  last_page : (c : ℕ) (xs : List A) → take (length xs - c) (drop c xs) ≡ drop c xs
  last_page c xs = take_all (length xs - c) (drop c xs) (omega (arith, length-drop c xs))

-- The two kinds of page.
page_last :
    (size cursor : ℕ) (tools : List Tool)
    → cursor ≤ length tools
    → length tools ≤ cursor + size
    → tools_list_page size tools cursor ≡ record { tools = drop cursor tools; next_cursor = none }
unfolding tools_list_page
page_last size cursor tools l h = ground (arith, last_page cursor tools)

page_more :
    (size cursor : ℕ) (tools : List Tool)
    → cursor + size < length tools
    → tools_list_page size tools cursor
      ≡ record { tools = take size (drop cursor tools); next_cursor = some (cursor + size) }
unfolding tools_list_page
page_more size cursor tools h = ground arith

sized_page :
    (size cursor : ℕ) (tools : List Tool)
    → take size (drop cursor tools) ++ drop (cursor + size) tools ≡ drop cursor tools
sized_page size cursor tools =
    ap (λ k. take k (drop cursor tools) ++ drop (cursor + size) tools) (omega arith)
    ∙ page-rest cursor (cursor + size) tools (omega arith)

cached-Coherent :
    (o : Option (List Tool)) (s : Registry)
    → s.tool_list_cache ≡ o
    → Coherent s
    → ((cached o s).0 ≡ build_tool_list s)
      × Coherent (cached o s).1
      × (build_tool_list (cached o s).1 ≡ build_tool_list s)
      × ((cached o s).1.tools_list_page_size ≡ s.tools_list_page_size)
unfolding Coherent build_tool_list
cached-Coherent none s q c = (refl, λ tools e. ground (arith, e), refl, refl)
cached-Coherent (some tools) s q c = (c tools q, c, refl, refl)

module _ (texts : Texts) (trimmed : (n : ℕ) → texts.trim_space (texts.itoa n) ≡ texts.itoa n)
    (round_trip : (n : ℕ) → texts.atoi (texts.itoa n) ≡ some n)
    (not_empty : (n : ℕ) → (texts.itoa n == "") ≡ false) where
  parse-params_of : (n : ℕ) → parse_tools_list_cursor texts (params_of texts n) ≡ some n
  unfolding parse_tools_list_cursor get
  parse-params_of n = ground (arith, trimmed n, round_trip n, not_empty n)

  abbrev size_of : Registry → ℕ
  size_of s = positive_or default_tools_list_page_size s.tools_list_page_size

  size_positive : (s : Registry) → 0 < size_of s
  size_positive s = ground arith

  follow-from :
      (fuel : ℕ) (raw : Value) (cursor : ℕ) (s : Registry) (tools : List Tool)
      → build_tool_list s ≡ tools
      → Coherent s
      → parse_tools_list_cursor texts raw ≡ some cursor
      → cursor ≤ length tools
      → length tools < cursor + fuel
      → follow texts fuel raw s ≡ some (drop cursor tools)
  unfolding follow handle_tools_list page_at ensure_cache tools_list_page_size
  follow-from zero raw cursor s tools b c q l f = absurd (omega arith)
  follow-from (suc fuel) raw cursor s tools b c q l f =
      let kept = cached-Coherent s.tool_list_cache s refl c in
      let next = (cached s.tool_list_cache s).1 in
      let more = λ (k : ℕ). follow texts fuel (params_of texts k) next in
      ap
        (λ o.
          let a = page_at texts o s in
          read_on texts (λ k. follow texts fuel (params_of texts k) a.1) a.0)
        q
      ∙ ap (λ ts. read_on texts more (some (tools_list_page (size_of s) ts cursor))) (kept.0 ∙ b)
      ∙ (elim (Bool-cases (ltb (cursor + size_of s) (length tools))) [
        | inr e ↦
            ap (λ page. read_on texts more (some page))
              (page_last (size_of s) cursor tools l (ground (arith, e)))
        | inl e ↦
            ap (λ page. read_on texts more (some page))
              (page_more (size_of s) cursor tools (ground (arith, e)))
            ∙ ap (append_to texts (take (size_of s) (drop cursor tools))) (
                follow-from fuel (params_of texts (cursor + size_of s)) (cursor + size_of s) next
                  tools (kept.2 ∙ b) kept.1 (parse-params_of (cursor + size_of s))
                  (ground (arith, e)) (omega (arith, size_positive s)))
            ∙ ap some (sized_page (size_of s) cursor tools)
      ])

  -- From any state whose cache, if it is valid, is what would be built: a client that asks for the
  -- first page and follows the cursors, with one request more than there are tools, reads exactly the
  -- list that would be built, in its order. The cursor that `strconv.Itoa` writes is a text without
  -- spaces that `strconv.Atoi` reads back.
  pub follow_complete :
      (s : Registry)
      → Coherent s
      → follow texts (suc (length (build_tool_list s))) null s ≡ some (build_tool_list s)
  unfolding parse_tools_list_cursor
  follow_complete s c =
      follow-from (suc (length (build_tool_list s))) null 0 s (build_tool_list s) refl c refl
        (omega arith) (omega arith)

-- An answer leaves the cache as it would be built, and a change of the advertised tools too.
pub set_advertised_tools-Coherent :
    (advertised : Option (List Tool)) (s : Registry) → Coherent (set_advertised_tools advertised s)
unfolding set_advertised_tools Coherent
set_advertised_tools-Coherent advertised s tools e = absurd (ground (arith, e))
