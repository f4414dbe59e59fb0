-- ===== src/Pagination/Meta.antt =====
-- The page metadata of a list answer, `addPaginationMeta` of internal/tools/helpers_pagination.go.
use go_clockify.Base.{
  ℕ, ◌+◌, ◌-◌, ◌*◌, ◌≤◌, ◌<◌, ◌≡◌, ap, ◌≢◌, ◌⊎◌, inl, inr, Bool, true, false, not, Option, none,
  some, arith, ltb, if◌then◌else◌, ◌==◌, ℕ_eq, String_eq,
}

-- The keys that the function reads and writes; `none` is an absent key.
pub record ListMeta : Type 0 where
  pub count : Option ℕ
  pub total : Option ℕ
  pub total_min : Option ℕ
  pub total_is_lower_bound : Bool
  pub has_more : Option Bool
  pub page : ℕ
  pub page_size : ℕ
  pub requested_page_size : Option ℕ
  pub clamped : Bool

-- The total as the handler reported it, or as far as the count of this page's rows tells.
abbrev with_total : ListMeta → ℕ → ℕ → ListMeta
with_total m page page_size = elim m.total [
  | some t ↦ m
  | none ↦ elim m.count [
    | none ↦ m
    | some count ↦
        let total = (page - 1) * page_size + count in
        if count == page_size
        then record m { total_min = some total; total_is_lower_bound = true }
        else record m { total = some total }
  ]
]

-- `hasTotal` is about the total that was there before.
abbrev more_of : Option ℕ → ℕ → ℕ → ℕ → Bool
more_of none count page page_size = count == page_size
more_of (some t) count page page_size = ltb (page * page_size) t

abbrev with_has_more : Option ℕ → ListMeta → ℕ → ℕ → ListMeta
with_has_more total m page page_size = elim m.has_more [
  | some b ↦ m
  | none ↦ elim m.count [
    | none ↦ m
    | some count ↦ record m { has_more = some (more_of total count page page_size) }
  ]
]

-- `requested` is the caller's `page_size`, if given.
unfoldable pub add_pagination_meta : ListMeta → Option ℕ → ℕ → ℕ → ListMeta
add_pagination_meta m requested page page_size =
    let m' = with_has_more m.total (with_total m page page_size) page page_size in
    record m' {
      page = page;
      page_size = page_size;
      requested_page_size = requested;
      clamped = elim requested [ none ↦ false | some r ↦ not (r == page_size) ];
    }

-- How many of n rows stand on a page.
abbrev pub rows_on : ℕ → ℕ → ℕ → ℕ
rows_on n page page_size =
    let rest = n - (page - 1) * page_size in if ltb page_size rest then page_size else rest

-- A list answer that knows the number of its rows and nothing of the whole.
abbrev pub counted : ℕ → ListMeta
counted count = record {
  count = some count;
  total = none;
  total_min = none;
  total_is_lower_bound = false;
  has_more = none;
  page = 0;
  page_size = 0;
  requested_page_size = none;
  clamped = false;
}

-- The metadata of a page of a list of n rows that does not begin behind their end, where a handler gave
-- the count of the page's rows and no more, or with it the total n: a total, if one is claimed, is n, and
-- a given one stays; a lower bound is at most n; whether more follow is said, and where it is said that
-- none do there are none; and with a given total, it is said that more follow only if there are more.
pub add_pagination_meta_lem :
    (n page page_size : ℕ) (requested : Option ℕ) (given : ListMeta)
    → 1 ≤ page
    → 1 ≤ page_size
    → (page - 1) * page_size ≤ n
    → given.count ≡ some (rows_on n page page_size)
    → (given.total ≡ none) ⊎ (given.total ≡ some n)
    → given.total_min ≡ none
    → given.has_more ≡ none
    → let m = add_pagination_meta given requested page page_size in
      ((t : ℕ) → m.total ≡ some t → t ≡ n)
      × (given.total ≡ some n → m.total ≡ some n)
      × ((t : ℕ) → m.total_min ≡ some t → t ≤ n)
      × (m.has_more ≢ none)
      × (m.has_more ≡ some false → n ≤ page * page_size)
      × (given.total ≡ some n → m.has_more ≡ some true → page * page_size < n)
unfolding add_pagination_meta
add_pagination_meta_lem n page page_size requested given p s h c k l m =
    let next : page ≡ (page - 1) + 1 = omega arith in
    let end : page * page_size ≡ (page - 1) * page_size + page_size =
      omega (arith, ap (λ k. k * page_size) next) in
    elim k [
      | inl none_given ↦ (
        λ t e. ground (arith, c, none_given),
        λ e. ground (arith, e, none_given),
        λ t e. ground (arith, c, l, none_given),
        λ e. ground (arith, e, c, m, none_given),
        λ e. ground (arith, e, c, m, none_given, end),
        λ g e. ground (arith, g, none_given),
      )
      | inr total ↦ (
        λ t e. ground (arith, e, total),
        λ e. ground (arith, total),
        λ t e. ground (arith, e, l, total),
        λ e. ground (arith, e, c, m, total),
        λ e. ground (arith, e, c, m, total),
        λ g e. ground (arith, e, c, m, total),
      )
    ]

-- A page that begins behind the last of n rows claims a total of all the rows before it, which are
-- more than n.
pub past_end_total :
    (n page page_size : ℕ) (requested : Option ℕ)
    → 1 ≤ page_size
    → n < (page - 1) * page_size
    → let m = add_pagination_meta (counted (rows_on n page page_size)) requested page page_size in
      m.total ≡ some ((page - 1) * page_size)
unfolding add_pagination_meta
past_end_total n page page_size requested s h = ground arith
