-- ===== src/Resolve/Unique.antt =====
-- Users by name or by email address, `UserID` of internal/resolve/resolve.go.
use go_clockify.Base.{
  refl, ℕ, zero, suc, ◌+◌, ◌≡◌, refl, ◌⊎◌, inl, inr, Bool, true, false, ◌||◌, List, [], ◌∷◌, ◌++◌,
  arith, ltb, if◌then◌else◌, ◌==◌, ℕ_eq, String_eq, length,
}
use go_clockify.Resolve.Ids.{
  Text, ResolveError, not_found, ambiguous, missing_id, list_failed, validate_id, validate_name_ref,
  looks_like_clockify_id, is_empty, safety_stop, looks_like_email,
}
use mathlib.Core.List.{append_assoc, append-nil}
use go_clockify.Resolve.Names.{Entity, or_error}
use go_clockify.Pagination.Fallible.{Fallible, ok, err, Fallible-cases}
use go_clockify.Pagination.ListAll.{AllPages, last, more}

module _ (equal_fold : Text → Text → Bool) (is_email : Bool) (ref : Text) where
  -- Where the reference is an address only the address counts, else either.
  abbrev pub is_match : Entity → Bool
  is_match user =
      if is_email
      then equal_fold user.email ref
      else equal_fold user.name ref || equal_fold user.email ref

  abbrev pub matching : List Entity → List Entity
  matching [] = []
  matching (user ∷ users) = let rest = matching users in if is_match user then user ∷ rest else rest

  -- The loop over the users of a page, with the number of matches so far and the identifier found.
  unfoldable pub scan_users : List Entity → ℕ → Text → Fallible ResolveError (ℕ × Text)
  scan_users [] matches matched_id = ok (matches, matched_id)
  scan_users (user ∷ users) matches matched_id = elim (is_match user) [
    | false ↦ scan_users users matches matched_id
    | true ↦ elim (ltb 1 (matches + 1)) [
      | true ↦ err ambiguous
      | false ↦ elim (is_empty user.id) [
        | true ↦ err missing_id
        | false ↦ scan_users users (matches + 1) user.id
      ]
    ]
  ]

  abbrev found_or_not : Text → Fallible ResolveError Text
  found_or_not matched_id = if is_empty matched_id then err not_found else ok matched_id

  module _ {E : Type 0} (get : ℕ → Fallible E (List Entity)) where
    -- The loop over the pages, with the pages left before the safety stop.
    unfoldable pub user_pages : ℕ → ℕ → ℕ → Text → Fallible ResolveError Text
    user_pages zero page matches matched_id = err safety_stop
    user_pages (suc left) page matches matched_id = elim (get page) [
      | err e ↦ err list_failed
      | ok users ↦ elim (scan_users users matches matched_id) [
        | err e ↦ err e
        | ok (n, id) ↦ elim ((length users == 0) || ltb (length users) 200) [
          | true ↦ found_or_not id
          | false ↦ user_pages left (page + 1) n id
        ]
      ]
    ]

  -- What is known of the rows that were looked at.
  Counted : List Entity → ℕ → Text → Type 0
  Counted users matches matched_id =
      ((matches ≡ 0) × (matched_id ≡ []) × (matching users ≡ []))
      ⊎ ((matches ≡ 1)
          × (u : Entity) × (matching users ≡ u ∷ [])
          × (u.id ≡ matched_id)
          × (is_empty u.id ≡ false))

  matching-append : (xs ys : List Entity) → matching (xs ++ ys) ≡ matching xs ++ matching ys
  matching-append [] ys = refl
  matching-append (x ∷ xs) ys = ground (arith, matching-append xs ys)

  module _ (u : Entity) (users before : List Entity) (n m : ℕ) (id id' : Text) where
    scan_step :
        scan_users (u ∷ users) n id ≡ ok (m, id')
        → ((is_match u ≡ false) × (scan_users users n id ≡ ok (m, id')))
          ⊎ ((is_match u ≡ true)
              × (n ≡ 0)
              × (is_empty u.id ≡ false)
              × (scan_users users 1 u.id ≡ ok (m, id')))
    unfolding scan_users
    scan_step h = ground arith

    miss-Counted : Counted before n id → is_match u ≡ false → Counted (before ++ (u ∷ [])) n id
    unfolding Counted
    miss-Counted c f = ground (arith, matching-append before (u ∷ []))

    hit-Counted :
        Counted before 0 id
        → is_match u ≡ true
        → is_empty u.id ≡ false
        → Counted (before ++ (u ∷ [])) 1 u.id
    unfolding Counted
    hit-Counted c f full = ground (arith, matching-append before (u ∷ []))

  scan_users-Counted :
      (users before : List Entity) (n m : ℕ) (id id' : Text)
      → Counted before n id
      → scan_users users n id ≡ ok (m, id')
      → Counted (before ++ users) m id'
  unfolding scan_users
  scan_users-Counted [] before n m id id' c h =
      let same_count : n ≡ m = cc in
      let same_id : id ≡ id' = cc in rw (append-nil before) (rw (← same_count) (rw (← same_id) c))
  scan_users-Counted (u ∷ users) before n m id id' c h =
      rw (← (append_assoc before (u ∷ []) users)) (elim (scan_step u users before n m id id' h) [
        | inl miss ↦
            scan_users-Counted users (before ++ (u ∷ [])) n m id id'
              (miss-Counted u users before n m id id' c miss.0) miss.1
        | inr hit ↦
            scan_users-Counted users (before ++ (u ∷ [])) 1 m u.id id'
              (hit-Counted u users before n m id id' (rw (← hit.1) c) hit.0 hit.2) hit.3
      ])

  abbrev is_last : List Entity → Bool
  is_last users = (length users == 0) || ltb (length users) 200

  abbrev pub OnlyMatch : List Entity → Text → Type 0
  OnlyMatch users id =
      (u : Entity) × (matching users ≡ u ∷ []) × (u.id ≡ id) × (is_empty id ≡ false)

  end-OnlyMatch :
      (users : List Entity) (n : ℕ) (id result : Text)
      → Counted users n id
      → found_or_not id ≡ ok result
      → OnlyMatch users result
  unfolding Counted
  end-OnlyMatch users n id result (inl c) h = ground arith
  end-OnlyMatch users n id result (inr (c, u, one, same, full)) h =
      (u, one, ground arith, ground arith)

  module _ {E : Type 0} (get : ℕ → Fallible E (List Entity)) (left page n : ℕ)
      (id result : Text) where
    pages_err : (e : E) → get page ≡ err e → user_pages get (suc left) page n id ≡ ok result → ⊥
    unfolding user_pages
    pages_err e q h = ground arith

    scan_err :
        (users : List Entity) (e : ResolveError)
        → get page ≡ ok users
        → scan_users users n id ≡ err e
        → user_pages get (suc left) page n id ≡ ok result
        → ⊥
    unfolding user_pages
    scan_err users e q s h = ground arith

    pages_ok :
        (users : List Entity) (m : ℕ) (id' : Text)
        → get page ≡ ok users
        → scan_users users n id ≡ ok (m, id')
        → user_pages get (suc left) page n id ≡ ok result
        → ((is_last users ≡ true) × (found_or_not id' ≡ ok result))
          ⊎ ((is_last users ≡ false) × (user_pages get left (page + 1) m id' ≡ ok result))
    unfolding user_pages
    pages_ok users m id' q s h = ground arith

  module _ {E : Type 0} (get : ℕ → Fallible E (List Entity)) where
    user_pages-OnlyMatch :
        (left page n : ℕ) (id result : Text) (before : List Entity)
        → Counted before n id
        → user_pages get left page n id ≡ ok result
        → (found : List Entity) × AllPages get 200 page found × OnlyMatch (before ++ found) result
    unfolding user_pages
    user_pages-OnlyMatch zero page n id result before c h = cc
    user_pages-OnlyMatch (suc left) page n id result before c h = elim (Fallible-cases (get page)) [
      | inl (e, q) ↦ absurd (pages_err get left page n id result e q h)
      | inr (users, q) ↦ elim (Fallible-cases (scan_users users n id)) [
        | inl (e, s) ↦ absurd (scan_err get left page n id result users e q s h)
        | inr (seen, s) ↦
            let c' = scan_users-Counted users before n seen.0 id seen.1 c s in
            elim (pages_ok get left page n id result users seen.0 seen.1 q s h) [
              | inl end ↦ (
                users,
                last page users q end.0,
                end-OnlyMatch (before ++ users) seen.0 seen.1 result c' end.1,
              )
              | inr on ↦
                  let (found, pages, only) =
                    user_pages-OnlyMatch left (page + 1) seen.0 seen.1 result (before ++ users) c'
                      on.1 in
                  (
                    users ++ found,
                    more page users found q on.0 pages,
                    rw (← (append_assoc before users found)) only,
                  )
            ]
      ]
    ]

-- `UserID`; the path under the workspace is built after the checks.
module _ (trim_space : Text → Text) (equal_fold : Text → Text → Bool) {E : Type 0}
    (get : ℕ → Fallible E (List Entity)) where
  unfoldable pub user_id : Fallible ResolveError Text → Text → Fallible ResolveError Text
  user_id path ref =
      if looks_like_clockify_id ref
      then or_error (validate_id trim_space ref) (ok ref)
      else or_error (validate_name_ref trim_space ref) (elim path [
        | err e ↦ err e
        | ok p ↦ user_pages equal_fold (looks_like_email ref) ref get 1000 1 0 []
      ])

  -- A user is resolved, from anything but an identifier, only if exactly one of the users on all pages
  -- matches, by its address where the reference is one and else by name or address, and has an
  -- identifier.
  pub user_id_lem :
      (path : Fallible ResolveError Text) (ref id : Text)
      → looks_like_clockify_id ref ≡ false
      → user_id path ref ≡ ok id
      → (users : List Entity) × AllPages get 200 1 users
        × OnlyMatch equal_fold (looks_like_email ref) ref users id
  unfolding user_id Counted
  user_id_lem path ref id named h =
      user_pages-OnlyMatch equal_fold (looks_like_email ref) ref get 1000 1 0 [] id []
        (inl (refl, refl, refl)) (run path h)
    where
      run :
          (path : Fallible ResolveError Text)
          → user_id path ref ≡ ok id
          → user_pages equal_fold (looks_like_email ref) ref get 1000 1 0 [] ≡ ok id
      run (ok p) h = ground arith
      run (err e) h = ground arith
