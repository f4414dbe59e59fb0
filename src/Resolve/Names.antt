-- ===== src/Resolve/Names.antt =====
-- From a name or an identifier to an identifier, `resolveByNameOrID` of internal/resolve/resolve.go. An
-- empty `id` or `name` is one that the answer does not hold as a text; `equal_fold` is
-- `strings.EqualFold`. The list is fetched page by page, with 200 rows asked for.
use go_clockify.Base.{
  refl, ℕ, Bool, Option, none, some, List, [], ◌∷◌, if◌then◌else◌, ℕ_eq, String_eq, pos, ◌≡◌, false,
  true, Bool-cases, arith, ◌⊎◌, inl, inr,
}
use go_clockify.Resolve.Ids.{
  Text, ResolveError, not_found, ambiguous, missing_id, list_failed, validate_id, validate_name_ref,
  looks_like_clockify_id, is_empty,
}
use go_clockify.Pagination.Fallible.{Fallible, ok, err, Fallible-cases}
use go_clockify.Pagination.ListAll.{list_all, AllPages, list_all-AllPages}

pub record Entity : Type 0 where
  pub id : Text
  pub name : Text
  pub email : Text

abbrev pub or_error : Option ResolveError → Fallible ResolveError Text → Fallible ResolveError Text
or_error (some e) r = err e
or_error none r = r

module _ (trim_space : Text → Text) (equal_fold : Text → Text → Bool) where
  abbrev pub exact_matches : List Entity → Text → List Entity
  exact_matches [] candidate = []
  exact_matches (item ∷ items) candidate =
      let rest = exact_matches items candidate in
      if equal_fold item.name candidate then item ∷ rest else rest

  abbrev pub only_match : List Entity → Fallible ResolveError Text
  only_match [] = err not_found
  only_match (m ∷ []) = if is_empty m.id then err missing_id else ok m.id
  only_match (m ∷ n ∷ ms) = err ambiguous

  module _ {E : Type 0} (get : ℕ → Fallible E (List Entity)) where
    abbrev find : Text → Fallible ResolveError Text
    find ref = elim (list_all get 200 (pos 0)) [
      | err e ↦ err list_failed
      | ok items ↦ only_match (exact_matches items ref)
    ]

    unfoldable pub resolve_by_name_or_id : Text → Fallible ResolveError Text
    resolve_by_name_or_id ref =
        if looks_like_clockify_id ref
        then or_error (validate_id trim_space ref) (ok ref)
        else or_error (validate_name_ref trim_space ref) (find ref)

    -- `ProjectID`, `ClientID`, `TagID` and `TaskID`: the list is that of a path under the workspace.
    unfoldable pub entity_id : Fallible ResolveError Text → Text → Fallible ResolveError Text
    entity_id (err e) ref = err e
    entity_id (ok path) ref = resolve_by_name_or_id ref

    only_match_lem :
        (ms : List Entity) (id : Text)
        → only_match ms ≡ ok id
        → (m : Entity) × (ms ≡ m ∷ []) × (m.id ≡ id) × (is_empty id ≡ false)
    only_match_lem [] id h = cc
    only_match_lem (m ∷ []) id h = (m, refl, ground arith, ground arith)
    only_match_lem (m ∷ n ∷ ms) id h = cc

    -- What a successful resolution rests on.
    abbrev pub Resolved : Text → Text → Type 0
    Resolved ref id =
        ((looks_like_clockify_id ref ≡ true) × (id ≡ ref) × (validate_id trim_space ref ≡ none))
        ⊎ ((looks_like_clockify_id ref ≡ false)
            × (is_empty id ≡ false)
            × (items : List Entity) × AllPages get 200 1 items
            × (m : Entity) × (exact_matches items ref ≡ m ∷ [])
            × (m.id ≡ id))

    found_by_name :
        (ref id : Text) → looks_like_clockify_id ref ≡ false → find ref ≡ ok id → Resolved ref id
    found_by_name ref id n h = elim (Fallible-cases (list_all get 200 (pos 0))) [
      | inl (e, q) ↦ absurd (find_err e q h)
      | inr (items, q) ↦
          let (m, one, same, full) =
            only_match_lem (exact_matches items ref) id (find_ok items q h) in
          inr (n, full, items, (list_all-AllPages get 200 (pos 0) items q).0, m, one, same)
    ]
      where
        find_err : (e : _) → list_all get 200 (pos 0) ≡ err e → find ref ≡ ok id → ⊥
        find_err e q h = ground arith

        find_ok :
            (items : List Entity)
            → list_all get 200 (pos 0) ≡ ok items
            → find ref ≡ ok id
            → only_match (exact_matches items ref) ≡ ok id
        find_ok items q h = ground arith

    -- A reference in the shape of an identifier is used as it is, checked; any other is resolved only if
    -- exactly one of the rows of all pages has that name, and it has an identifier.
    pub resolve_by_name_or_id_lem :
        (ref id : Text) → resolve_by_name_or_id ref ≡ ok id → Resolved ref id
    unfolding resolve_by_name_or_id
    resolve_by_name_or_id_lem ref id h = elim (Bool-cases (looks_like_clockify_id ref)) [
      | inl yes_id ↦ inl (yes_id, ground arith, ground arith)
      | inr no_id ↦ found_by_name ref id no_id (ground arith)
    ]
