-- ===== src/Resolve/Segments.antt =====
-- The segments of the paths that are built.
use go_clockify.Base.{
  ℕ, ◌+◌, ◌≡◌, refl, ap, ◌∙◌, inl, inr, false, none, List, [], ◌∷◌, ◌++◌, map, arith, if◌then◌else◌,
  ℕ_eq, String_eq, any,
}
use go_clockify.Resolve.Ids.{Text, ResolveError, validate_id}
use go_clockify.Resolve.Paths.{is_slash, workspaces, workspace_path, join_segments}
use mathlib.Core.List.{append-nil}
use go_clockify.Pagination.Fallible.{ok, err, Fallible-cases}

abbrev grow : ℕ → List Text → List Text
grow c [] = (c ∷ []) ∷ []
grow c (s ∷ ss) = (c ∷ s) ∷ ss

-- What a server takes a path apart into: the texts between its slashes.
abbrev pub segments : Text → List Text
segments [] = [] ∷ []
segments (c ∷ s) = if is_slash c then [] ∷ segments s else grow c (segments s)

-- The first segment ends at the first slash.
segments-slash : (s t : Text) → any is_slash s ≡ false → segments (s ++ (b'/' ∷ t)) ≡ s ∷ segments t
segments-slash [] t h = refl
segments-slash (c ∷ s) t h = ground (arith, segments-slash s t)

pub segments-plain : (s : Text) → any is_slash s ≡ false → segments s ≡ s ∷ []
segments-plain [] h = refl
segments-plain (c ∷ s) h = ground (arith, segments-plain s)

module _ (path_escape : Text → Text)
    (no_slash : (s : Text) → any is_slash (path_escape s) ≡ false) where
  join_err :
      (i : ℕ) (seg tail : Text) (sub : List Text) (e : ResolveError)
      → join_segments path_escape (i + 1) sub ≡ err e
      → join_segments path_escape i (seg ∷ sub) ≡ ok tail
      → ⊥
  unfolding join_segments
  join_err i seg tail sub e q h = ground arith

  join_ok :
      (i : ℕ) (seg tail t : Text) (sub : List Text)
      → join_segments path_escape (i + 1) sub ≡ ok t
      → join_segments path_escape i (seg ∷ sub) ≡ ok tail
      → tail ≡ b'/' ∷ (path_escape seg ++ t)
  unfolding join_segments
  join_ok i seg tail t sub q h = ground arith

  -- Segments after a text without a slash, to which the joined ones are appended.
  join_segments-segments :
      (i : ℕ) (sub : List Text) (before tail : Text)
      → any is_slash before ≡ false
      → join_segments path_escape i sub ≡ ok tail
      → segments (before ++ tail) ≡ before ∷ map path_escape sub
  unfolding join_segments
  join_segments-segments i [] before tail b h =
      let none_left : [] ≡ tail = cc in
      rw (← none_left) (rw (append-nil before) (segments-plain before b))
  join_segments-segments i (seg ∷ sub) before tail b h =
      elim (Fallible-cases (join_segments path_escape (i + 1) sub)) [
        | inl (e, q) ↦ absurd (join_err i seg tail sub e q h)
        | inr (t, q) ↦ rw (join_ok i seg tail t sub q h) (
            segments-slash before (path_escape seg ++ t) b
            ∙ ap (λ ss. before ∷ ss)
                (join_segments-segments (i + 1) sub (path_escape seg) t (no_slash seg) q))
      ]

  module _ (trim_space : Text → Text) (ws_id path : Text) where
    path_err :
        (sub : List Text) (e : ResolveError)
        → join_segments path_escape 0 sub ≡ err e
        → workspace_path trim_space path_escape ws_id sub ≡ ok path
        → ⊥
    unfolding workspace_path
    path_err sub e q h = ground arith

    path_ok :
        (t : Text) (sub : List Text)
        → join_segments path_escape 0 sub ≡ ok t
        → workspace_path trim_space path_escape ws_id sub ≡ ok path
        → (path ≡ b'/' ∷ (workspaces ++ (b'/' ∷ (path_escape ws_id ++ t))))
          × (validate_id trim_space ws_id ≡ none)
    unfolding workspace_path
    path_ok t sub q h = ground arith

  -- Whatever the workspace's identifier and the segments hold, a path that is built has exactly the
  -- segments that were asked for, escaped: none is added, split or lost. And its identifier was accepted.
  pub workspace_path-segments :
      (trim_space : Text → Text) (ws_id : Text) (sub : List Text) (path : Text)
      → workspace_path trim_space path_escape ws_id sub ≡ ok path
      → (segments path ≡ [] ∷ workspaces ∷ path_escape ws_id ∷ map path_escape sub)
        × (validate_id trim_space ws_id ≡ none)
  unfolding workspace_path
  workspace_path-segments trim_space ws_id sub path h =
      elim (Fallible-cases (join_segments path_escape 0 sub)) [
        | inl (e, q) ↦ absurd (path_err trim_space ws_id path sub e q h)
        | inr (t, q) ↦
            let (spelt, accepted) = path_ok trim_space ws_id path t sub q h in
            (
              rw spelt (
                  ap (λ ss. [] ∷ ss)
                    (segments-slash workspaces (path_escape ws_id ++ t) refl
                      ∙ ap (λ ss. workspaces ∷ ss)
                          (join_segments-segments 0 sub (path_escape ws_id) t (no_slash ws_id) q))),
              accepted,
            )
      ]
