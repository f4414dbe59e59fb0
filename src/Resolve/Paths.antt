-- ===== src/Resolve/Paths.antt =====
-- Request paths under a workspace: `Workspace` of internal/paths/paths.go and `workspacePath` of
-- internal/resolve/resolve.go, which do the same. `path_escape` is `url.PathEscape`.
use go_clockify.Base.{
  ℕ, ◌+◌, Bool, none, some, List, [], ◌∷◌, ◌++◌, if◌then◌else◌, ◌==◌, ℕ_eq, String_eq, any,
}
use go_clockify.Resolve.Ids.{
  Text, ResolveError, segment_is_empty, segment_has_slash, validate_id, is_empty,
}
use go_clockify.Pagination.Fallible.{Fallible, ok, err}

abbrev pub is_slash : ℕ → Bool
is_slash c = c == b'/'

abbrev pub workspaces : Text
workspaces = b'w' ∷ b'o' ∷ b'r' ∷ b'k' ∷ b's' ∷ b'p' ∷ b'a' ∷ b'c' ∷ b'e' ∷ b's' ∷ []

abbrev prepend : Text → Fallible ResolveError Text → Fallible ResolveError Text
prepend s (err e) = err e
prepend s (ok t) = ok (s ++ t)

module _ (path_escape : Text → Text) where
  -- The loop over the segments, the first with number i.
  unfoldable pub join_segments : ℕ → List Text → Fallible ResolveError Text
  join_segments i [] = ok []
  join_segments i (seg ∷ sub) =
      let rest = join_segments (i + 1) sub in
      if is_empty seg
      then err (segment_is_empty i)
      else if any is_slash seg
      then err (segment_has_slash i)
      else prepend (b'/' ∷ path_escape seg) rest

module _ (trim_space path_escape : Text → Text) where
  unfoldable pub workspace_path : Text → List Text → Fallible ResolveError Text
  workspace_path ws_id sub = elim (validate_id trim_space ws_id) [
    | some e ↦ err e
    | none ↦
        prepend ((b'/' ∷ workspaces) ++ (b'/' ∷ path_escape ws_id))
          (join_segments path_escape 0 sub)
  ]
