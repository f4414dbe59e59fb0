-- ===== src/Resolve/Examples.antt =====
-- Concrete identifiers, paths and names.
use go_clockify.Base.{
  ℕ, zero, suc, ◌<◌, String, ◌≡◌, refl, Bool, true, false, ◌&&◌, none, List, [], ◌∷◌, ◌++◌, arith,
  leb, if◌then◌else◌, ◌==◌, ℕ_eq, String_eq, any,
}
use go_clockify.Resolve.Ids.{
  Text, is_empty, validate_id, validate_name_ref, looks_like_clockify_id, ambiguous,
  looks_like_email,
}
use go_clockify.Resolve.Paths.{is_slash, workspaces, workspace_path, join_segments}
use go_clockify.Resolve.Segments.{segments, workspace_path-segments}
use go_clockify.Resolve.Names.{Entity, Resolved, resolve_by_name_or_id, resolve_by_name_or_id_lem}
use go_clockify.Resolve.Unique.{OnlyMatch, user_id, user_id_lem, user_pages, scan_users}
use go_clockify.Pagination.Fallible.{Fallible, ok, err}
use go_clockify.Pagination.ListAll.{AllPages, list_all, list_all_func, list_all_loop, page_round}

-- Leading spaces only, and a slash as the only byte that is escaped.
abbrev trim_space : Text → Text
trim_space [] = []
trim_space (c ∷ s) = let rest = trim_space s in if leb c 32 then rest else c ∷ s

abbrev path_escape : Text → Text
path_escape [] = []
path_escape (c ∷ s) =
    let rest = path_escape s in if is_slash c then b'%' ∷ b'2' ∷ b'F' ∷ rest else c ∷ rest

no_slash : (s : Text) → any is_slash (path_escape s) ≡ false
no_slash [] = refl
no_slash (c ∷ s) = ground (arith, no_slash s)

keeps : (c : ℕ) (s : Text) → 32 < c → c < 127 → is_empty (trim_space (c ∷ s)) ≡ false
keeps c s low high = ground arith

abbrev repeat : ℕ → ℕ → Text
repeat zero c = []
repeat (suc n) c = c ∷ repeat n c

abbrev object_id : Text
object_id = repeat 24 b'a'

abbrev tags : Text
tags = b't' ∷ b'a' ∷ b'g' ∷ b's' ∷ []

abbrev tags_path : Text
tags_path = b'/' ∷ (workspaces ++ (b'/' ∷ (object_id ++ (b'/' ∷ tags))))

workspace_path-segments_example :
    (segments tags_path ≡ [] ∷ workspaces ∷ object_id ∷ tags ∷ [])
    × (validate_id trim_space object_id ≡ none)
unfolding workspace_path join_segments validate_id
workspace_path-segments_example =
    workspace_path-segments path_escape no_slash trim_space object_id (tags ∷ []) tags_path refl

abbrev same_text : Text → Text → Bool
same_text [] [] = true
same_text (c ∷ s) (d ∷ t) = (c == d) && same_text s t
same_text _ _ = false

abbrev ada : Entity
ada = record {
  id = object_id;
  name = b'a' ∷ b'd' ∷ b'a' ∷ [];
  email = b'a' ∷ b'@' ∷ b'x' ∷ b'.' ∷ b'y' ∷ [];
}

abbrev bob : Entity
bob = record {
  id = repeat 24 b'b';
  name = b'b' ∷ b'o' ∷ b'b' ∷ [];
  email = b'b' ∷ b'@' ∷ b'x' ∷ b'.' ∷ b'y' ∷ [];
}

abbrev people : ℕ → Fallible String (List Entity)
people page = ok (ada ∷ bob ∷ [])

resolve_by_name_or_id_lem_example : Resolved trim_space same_text people bob.name bob.id
unfolding resolve_by_name_or_id looks_like_clockify_id validate_name_ref list_all list_all_func
    list_all_loop page_round
resolve_by_name_or_id_lem_example =
    resolve_by_name_or_id_lem trim_space same_text people bob.name bob.id refl

abbrev twins : ℕ → Fallible String (List Entity)
twins page = ok (ada ∷ ada ∷ [])

twice_ambiguous : resolve_by_name_or_id trim_space same_text twins ada.name ≡ err ambiguous
unfolding resolve_by_name_or_id looks_like_clockify_id validate_name_ref list_all list_all_func
    list_all_loop page_round
twice_ambiguous = refl

user_id_lem_example :
    (users : List Entity) × AllPages people 200 1 users
    × OnlyMatch same_text (looks_like_email ada.email) ada.email users ada.id
unfolding user_id looks_like_clockify_id looks_like_email validate_name_ref user_pages scan_users
user_id_lem_example =
    user_id_lem trim_space same_text people (ok tags_path) ada.email ada.id refl refl
