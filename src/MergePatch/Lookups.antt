-- ===== src/MergePatch/Lookups.antt =====
-- What a key holds in a patched object and in a patch.
use go_clockify.Base.{
  String, ◌≡◌, refl, Option, none, some, arith, if◌then◌else◌, Testable, ◌==◌, beq_iff, ℕ_eq,
  String_eq,
}
use go_clockify.Json.{
  Value, null, bool, num, str, arr, obj, Fields, end, field, get, get-put, get-remove,
}
use go_clockify.MergePatch.Patch.{
  or_null, apply_any, apply_fields, apply_member, member_patch, additions, removals, set_member,
  diff_objects,
}

-- A member after its part of the patch, if it has one.
abbrev pub patched : Option Value → Option Value → Option Value
patched old none = old
patched old (some null) = none
patched old (some v) = some (apply_any (or_null old) v)

abbrev unless_null : Value → Value → Option Value
unless_null null w = none
unless_null v w = some w

get-apply_member :
    (k j : String) (v w : Value) (out : Fields)
    → get j (apply_member k v w out) ≡ (if k == j then unless_null v w else get j out)
get-apply_member k j null w out = get-remove k j out
get-apply_member k j (bool b) w out = get-put k j w out
get-apply_member k j (num b) w out = get-put k j w out
get-apply_member k j (str b) w out = get-put k j w out
get-apply_member k j (arr b) w out = get-put k j w out
get-apply_member k j (obj b) w out = get-put k j w out

patched_member :
    (old : Option Value) (v : Value)
    → unless_null v (apply_any (or_null old) v) ≡ patched old (some v)
patched_member old null = refl
patched_member old (bool b) = refl
patched_member old (num b) = refl
patched_member old (str b) = refl
patched_member old (arr b) = refl
patched_member old (obj b) = refl

pub get-apply_fields :
    (j : String) (out patch : Fields)
    → get j (apply_fields out patch) ≡ patched (get j out) (get j patch)
unfolding get apply_fields
get-apply_fields j out end = refl
get-apply_fields j out (field k v patch) = ground (
  arith,
  get-apply_member k j v (apply_any (or_null (get k out)) v) (apply_fields out patch),
  patched_member (get k out) v,
  get-apply_fields j out patch,
  beq_iff k j,
)

-- What a patch says of a member that it may only remove.
abbrev pub removed : (curr prev patch : Option Value) → Option Value
removed (some w) prev patch = patch
removed none none patch = patch
removed none (some v) patch = some null

pub get-removals :
    (j : String) (prev curr patch : Fields)
    → get j (removals prev curr patch) ≡ removed (get j curr) (get j prev) (get j patch)
unfolding get removals
get-removals j end curr patch = ground arith
get-removals j (field k v prev) curr patch = ground (
  arith,
  get-removals j prev curr patch,
  get-put k j null (removals prev curr patch),
  beq_iff k j,
)

module _ {B : Type 0} ⦃e : Testable B⦄ (marshal : Value → B) where
  get-set_member :
      (k j : String) (o : Option Value) (patch : Fields)
      → get j (set_member k o patch) ≡ (if k == j then o else get j patch)
  get-set_member k j none patch = get-remove k j patch
  get-set_member k j (some v) patch = get-put k j v patch

  abbrev pub added : (curr prev : Option Value) → Option Value
  added none prev = none
  added (some v) prev = member_patch marshal prev v

  pub get-additions :
      (j : String) (prev curr : Fields)
      → get j (additions marshal prev curr) ≡ added (get j curr) (get j prev)
  unfolding get additions
  get-additions j prev end = refl
  get-additions j prev (field k v curr) = ground (
    arith,
    get-set_member k j (member_patch marshal (get k prev) v) (additions marshal prev curr),
    get-additions j prev curr,
    beq_iff k j,
  )

  -- A new member is added or changed, an old one that is gone is nulled, and no other key stands in
  -- the patch.
  pub get-diff_objects :
      (j : String) (prev curr : Fields)
      → get j (diff_objects marshal prev curr)
        ≡ removed (get j curr) (get j prev) (added (get j curr) (get j prev))
  unfolding diff_objects
  get-diff_objects j prev curr =
      rw (get-removals j prev curr (additions marshal prev curr))
        (rw (get-additions j prev curr) refl)
