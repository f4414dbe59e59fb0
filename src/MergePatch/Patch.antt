-- ===== src/MergePatch/Patch.antt =====
-- Diff and Apply on decoded documents, internal/jsonmergepatch/merge_patch.go. Go visits the keys of a
-- map in any order, each once. Here the field in front is dealt with last, so a key that stands twice
-- counts at its first place, as everywhere.
use go_clockify.Base.{
  String, Bool, true, false, ◌||◌, Option, none, some, if◌then◌else◌, Testable, ◌==◌, ℕ_eq,
  String_eq,
}
use go_clockify.Json.{Value, null, arr, obj, Items, nil, cons, Fields, end, field, get, put, remove}

-- m, ok := v.(map[string]any), with the empty map for what is none.
abbrev pub fields_of : Value → Fields
fields_of (obj fs) = fs
fields_of v = end

abbrev pub or_null : Option Value → Value
or_null none = null
or_null (some v) = v

-- One member of a patch: null deletes it, anything else sets it to what it was patched to.
abbrev pub apply_member : String → Value → Value → Fields → Fields
apply_member k null patched out = remove k out
apply_member k v patched out = put k patched out

unfoldable mutual
  -- `applyAny`
  pub apply_any : Value → Value → Value
  apply_any prev (obj patch) = obj (apply_fields (fields_of prev) patch)
  apply_any prev v = v

  pub apply_fields : Fields → Fields → Fields
  apply_fields out end = out
  apply_fields out (field k v patch) =
      apply_member k v (apply_any (or_null (get k out)) v) (apply_fields out patch)

unfoldable mutual
  pub has_null : Value → Bool
  has_null null = true
  has_null (obj fs) = fields_have_null fs
  has_null (arr xs) = items_have_null xs
  has_null v = false

  pub fields_have_null : Fields → Bool
  fields_have_null end = false
  fields_have_null (field k v fs) = has_null v || fields_have_null fs

  pub items_have_null : Items → Bool
  items_have_null nil = false
  items_have_null (cons x xs) = has_null x || items_have_null xs

-- A nested patch that has no member is left out.
abbrev pub sub_patch : Fields → Option Value
sub_patch end = none
sub_patch (field k v fs) = some (obj (field k v fs))

-- Removals: a key of the old object that the new one lacks becomes an explicit null.
unfoldable pub removals : Fields → Fields → Fields → Fields
removals end curr patch = patch
removals (field k v prev) curr patch =
    let rest = removals prev curr patch in
    elim (get k curr) [ some w ↦ rest | none ↦ put k null rest ]

abbrev pub set_member : String → Option Value → Fields → Fields
set_member k none patch = remove k patch
set_member k (some v) patch = put k v patch

-- Two objects are patched member by member; an object replaces anything else.
abbrev pub nested : Value → Fields → Value → Option Value
nested (obj prev) sub curr = sub_patch sub
nested p sub curr = some curr

-- `FormatMerge` and `FormatFull`.
pub data Format : Type 0 where
  merge full : Format

-- `deepEqual` compares what `json.Marshal` writes, of whatever type that is.
module _ {B : Type 0} ⦃e : Testable B⦄ (marshal : Value → B) where
  abbrev pub deep_equal : Value → Value → Bool
  deep_equal a b = marshal a == marshal b

  unfoldable mutual
    -- What the patch says of a member of the new object, if anything.
    pub member_patch : Option Value → Value → Option Value
    member_patch none v = some v
    member_patch (some p) (obj curr) =
        if deep_equal p (obj curr)
        then none
        else nested p (removals (fields_of p) curr (additions (fields_of p) curr)) (obj curr)
    member_patch (some p) v = if deep_equal p v then none else some v

    -- Additions and modifications.
    pub additions : Fields → Fields → Fields
    additions prev end = end
    additions prev (field k v curr) =
        set_member k (member_patch (get k prev) v) (additions prev curr)

  -- `diffObjects`, with the empty map for Go's nil.
  unfoldable pub diff_objects : Fields → Fields → Fields
  diff_objects prev curr = removals prev curr (additions prev curr)

  -- Two documents: a patch of objects, or else the new document itself.
  unfoldable pub diff : Value → Value → Value
  diff (obj prev) (obj curr) = obj (diff_objects prev curr)
  diff prev curr = curr

  -- The format `full` for a document that a patch cannot express.
  unfoldable pub diff_or_full : Value → Value → Value × Format
  diff_or_full prev curr = if has_null curr then (curr, full) else (diff prev curr, merge)
