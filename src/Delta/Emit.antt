-- ===== src/Delta/Emit.antt =====
-- The deltas of a resource's documents: the byte layer of internal/jsonmergepatch/merge_patch.go, and
-- `emitResourceUpdate` and `emitResourceDeleted` of internal/tools/resources.go.
use go_clockify.Base.{
  String, Bool, false, not, ◌||◌, Option, none, some, List, [], ◌∷◌, if◌then◌else◌, Testable, ◌==◌,
  ℕ_eq, String_eq,
}
use go_clockify.Pagination.Fallible.{Fallible, ok, err}
use go_clockify.Json.{Value, obj, arr, Items, cons, nil, Fields, end}
use go_clockify.MergePatch.Patch.{diff_objects, has_null}
use go_clockify.Delta.Cache.{ResourceStateCache, get, put, drop}

-- What the code takes from encoding/json over its bytes: `Unmarshal` into any, `Marshal` and `Compact`,
-- whether there are any bytes, and the bytes of an object without members.
pub record Codec (B : Type 0) : Type 0 where
  pub unmarshal : B → Option Value
  pub marshal : Value → B
  pub compact : B → Option B
  pub is_empty : B → Bool
  pub empty_object : B

pub data DiffError : Type 0 where
  decode_prev decode_curr compact_failed : DiffError

pub data DeltaFormat : Type 0 where
  none_format merge_format full_format deleted_format : DeltaFormat

-- `mcp.ResourceUpdateDelta`, with the patch decoded.
pub record Delta : Type 0 where
  pub format : DeltaFormat
  pub patch : Option Value

abbrev pub unknown : Delta
unknown = record { format = none_format; patch = none }

module _ {B : Type 0} ⦃e : Testable B⦄ (codec : Codec B) where
  -- `compactJSON`; its result is never empty where there was something to compact.
  abbrev compact_or_error : Option B → Fallible DiffError B
  compact_or_error none = err compact_failed
  compact_or_error (some t) = if codec.is_empty t then err compact_failed else ok t

  unfoldable pub compact_json : B → Fallible DiffError B
  compact_json raw = compact_or_error (codec.compact raw)

  -- `containsNull`, of the decoded document.
  abbrev pub contains_null : Option Value → Bool
  contains_null none = false
  contains_null (some v) = has_null v

  -- The empty patch is written out by hand.
  abbrev pub patch_text : Fields → B
  patch_text end = codec.empty_object
  patch_text fs = codec.marshal (obj fs)

  abbrev pub diff_values : B → Value → Value → Fallible DiffError B
  diff_values curr (obj p) (obj c) = ok (patch_text (diff_objects codec.marshal p c))
  diff_values curr p c = compact_json curr

  abbrev pub diff_decoded : B → Option Value → Option Value → Fallible DiffError B
  diff_decoded curr none c = err decode_prev
  diff_decoded curr (some p) none = err decode_curr
  diff_decoded curr (some p) (some c) = diff_values curr p c

  unfoldable pub diff_bytes : B → B → Fallible DiffError B
  unfolding compact_json
  diff_bytes prev curr = diff_decoded curr (codec.unmarshal prev) (codec.unmarshal curr)

  abbrev pub with_format : DeltaFormat → Fallible DiffError B → Fallible DiffError (B × DeltaFormat)
  with_format f (err e) = err e
  with_format f (ok t) = ok (t, f)

  unfoldable pub diff_or_full_bytes : B → B → Fallible DiffError (B × DeltaFormat)
  unfolding compact_json diff_bytes
  diff_or_full_bytes prev curr =
      if contains_null (codec.unmarshal curr)
      then with_format full_format (compact_json curr)
      else with_format merge_format (diff_bytes prev curr)

  -- `flattenResourceContents`: the one text, or the decoded texts in an array.
  abbrev parts_of : List B → Items
  parts_of [] = nil
  parts_of (t ∷ ts) =
      let rest = parts_of ts in elim (codec.unmarshal t) [ none ↦ rest | some v ↦ cons v rest ]

  unfoldable pub flatten_resource_contents : List B → Option B
  flatten_resource_contents [] = none
  flatten_resource_contents (t ∷ []) = some t
  flatten_resource_contents (t ∷ u ∷ ts) = some (codec.marshal (arr (parts_of (t ∷ u ∷ ts))))

  abbrev pub decoded_delta : DeltaFormat → Option Value → Delta
  decoded_delta f none = unknown
  decoded_delta f (some v) = record { format = f; patch = some v }

  abbrev pub delta_of : Fallible DiffError (B × DeltaFormat) → Delta
  delta_of (err e) = unknown
  delta_of (ok (t, f)) = decoded_delta f (codec.unmarshal t)

  -- The delta against what was cached, if anything.
  unfoldable pub delta_against : Option B → B → Delta
  unfolding diff_or_full_bytes
  delta_against none new_state = unknown
  delta_against (some prev) new_state = delta_of (diff_or_full_bytes prev new_state)

  -- From the fresh document on. The shared tail of both emitters.
  unfoldable pub emit_state : String → B → ResourceStateCache B → ResourceStateCache B × Delta
  unfolding delta_against
  emit_state uri new_state c =
      let found = get uri c in (put uri new_state found.1, delta_against found.0 new_state)

  abbrev emit_flat : String → Option B → ResourceStateCache B → ResourceStateCache B × Delta
  emit_flat uri none c = (c, unknown)
  emit_flat uri (some new_state) c = emit_state uri new_state c

  abbrev emit_read : String → Option (List B) → ResourceStateCache B → ResourceStateCache B × Delta
  emit_read uri none c = (drop uri c, unknown)
  emit_read uri (some contents) c = emit_flat uri (flatten_resource_contents contents) c

  -- `emitResourceUpdate`, given the gate's answer and what reading the resource came to.
  unfoldable pub emit_resource_update :
      String
      → (gate : Bool) → (read : Option (List B)) → ResourceStateCache B
      → ResourceStateCache B × Option Delta
  unfolding emit_state flatten_resource_contents
  emit_resource_update uri gate read c =
      if (uri == "") || not gate
      then (c, none)
      else (let sent = emit_read uri read c in (sent.0, some sent.1))

  -- `emitResourceUpdateWithState`, given what `json.Marshal` makes of the payload, if it does.
  unfoldable pub emit_resource_update_with_state :
      String
      → (gate : Bool) → (new_state : Option B) → ResourceStateCache B
      → ResourceStateCache B × Option Delta
  unfolding emit_state
  emit_resource_update_with_state uri gate new_state c =
      if (uri == "") || not gate
      then (c, none)
      else (let sent = emit_flat uri new_state c in (sent.0, some sent.1))

  unfoldable pub emit_resource_deleted :
      String → ResourceStateCache B → ResourceStateCache B × Option Delta
  emit_resource_deleted uri c =
      if uri == ""
      then (c, none)
      else (drop uri c, some (record { format = deleted_format; patch = none }))
