-- ===== src/Delta/Examples.antt =====
-- The theorems on deltas at concrete inputs, and runs of the code. Bytes are the documents themselves.
use go_clockify.Base.{
  ℕ, ◌≡◌, refl, true, false, none, some, List, [], ◌∷◌, arith, beq_iff, ℕ_eq, String_eq, pos,
}
use go_clockify.Base.Assoc.{lookup, insert, erase}
use go_clockify.Json.{Value, bool, str, obj, end, field, get as member, put as put_member, remove}
use go_clockify.Json.Equality.{Value_eq}
use go_clockify.MergePatch.Same.{Same, equal}
use go_clockify.MergePatch.Patch.{
  apply_any, apply_fields, has_null, additions, removals, member_patch, diff_objects,
}
use go_clockify.Delta.Cache.{
  ResourceStateCache, Use, get_use, put_use, use_all, new_resource_state_cache, get, put,
}
use go_clockify.Delta.Emit.{
  Codec, merge_format, emit_resource_update, emit_state, flatten_resource_contents, delta_against,
  diff_or_full_bytes, diff_bytes, compact_json,
}
use go_clockify.Delta.Mirror.{client_after}
use go_clockify.Delta.Watch.{changed, deleted, watch, watch_all, watch_all-Mirrors}

abbrev plain : Codec Value
plain = record {
  unmarshal = λ v. some v;
  marshal = λ v. v;
  compact = λ v. some v;
  is_empty = λ v. false;
  empty_object = obj end;
}

abbrev running : Value
running = obj (field "name" (str "review") (field "running" (bool true) end))

abbrev stopped : Value
stopped = obj (field "name" (str "review") end)

watch_all-Mirrors_example :
    (m : Value) × ((watch plain "entry" (changed "entry" stopped) (
        watch_all plain "entry"
          (changed "entry" running ∷ deleted "project" ∷ [])
          (record { cache = new_resource_state_cache (pos 2); copy = none }))).copy
      ≡ some m)
    × Same m stopped
watch_all-Mirrors_example =
    watch_all-Mirrors plain "entry" (λ v. (v, refl, equal v)) (λ s v q. (s, refl, q, refl)) refl
      refl (pos 2) (changed "entry" running ∷ deleted "project" ∷ []) stopped stopped
      ((running, refl), tt) refl

abbrev uses : List (Use ℕ)
uses = put_use "a" 1 ∷ put_use "b" 2 ∷ get_use "a" ∷ put_use "c" 3 ∷ []

-- The entry that was used last stays.
oldest_goes : (use_all uses (new_resource_state_cache (pos 2))).entries ≡ ("c", 3) ∷ ("a", 1) ∷ []
unfolding use_all new_resource_state_cache get put lookup insert erase
oldest_goes = refl

-- While nobody is subscribed the cache keeps the old document. A client that subscribes again and reads
-- the stopped entry is sent an empty patch when the entry runs again, and keeps the stopped one.
abbrev old_baseline : ResourceStateCache Value
old_baseline = record { cap = 2; entries = ("entry", running) ∷ [] }

not_noted :
    emit_resource_update plain "entry" false (some (stopped ∷ [])) old_baseline
    ≡ (old_baseline, none)
unfolding emit_resource_update
not_noted = refl

stale_patch :
    (emit_resource_update plain "entry" true (some (running ∷ [])) old_baseline).1
    ≡ some (record { format = merge_format; patch = some (obj end) })
unfolding emit_resource_update emit_state flatten_resource_contents delta_against diff_or_full_bytes
    diff_bytes compact_json get put lookup insert erase has_null diff_objects additions removals
    member_patch member put_member remove
stale_patch = ground (
  arith,
  beq_iff {A = Value} (str "review") (str "review"),
  beq_iff {A = Value} (bool true) (bool true),
)

stale_copy :
    client_after
      (record { format = merge_format; patch = some (obj end) })
      (some running)
      (some stopped)
    ≡ some stopped
unfolding apply_any apply_fields
stale_copy = refl
