-- ===== src/Delta/Mirror.antt =====
-- A client that keeps its copy of a resource by the deltas of internal/tools/resources.go has the
-- resource's document after every update.
use go_clockify.Base.{
  ◌≡◌, refl, sym, inl, inr, true, false, Option, none, some, arith, Testable, ℕ_eq, String_eq,
  Bool-cases,
}
use mathlib.Core.Path.{subst}
use go_clockify.Pagination.Fallible.{Fallible, ok}
use go_clockify.Json.{Value, obj, Fields, end, field}
use go_clockify.MergePatch.Same.{Same, equal}
use go_clockify.MergePatch.Equivalence.{Same-sym, Same-trans, apply_any-Same, apply_any-patch}
use go_clockify.MergePatch.Patch.{diff_objects, has_null, apply_any, diff, or_null}
use go_clockify.MergePatch.RoundTrip.{apply-diff}
use go_clockify.Delta.Emit.{
  DiffError, patch_text, diff_values, diff_decoded, delta_of, with_format, Codec, none_format,
  merge_format, full_format, deleted_format, Delta, compact_json, contains_null, diff_bytes,
  diff_or_full_bytes, delta_against,
}

-- What a client makes of a delta: it fetches the document anew, patches or replaces its copy, or drops
-- it.
abbrev pub client_after : Delta → (fetched copy : Option Value) → Option Value
client_after delta fetched copy = elim delta.format [
  | none_format ↦ fetched
  | deleted_format ↦ none
  | full_format ↦ delta.patch
  | merge_format ↦ elim delta.patch [
    | none ↦ copy
    | some patch ↦ some (apply_any (or_null copy) patch)
  ]
]

module _ {B : Type 0} ⦃e : Testable B⦄ (codec : Codec B)
    (reads_back : (v : Value)
      → (w : Value) × (codec.unmarshal (codec.marshal v) ≡ some w) × Same v w)
    (compacts : (s : B) (v : Value)
      → codec.unmarshal s ≡ some v
      → (t : B) × (codec.compact s ≡ some t)
        × (codec.unmarshal t ≡ some v)
        × (codec.is_empty t ≡ false))
    (empty_object : codec.unmarshal codec.empty_object ≡ some (obj end)) where
  -- The copy is the document.
  unfoldable pub Mirrors : Option Value → Value → Type 0
  Mirrors copy q = (d : Value) × (copy ≡ some d) × Same d q

  reads : (a b : Value) → codec.marshal a ≡ codec.marshal b → Same a b
  reads a b q =
      let x = reads_back a in
      let y = reads_back b in
      let same : x.0 ≡ y.0 = ground (arith, x.1, y.1, q) in
      Same-trans x.2 (subst (λ w. Same w b) (sym same) (Same-sym y.2))

  full-Mirrors :
      (curr : B) (q : Value) (prev : B) (copy : Option Value)
      → codec.unmarshal curr ≡ some q
      → has_null q ≡ true
      → client_after (delta_against codec (some prev) curr) (some q) copy ≡ some q
  unfolding delta_against diff_or_full_bytes compact_json
  full-Mirrors curr q prev copy e h =
      let t = compacts curr q e in ground (arith, e, h, t.1, t.2, t.3)

  -- A text that is read back as the document, or as one that is the same.
  Writes : Fallible DiffError B → Value → Type 0
  Writes r v = (t : B) × (r ≡ ok t) × (w : Value) × (codec.unmarshal t ≡ some w) × Same v w

  patch_text-Writes : (fs : Fields) → Writes (ok (patch_text codec fs)) (obj fs)
  unfolding Writes
  patch_text-Writes end = (codec.empty_object, refl, obj end, empty_object, equal (obj end))
  patch_text-Writes (field k v fs) =
      let x = reads_back (obj (field k v fs)) in
      (codec.marshal (obj (field k v fs)), refl, x.0, x.1, x.2)

  compact_json-Writes :
      (curr : B) (q : Value) → codec.unmarshal curr ≡ some q → Writes (compact_json codec curr) q
  unfolding Writes compact_json
  compact_json-Writes curr q e =
      let t = compacts curr q e in (t.0, ground (arith, t.1, t.3), q, t.2, equal q)

  diff_values-Writes :
      (curr : B) (p q : Value)
      → codec.unmarshal curr ≡ some q
      → Writes (diff_values codec curr p q) (diff codec.marshal p q)
  unfolding diff
  diff_values-Writes curr (obj p) (obj q) e = patch_text-Writes (diff_objects codec.marshal p q)
  diff_values-Writes curr (obj p) q e = compact_json-Writes curr q e
  diff_values-Writes curr p q e = compact_json-Writes curr q e

  merged :
      (r : Fallible DiffError B) (p q m : Value)
      → has_null q ≡ false
      → Same m p
      → Writes r (diff codec.marshal p q)
      → Mirrors
          (client_after (delta_of codec (with_format codec merge_format r)) (some q) (some m))
          q
  unfolding Writes Mirrors
  merged r p q m h s (t, a, w, b, same) = (
    apply_any m w,
    ground (arith, a, b),
    Same-trans (Same-sym (apply_any-patch m (diff codec.marshal p q) w same)) (
        Same-trans (apply_any-Same (diff codec.marshal p q) m p s)
          (apply-diff codec.marshal reads p q h)),
  )

  patch-Mirrors :
      (prev curr : B) (p q m : Value)
      → codec.unmarshal prev ≡ some p
      → codec.unmarshal curr ≡ some q
      → has_null q ≡ false
      → Same m p
      → Mirrors (client_after (delta_against codec (some prev) curr) (some q) (some m)) q
  unfolding delta_against diff_or_full_bytes diff_bytes
  patch-Mirrors prev curr p q m f e h s =
      let r = diff_decoded codec curr (codec.unmarshal prev) (codec.unmarshal curr) in
      let same : r ≡ diff_values codec curr p q = ground (arith, e, f) in
      let no_null : contains_null codec (codec.unmarshal curr) ≡ false = ground (arith, e, h) in
      rw no_null (
        merged r p q m h s (
          subst (λ x. Writes x (diff codec.marshal p q)) (sym same)
            (diff_values-Writes curr p q e)))

  -- Of a client whose copy is the document that the delta is against.
  pub delta_against-Mirrors :
      (prev curr : B) (p q m : Value)
      → codec.unmarshal prev ≡ some p
      → codec.unmarshal curr ≡ some q
      → Same m p
      → Mirrors (client_after (delta_against codec (some prev) curr) (some q) (some m)) q
  unfolding Mirrors
  delta_against-Mirrors prev curr p q m f e s = elim (Bool-cases (has_null q)) [
    | inl h ↦ (q, full-Mirrors curr q prev (some m) e h, equal q)
    | inr h ↦ patch-Mirrors prev curr p q m f e h s
  ]
