-- ===== src/MergePatch/RoundTrip.antt =====
-- A patch applied to the old document gives the new one.
use go_clockify.Base.{
  String, ◌≡◌, refl, inl, inr, Bool, true, false, ◌||◌, Option, none, some, arith, if◌then◌else◌,
  Testable, ◌==◌, beq_iff, ℕ_eq, String_eq, Bool-cases, ◌⊎◌,
}
use go_clockify.Json.{Value, null, bool, num, str, arr, obj, Fields, end, field, get}
use go_clockify.MergePatch.Patch.{
  apply_any, apply_fields, member_patch, diff_objects, has_null, fields_have_null, deep_equal,
  sub_patch, nested, fields_of, diff, diff_or_full, merge, full,
}
use go_clockify.MergePatch.Same.{Same, equal, objects, SameMember, neither, both}
use go_clockify.MergePatch.Lookups.{patched, removed, added, get-apply_fields, get-diff_objects}

no_null_first :
    (v : Value) (fs : Fields) → (has_null v || fields_have_null fs) ≡ false → has_null v ≡ false
no_null_first v fs h = ground arith

no_null_rest :
    (v : Value) (fs : Fields)
    → (has_null v || fields_have_null fs) ≡ false
    → fields_have_null fs ≡ false
no_null_rest v fs h = ground arith

-- The members of an object, one by one.
each_member :
    (P : Value → Type 0) (k j : String) (v w : Value) (fs : Fields)
    → get k (field j v fs) ≡ some w
    → P v
    → (get k fs ≡ some w → P w)
    → P w
unfolding get
each_member P k j v w fs h here there = elim (Bool-cases (j == k)) [
  | inl e ↦ let same : v ≡ w = ground arith in rw (← same) here
  | inr e ↦ there (ground arith)
]

-- A document without null, where there was nothing.
abbrev Fresh : Value → Type 0
Fresh v = SameMember (patched none (some v)) (some v)

new_member :
    (c : Option Value) → ((v : Value) → c ≡ some v → Fresh v) → SameMember (patched none c) c
new_member none f = neither
new_member (some v) f = f v refl

new_fields :
    (fs : Fields)
    → ((k : String) (v : Value) → get k fs ≡ some v → Fresh v)
    → Same (obj (apply_fields end fs)) (obj fs)
unfolding get
new_fields fs f =
    objects (apply_fields end fs) fs
      (λ k. rw (get-apply_fields k end fs) (new_member (get k fs) (f k)))

mutual
  unfolding apply_any apply_fields has_null fields_have_null get

  new_value : (v : Value) → has_null v ≡ false → Fresh v
  new_value null h = cc
  new_value (bool b) h = both (bool b) (bool b) (equal (bool b))
  new_value (num b) h = both (num b) (num b) (equal (num b))
  new_value (str b) h = both (str b) (str b) (equal (str b))
  new_value (arr b) h = both (arr b) (arr b) (equal (arr b))
  new_value (obj fs) h = both (obj (apply_fields end fs)) (obj fs) (new_fields fs (new_each fs h))

  new_each :
      (fs : Fields)
      → fields_have_null fs ≡ false
      → (k : String) (v : Value) → get k fs ≡ some v
      → Fresh v
  new_each end h k v g = cc
  new_each (field j w fs) h k v g =
      each_member Fresh k j w v fs g (new_value w (no_null_first w fs h))
        (new_each fs (no_null_rest w fs h) k v)

-- Equal bytes are read back as the same document.
module _ {B : Type 0} ⦃e : Testable B⦄ (marshal : Value → B)
    (reads : (a b : Value) → marshal a ≡ marshal b → Same a b) where
  -- The patch of a member turns what there was into what is to be.
  abbrev Reached : Value → Type 0
  Reached v = (old : Option Value) → SameMember (patched old (member_patch marshal old v)) (some v)

  unless_equal :
      (equal_bytes : Bool) (p v : Value) (q : Option Value)
      → (equal_bytes ≡ true → Same p v)
      → SameMember (patched (some p) q) (some v)
      → SameMember (patched (some p) (if equal_bytes then none else q)) (some v)
  unless_equal true p v q s t = both p v (s refl)
  unless_equal false p v q s t = t

  deep_equal-Same : (a b : Value) → deep_equal marshal a b ≡ true → Same a b
  deep_equal-Same a b h = reads a b ((beq_iff (marshal a) (marshal b)).0 h)

  made_member :
      (new old : Option Value)
      → ((v : Value) → new ≡ some v → Reached v)
      → SameMember (patched old (removed new old (added marshal new old))) new
  made_member none none f = neither
  made_member none (some v) f = neither
  made_member (some v) old f = f v refl old

  made_fields :
      (prev curr : Fields)
      → ((k : String) (v : Value) → get k curr ≡ some v → Reached v)
      → Same (obj (apply_fields prev (diff_objects marshal prev curr))) (obj curr)
  made_fields prev curr f = objects (apply_fields prev (diff_objects marshal prev curr)) curr (λ k.
      rw (get-apply_fields k prev (diff_objects marshal prev curr))
        (rw (get-diff_objects marshal k prev curr) (made_member (get k curr) (get k prev) (f k))))

  patched-sub_patch :
      (fs patch : Fields)
      → patched (some (obj fs)) (sub_patch patch) ≡ some (obj (apply_fields fs patch))
  unfolding apply_any apply_fields
  patched-sub_patch fs end = refl
  patched-sub_patch fs (field k v patch) = refl

  module _ (fs : Fields) (fresh : (k : String) (v : Value) → get k fs ≡ some v → Fresh v)
      (reached : (k : String) (v : Value) → get k fs ≡ some v → Reached v) where
    abbrev new_object : SameMember (some (obj (apply_fields end fs))) (some (obj fs))
    new_object = both (obj (apply_fields end fs)) (obj fs) (new_fields fs fresh)

    made_nested :
        (p : Value)
        → SameMember
            (patched (some p) (nested p (diff_objects marshal (fields_of p) fs) (obj fs)))
            (some (obj fs))
    unfolding apply_any apply_fields
    made_nested null = new_object
    made_nested (bool b) = new_object
    made_nested (num b) = new_object
    made_nested (str b) = new_object
    made_nested (arr b) = new_object
    made_nested (obj prev) = rw (patched-sub_patch prev (diff_objects marshal prev fs)) (
        both (obj (apply_fields prev (diff_objects marshal prev fs))) (obj fs)
          (made_fields prev fs reached))

  module _ (p v : Value) where
    abbrev unless_unchanged :
        (q : Option Value)
        → SameMember (patched (some p) q) (some v)
        → SameMember (patched (some p) (if deep_equal marshal p v then none else q)) (some v)
    unless_unchanged q t = unless_equal (deep_equal marshal p v) p v q (deep_equal-Same p v) t

  mutual
    unfolding apply_any apply_fields has_null fields_have_null get member_patch diff_objects

    made_value : (v : Value) → has_null v ≡ false → Reached v
    made_value v h none = new_value v h
    made_value null h (some p) = cc
    made_value (bool b) h (some p) =
        unless_unchanged p (bool b) (some (bool b)) (both (bool b) (bool b) (equal (bool b)))
    made_value (num b) h (some p) =
        unless_unchanged p (num b) (some (num b)) (both (num b) (num b) (equal (num b)))
    made_value (str b) h (some p) =
        unless_unchanged p (str b) (some (str b)) (both (str b) (str b) (equal (str b)))
    made_value (arr b) h (some p) =
        unless_unchanged p (arr b) (some (arr b)) (both (arr b) (arr b) (equal (arr b)))
    made_value (obj fs) h (some p) =
        unless_unchanged p (obj fs) (nested p (diff_objects marshal (fields_of p) fs) (obj fs))
          (made_nested fs (new_each fs h) (made_each fs h) p)

    made_each :
        (fs : Fields)
        → fields_have_null fs ≡ false
        → (k : String) (v : Value) → get k fs ≡ some v
        → Reached v
    made_each end h k v g = cc
    made_each (field j w fs) h k v g =
        each_member Reached k j w v fs g (made_value w (no_null_first w fs h))
          (made_each fs (no_null_rest w fs h) k v)

  new_top : (p v : Value) → has_null v ≡ false → fields_of p ≡ end → Same (apply_any p v) v
  unfolding apply_any has_null
  new_top p null h e = cc
  new_top p (bool b) h e = equal (bool b)
  new_top p (num b) h e = equal (num b)
  new_top p (str b) h e = equal (str b)
  new_top p (arr b) h e = equal (arr b)
  new_top p (obj fs) h e = rw e (new_fields fs (new_each fs h))

  -- The patch between two documents, the new one without null, turns the old into the new, if equal
  -- bytes are read back as the same document.
  pub apply-diff :
      (prev curr : Value)
      → has_null curr ≡ false
      → Same (apply_any prev (diff marshal prev curr)) curr
  unfolding diff apply_any has_null
  apply-diff (obj prev) (obj curr) h = made_fields prev curr (made_each curr h)
  apply-diff (obj prev) null h = cc
  apply-diff (obj prev) (bool b) h = equal (bool b)
  apply-diff (obj prev) (num b) h = equal (num b)
  apply-diff (obj prev) (str b) h = equal (str b)
  apply-diff (obj prev) (arr b) h = equal (arr b)
  apply-diff null curr h = new_top null curr h refl
  apply-diff (bool b) curr h = new_top (bool b) curr h refl
  apply-diff (num b) curr h = new_top (num b) curr h refl
  apply-diff (str b) curr h = new_top (str b) curr h refl
  apply-diff (arr b) curr h = new_top (arr b) curr h refl

  -- What is sent is enough, whatever the two documents are, if equal bytes are read back as the same
  -- document: a client that applies a patch has the new document, and a full document is the new one
  -- itself, which is sent only if it holds a null.
  pub diff_or_full_lem :
      (prev curr : Value)
      → let (sent, format) = diff_or_full marshal prev curr in
        ((format ≡ merge) × Same (apply_any prev sent) curr)
        ⊎ ((format ≡ full) × (sent ≡ curr) × (has_null curr ≡ true))
  unfolding diff_or_full
  diff_or_full_lem prev curr = elim (Bool-cases (has_null curr)) [
    | inl h ↦ rw h (inr (refl, refl, refl))
    | inr h ↦ rw h (inl (refl, apply-diff prev curr h))
  ]
