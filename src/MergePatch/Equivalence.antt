-- ===== src/MergePatch/Equivalence.antt =====
-- `Same` is an equivalence, and patching respects it.
use go_clockify.Base.{
  String, ◌≡◌, refl, sym, inl, inr, Option, none, some, arith, ◌==◌, ℕ_eq, String_eq, Bool-cases,
}
use mathlib.Core.Path.{subst}
use go_clockify.Json.{Value, null, bool, num, str, arr, obj, Items, Fields, end, field, get}
use go_clockify.MergePatch.Patch.{apply_any, apply_fields, fields_of, or_null}
use go_clockify.MergePatch.Lookups.{patched, get-apply_fields}
use go_clockify.MergePatch.Same.{
  Same, equal, items, objects, SameItems, no_items, more_items, SameMember, neither, both,
}

mutual
  pub Same-sym : {v w : Value} → Same v w → Same w v
  Same-sym (equal v) = equal v
  Same-sym (items xs ys s) = items ys xs (SameItems-sym s)
  Same-sym (objects fs gs s) = objects gs fs (λ k. SameMember-sym (s k))

  SameItems-sym : {xs ys : Items} → SameItems xs ys → SameItems ys xs
  SameItems-sym no_items = no_items
  SameItems-sym (more_items x y xs ys s r) = more_items y x ys xs (Same-sym s) (SameItems-sym r)

  SameMember-sym : {o p : Option Value} → SameMember o p → SameMember p o
  SameMember-sym neither = neither
  SameMember-sym (both a b s) = both b a (Same-sym s)

mutual
  pub Same-trans : {u v w : Value} → Same u v → Same v w → Same u w
  Same-trans (equal v) r = r
  Same-trans (items xs ys s) (equal _) = items xs ys s
  Same-trans (items xs ys s) (items _ zs r) = items xs zs (SameItems-trans s r)
  Same-trans (objects fs gs s) (equal _) = objects fs gs s
  Same-trans (objects fs gs s) (objects _ hs r) = objects fs hs (λ k. SameMember-trans (s k) (r k))

  SameItems-trans : {xs ys zs : Items} → SameItems xs ys → SameItems ys zs → SameItems xs zs
  SameItems-trans no_items r = r
  SameItems-trans (more_items x y xs ys s q) (more_items _ z _ zs t r) =
      more_items x z xs zs (Same-trans s t) (SameItems-trans q r)

  SameMember-trans : {o p q : Option Value} → SameMember o p → SameMember p q → SameMember o q
  SameMember-trans neither r = r
  SameMember-trans (both a b s) (both _ c r) = both a c (Same-trans s r)

SameMember-refl : (o : Option Value) → SameMember o o
SameMember-refl none = neither
SameMember-refl (some v) = both v v (equal v)

-- Documents that are the same have the same members.
fields_of-Same :
    (v w : Value) → Same v w → (k : String) → SameMember (get k (fields_of v)) (get k (fields_of w))
fields_of-Same v w (equal u) k = SameMember-refl (get k (fields_of u))
fields_of-Same v w (items xs ys s) k = SameMember-refl (get k end)
fields_of-Same v w (objects fs gs s) k = s k

or_null-Same : (o p : Option Value) → SameMember o p → Same (or_null o) (or_null p)
or_null-Same o p neither = equal null
or_null-Same o p (both a b s) = s

-- A patch respects sameness, as far as one of its members goes.
abbrev pub Respects : Value → Type 0
Respects patch = (v w : Value) → Same v w → Same (apply_any v patch) (apply_any w patch)

patched-SameMember :
    (o p q : Option Value)
    → ((patch : Value) → q ≡ some patch → Respects patch)
    → SameMember o p
    → SameMember (patched o q) (patched p q)
patched-SameMember o p none r s = s
patched-SameMember o p (some null) r s = neither
patched-SameMember o p (some v) r s = kept v (r v refl (or_null o) (or_null p) (or_null-Same o p s))
  where
    kept :
        (u : Value)
        → Same (apply_any (or_null o) u) (apply_any (or_null p) u)
        → SameMember (patched o (some u)) (patched p (some u))
    kept null q = neither
    kept (bool b) q = both _ _ q
    kept (num x) q = both _ _ q
    kept (str x) q = both _ _ q
    kept (arr xs) q = both _ _ q
    kept (obj fs) q = both _ _ q

mutual
  unfolding apply_any get

  -- Patching the same documents gives the same documents.
  pub apply_any-Same : (patch : Value) → Respects patch
  apply_any-Same null v w s = equal null
  apply_any-Same (bool b) v w s = equal (bool b)
  apply_any-Same (num x) v w s = equal (num x)
  apply_any-Same (str x) v w s = equal (str x)
  apply_any-Same (arr xs) v w s = equal (arr xs)
  apply_any-Same (obj fs) v w s =
      objects (apply_fields (fields_of v) fs) (apply_fields (fields_of w) fs) (λ k.
        subst (SameMember (get k (apply_fields (fields_of v) fs)))
          (sym (get-apply_fields k (fields_of w) fs))
          (subst (λ o. SameMember o (patched (get k (fields_of w)) (get k fs)))
            (sym (get-apply_fields k (fields_of v) fs))
            (patched-SameMember (get k (fields_of v)) (get k (fields_of w)) (get k fs)
              (members fs k) (fields_of-Same v w s k))))

  members : (fs : Fields) (k : String) (patch : Value) → get k fs ≡ some patch → Respects patch
  members end k patch q = absurd (ground (arith, q))
  members (field j v fs) k patch q = elim (Bool-cases (j == k)) [
    | inl e ↦ let same : v ≡ patch = ground (arith, q, e) in subst Respects same (apply_any-Same v)
    | inr e ↦ members fs k patch (ground (arith, q, e))
  ]

mutual
  unfolding apply_any

  -- Patches that are the same do the same.
  pub apply_any-patch : (v p q : Value) → Same p q → Same (apply_any v p) (apply_any v q)
  apply_any-patch v p q (equal u) = equal (apply_any v u)
  apply_any-patch v p q (items xs ys s) = items xs ys s
  apply_any-patch v p q (objects fs gs s) =
      objects (apply_fields (fields_of v) fs) (apply_fields (fields_of v) gs) (λ k.
        subst (SameMember (get k (apply_fields (fields_of v) fs)))
          (sym (get-apply_fields k (fields_of v) gs))
          (subst (λ o. SameMember o (patched (get k (fields_of v)) (get k gs)))
            (sym (get-apply_fields k (fields_of v) fs))
            (patched-patch (get k (fields_of v)) (get k fs) (get k gs) (s k))))

  patched-patch : (o p q : Option Value) → SameMember p q → SameMember (patched o p) (patched o q)
  patched-patch o p q neither = SameMember-refl o
  patched-patch o p q (both a b (equal u)) = SameMember-refl (patched o (some u))
  patched-patch o p q (both a b (items xs ys s)) = both (arr xs) (arr ys) (items xs ys s)
  patched-patch o p q (both a b (objects fs gs s)) =
      both (apply_any (or_null o) (obj fs)) (apply_any (or_null o) (obj gs))
        (apply_any-patch (or_null o) (obj fs) (obj gs) (objects fs gs s))
