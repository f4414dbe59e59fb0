-- ===== src/Safety/Canonical.antt =====
-- The canonical form of a call's arguments, internal/safety/canonical.go. `json.Marshal` and
-- SHA-256 are a library's: their composition is an argument where a hash is taken.
use go_clockify.Base.{
  String, ◌≡◌, refl, ap, Bool, ◌||◌, arith, if◌then◌else◌, ◌==◌, ℕ_eq, String_eq, true, false,
  Bool-cases, beq_iff, inl, none, inr,
}
use mathlib.Core.Option
use go_clockify.Json.{
  remove, put, Value, null, bool, num, str, arr, obj, Items, nil, cons, Fields, end, field, get,
}

unfoldable pub is_control : String → Bool
is_control key = (key == "confirm_token") || (key == "dry_run")

unfoldable mutual
  pub normalize : Value → Value
  normalize (obj fs) = obj (normalize_fields fs)
  normalize (arr xs) = arr (normalize_items xs)
  normalize v = v

  pub normalize_items : Items → Items
  normalize_items nil = nil
  normalize_items (cons x xs) = cons (normalize x) (normalize_items xs)

  pub normalize_fields : Fields → Fields
  normalize_fields end = end
  normalize_fields (field k v fs) =
      if is_control k then normalize_fields fs else field k (normalize v) (normalize_fields fs)

-- `hash` stands for the hex digest of the SHA-256 of the marshalled value.
unfoldable pub hash_canonical : (hash : Value → String) → Value → String
unfolding normalize
hash_canonical hash v = hash (normalize v)

mutual
  unfolding normalize

  normalize_idem' : (v : Value) → normalize (normalize v) ≡ normalize v
  normalize_idem' null = refl
  normalize_idem' (bool b) = refl
  normalize_idem' (num n) = refl
  normalize_idem' (str s) = refl
  normalize_idem' (arr xs) = ap arr (normalize_items_idem xs)
  normalize_idem' (obj fs) = ap obj (normalize_fields_idem fs)

  normalize_items_idem : (xs : Items) → normalize_items (normalize_items xs) ≡ normalize_items xs
  normalize_items_idem nil = refl
  normalize_items_idem (cons x xs) = λ i. cons (normalize_idem' x i) (normalize_items_idem xs i)

  normalize_fields_idem :
      (fs : Fields) → normalize_fields (normalize_fields fs) ≡ normalize_fields fs
  normalize_fields_idem end = refl
  normalize_fields_idem (field k v fs) = ground (arith, normalize_idem' v, normalize_fields_idem fs)

-- No control key stands at any depth.
abbrev mutual
  pub IsCanonical : Value → Type 0
  IsCanonical (obj fs) = IsCanonicalFields fs
  IsCanonical (arr xs) = IsCanonicalItems xs
  IsCanonical v = Unit

  pub IsCanonicalItems : Items → Type 0
  IsCanonicalItems nil = Unit
  IsCanonicalItems (cons x xs) = IsCanonical x × IsCanonicalItems xs

  pub IsCanonicalFields : Fields → Type 0
  IsCanonicalFields end = Unit
  IsCanonicalFields (field k v fs) = (is_control k ≡ false) × IsCanonical v × IsCanonicalFields fs

mutual
  unfolding normalize

  normalize-IsCanonical' : (v : Value) → IsCanonical (normalize v)
  normalize-IsCanonical' null = tt
  normalize-IsCanonical' (bool b) = tt
  normalize-IsCanonical' (num n) = tt
  normalize-IsCanonical' (str s) = tt
  normalize-IsCanonical' (arr xs) = normalize_items-IsCanonical xs
  normalize-IsCanonical' (obj fs) = normalize_fields-IsCanonical fs

  normalize_items-IsCanonical : (xs : Items) → IsCanonicalItems (normalize_items xs)
  normalize_items-IsCanonical nil = tt
  normalize_items-IsCanonical (cons x xs) =
      (normalize-IsCanonical' x, normalize_items-IsCanonical xs)

  normalize_fields-IsCanonical : (fs : Fields) → IsCanonicalFields (normalize_fields fs)
  normalize_fields-IsCanonical end = tt
  normalize_fields-IsCanonical (field k v fs) = elim (Bool-cases (is_control k)) [
    | inl control ↦ rw control (normalize_fields-IsCanonical fs)
    | inr kept ↦ rw kept (kept, normalize-IsCanonical' v, normalize_fields-IsCanonical fs)
  ]

-- The canonical form holds neither control key at any depth, and is its own canonical form.
pub normalize_lem :
    (v : Value) → IsCanonical (normalize v) × (normalize (normalize v) ≡ normalize v)
normalize_lem v = (normalize-IsCanonical' v, normalize_idem' v)

-- Any other key stays, with its value in canonical form.
get-normalize :
    (k : String) (fs : Fields)
    → get k (normalize_fields fs) ≡ (if is_control k then none else Option.map normalize (get k fs))
unfolding normalize get
get-normalize k end = ground arith
get-normalize k (field j v fs) = ground (arith, get-normalize k fs, beq_iff j k)

normalize-remove :
    (k : String) (fs : Fields)
    → is_control k ≡ true
    → normalize_fields (remove k fs) ≡ normalize_fields fs
unfolding normalize remove
normalize-remove k end h = refl
normalize-remove k (field j v fs) h = ground (arith, normalize-remove k fs h, beq_iff j k)

-- Setting or deleting a control key does not change the hash of the arguments, whatever it held.
pub hash_canonical_control :
    (hash : Value → String) (k : String) (v : Value) (fs : Fields)
    → is_control k ≡ true
    → (hash_canonical hash (obj (put k v fs)) ≡ hash_canonical hash (obj fs))
      × (hash_canonical hash (obj (remove k fs)) ≡ hash_canonical hash (obj fs))
unfolding hash_canonical put
hash_canonical_control hash k v fs h = ground (arith, normalize-remove k fs h)
