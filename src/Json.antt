-- ===== src/Json.antt =====
-- The JSON trees that `encoding/json` decodes into `any`, as the code's type switches see them. A
-- number is kept as the text that `json.Marshal` writes for it. An object is a Go map: its fields
-- are an association list, and a key that stands twice is read at its first place only.
pub mod Equality
use go_clockify.Base.{
  String, ◌≡◌, Bool, Option, none, some, arith, ◌==◌, beq_iff, String_eq, if◌then◌else◌,
}

mutual
  pub data Fields : Type 0 where
    end : Fields
    field : String → Value → Fields → Fields

  pub data Value : Type 0 where
    obj : Fields → Value
    arr : Items → Value
    str num : String → Value
    bool : Bool → Value
    null : Value

  pub data Items : Type 0 where
    nil : Items
    cons : Value → Items → Items

-- v, ok := m[k]
unfoldable pub get : String → Fields → Option Value
get k end = none
get k (field j v fs) = if j == k then some v else get k fs

-- delete(m, k)
unfoldable pub remove : String → Fields → Fields
remove k end = end
remove k (field j v fs) = let rest = remove k fs in if j == k then rest else field j v rest

-- m[k] = v
unfoldable pub put : String → Value → Fields → Fields
put k v fs = field k v (remove k fs)

pub get-remove :
    (k j : String) (fs : Fields) → get j (remove k fs) ≡ (if k == j then none else get j fs)
unfolding get remove
get-remove k j end = ground arith
get-remove k j (field i v fs) =
    ground (arith, get-remove k j fs, beq_iff i k, beq_iff i j, beq_iff k j)

pub get-put :
    (k j : String) (v : Value) (fs : Fields)
    → get j (put k v fs) ≡ (if k == j then some v else get j fs)
unfolding get put
get-put k j v fs = ground (arith, get-remove k j fs)

pub ruleset json_laws = (get-remove, get-put)
