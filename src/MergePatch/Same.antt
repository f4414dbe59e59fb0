-- ===== src/MergePatch/Same.antt =====
-- When two decoded documents are the same: maps by what their keys hold, in whatever order they stand.
use go_clockify.Base.{String, Option, none, some, ℕ_eq, String_eq}
use go_clockify.Json.{Value, arr, obj, Items, nil, cons, Fields, get}

mutual
  pub data Same : Value → Value → Type 0 where
    equal : (v : Value) → Same v v
    items : (xs ys : Items) → SameItems xs ys → Same (arr xs) (arr ys)
    objects :
        (fs gs : Fields)
        → ((k : String) → SameMember (get k fs) (get k gs))
        → Same (obj fs) (obj gs)

  pub data SameItems : Items → Items → Type 0 where
    no_items : SameItems nil nil
    more_items :
        (x y : Value) (xs ys : Items)
        → Same x y
        → SameItems xs ys
        → SameItems (cons x xs) (cons y ys)

  pub data SameMember : Option Value → Option Value → Type 0 where
    neither : SameMember none none
    both : (a b : Value) → Same a b → SameMember (some a) (some b)
