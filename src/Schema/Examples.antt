-- ===== src/Schema/Examples.antt =====
-- A run of the pointers of the validator's errors.
use go_clockify.Base.{◌≡◌, [], ◌∷◌, ℕ_eq, String_eq}
use go_clockify.Schema.Pointer.{tokens, pointer_from, tokens-pointer}

-- "a/b" under "~1"
tokens-pointer_example :
    tokens (pointer_from [] ((b'~' ∷ b'1' ∷ []) ∷ (b'a' ∷ b'/' ∷ b'b' ∷ []) ∷ []))
    ≡ [] ∷ (b'~' ∷ b'1' ∷ []) ∷ (b'a' ∷ b'/' ∷ b'b' ∷ []) ∷ []
tokens-pointer_example = tokens-pointer ((b'~' ∷ b'1' ∷ []) ∷ (b'a' ∷ b'/' ∷ b'b' ∷ []) ∷ []) []
