-- ===== src/Resolve/Ids.antt =====
-- The checks on identifiers and names, internal/resolve/resolve.go. `trim_space` is
-- `strings.TrimSpace`. The checks on runes read bytes: the control characters are single bytes, and
-- no byte of a longer rune is one.
use go_clockify.Base.{
  not, ◌+◌, ℕ, ◌≤◌, ◌<◌, ◌≡◌, refl, ◌↔◌, Bool, true, false, ◌&&◌, ◌||◌, Option, none, some, List,
  [], ◌∷◌, arith, ltb, leb, if◌then◌else◌, ◌==◌, ℕ_eq, String_eq, length, any, all,
}

abbrev pub Text : Type 0
Text = List ℕ

pub data ResolveError : Type 0 where
  too_long is_blank invalid_characters not_found ambiguous missing_id : ResolveError
  segment_is_empty segment_has_slash : ℕ → ResolveError
  list_failed safety_stop : ResolveError

abbrev pub max_id_length : ℕ
max_id_length = 36

abbrev pub max_name_ref_length : ℕ
max_name_ref_length = 128

abbrev pub is_forbidden : ℕ → Bool
is_forbidden c = (c == b'/') || (c == b'?') || (c == b'#') || (c == b'%')

abbrev pub is_control : ℕ → Bool
is_control c = ltb c 32 || (c == 127)

abbrev pub is_empty : Text → Bool
is_empty [] = true
is_empty (c ∷ s) = false

abbrev begins_with_dot : Text → Bool
begins_with_dot [] = false
begins_with_dot (c ∷ s) = c == b'.'

-- strings.Contains(id, "..")
abbrev pub has_dot_dot : Text → Bool
has_dot_dot [] = false
has_dot_dot (c ∷ s) = ((c == b'.') && begins_with_dot s) || has_dot_dot s

module _ (trim_space : Text → Text) where
  -- No error is acceptance.
  unfoldable pub validate_id : Text → Option ResolveError
  validate_id id =
      if ltb max_id_length (length id)
      then some too_long
      else if is_empty (trim_space id)
      then some is_blank
      else if any is_forbidden id
      then some invalid_characters
      else if has_dot_dot id
      then some invalid_characters
      else if any is_control id
      then some invalid_characters
      else none

  unfoldable pub validate_name_ref : Text → Option ResolveError
  validate_name_ref ref =
      if ltb max_name_ref_length (length ref)
      then some too_long
      else if is_empty (trim_space ref)
      then some is_blank
      else if any is_control ref
      then some invalid_characters
      else none

abbrev pub is_hex : ℕ → Bool
is_hex c = (leb b'0' c && leb c b'9') || (leb b'a' c && leb c b'f') || (leb b'A' c && leb c b'F')

unfoldable pub looks_like_clockify_id : Text → Bool
looks_like_clockify_id value = (length value == 24) && all is_hex value

-- strings.IndexByte(s, '@') and what follows it, with the number of bytes before it.
abbrev from_at : ℕ → Text → Option (ℕ × Text)
from_at i [] = none
from_at i (c ∷ s) = if c == b'@' then some (i, c ∷ s) else from_at (i + 1) s

-- strings.LastIndexByte(s, '.')
abbrev last_dot : ℕ → Option ℕ → Text → Option ℕ
last_dot i found [] = found
last_dot i found (c ∷ s) = last_dot (i + 1) (if c == b'.' then some i else found) s

-- Something before the first `@`, something after it, and there a dot that is not next to it.
unfoldable pub looks_like_email : Text → Bool
looks_like_email s = elim (from_at 0 s) [
  | none ↦ false
  | some (at, tail) ↦
      not (ltb at 1)
      && ltb 1 (length tail)
      && (elim (last_dot 0 none tail) [ none ↦ false | some dot ↦ ltb 1 dot ])
]

hex_is_plain :
    (c : ℕ)
    → is_hex c ≡ true
    → (is_forbidden c ≡ false) × (is_control c ≡ false) × ((c == b'.') ≡ false)
hex_is_plain c h = ground arith

hex_text :
    (s : Text)
    → all is_hex s ≡ true
    → (any is_forbidden s ≡ false) × (has_dot_dot s ≡ false) × (any is_control s ≡ false)
hex_text [] h = (refl, refl, refl)
hex_text (c ∷ s) h = ground (arith, hex_is_plain c, hex_text s)

-- A text in the shape of a Clockify identifier, 24 hexadecimal digits, is always accepted as one; it
-- is enough that trimming leaves something of a text whose first byte is above the space.
pub validate_id-looks_like :
    (trim_space : Text → Text)
    → ((c : ℕ) (s : Text) → 32 < c → c < 127 → is_empty (trim_space (c ∷ s)) ≡ false)
    → (id : Text) → looks_like_clockify_id id ≡ true
    → validate_id trim_space id ≡ none
unfolding looks_like_clockify_id validate_id
validate_id-looks_like trim_space keeps [] h = cc
validate_id-looks_like trim_space keeps (c ∷ s) h = ground (arith, keeps c s, hex_text (c ∷ s))

-- An identifier is accepted exactly if it has at most 36 bytes, is not blank, and holds no slash,
-- question mark, number sign, per cent sign or control character and no two dots in a row.
pub validate_id_lem :
    (trim_space : Text → Text) (id : Text)
    → (validate_id trim_space id ≡ none) ↔ (
        (length id ≤ 36)
        × (is_empty (trim_space id) ≡ false)
        × (any is_forbidden id ≡ false)
        × (has_dot_dot id ≡ false)
        × (any is_control id ≡ false))
unfolding validate_id
validate_id_lem trim_space id = ground arith
