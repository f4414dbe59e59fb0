-- ===== src/Schema/Pointer.antt =====
-- `escapePtr` and `joinPtr`, internal/jsonschema/validator.go: the JSON Pointer that an error of the
-- validator carries.
use go_clockify.Base.{
  ℕ, ◌≡◌, refl, sym, ap, ◌∙◌, inl, inr, Bool, true, false, not, ◌||◌, List, [], ◌∷◌, ◌++◌, map,
  arith, if◌then◌else◌, ◌==◌, ℕ_eq, String_eq, Bool-cases, any,
}
use go_clockify.Resolve.Ids.{Text}
use mathlib.Core.List.{append_assoc, append-nil}
use go_clockify.Resolve.Paths.{is_slash}
use go_clockify.Resolve.Segments.{segments, segments-plain}

abbrev is_tilde : ℕ → Bool
is_tilde c = c == b'~'

abbrev needs_escaping : ℕ → Bool
needs_escaping c = is_tilde c || is_slash c

-- The loop over the bytes.
abbrev escape_bytes : Text → Text
escape_bytes [] = []
escape_bytes (c ∷ s) =
    let out = escape_bytes s in
    if is_tilde c then b'~' ∷ (b'0' ∷ out) else if is_slash c then b'~' ∷ (b'1' ∷ out) else c ∷ out

-- A text with nothing to escape is passed on as it is.
unfoldable pub escape_ptr : Text → Text
escape_ptr s = if not (any needs_escaping s) then s else escape_bytes s

unfoldable pub join_ptr : Text → Text → Text
join_ptr prefix name = prefix ++ (b'/' ∷ escape_ptr name)

-- The pointer to a value that is reached by names from the one at `prefix`.
abbrev pub pointer_from : Text → List Text → Text
pointer_from prefix [] = prefix
pointer_from prefix (name ∷ names) = pointer_from (join_ptr prefix name) names

-- RFC 6901 reads a token from left to right: `~1` is a slash and `~0` a tilde. The flag says that a
-- tilde stands before the text.
abbrev unescape_after : Bool → Text → Text
unescape_after false [] = []
unescape_after true [] = b'~' ∷ []
unescape_after false (c ∷ s) =
    let pending = unescape_after true s in
    let rest = unescape_after false s in if is_tilde c then pending else c ∷ rest
unescape_after true (c ∷ s) =
    let rest = unescape_after false s in
    if c == b'1' then b'/' ∷ rest else if c == b'0' then b'~' ∷ rest else b'~' ∷ (c ∷ rest)

abbrev unescape : Text → Text
unescape = unescape_after false

-- The names that a pointer leads along: its text before the first slash stands first.
abbrev pub tokens : Text → List Text
tokens p = map unescape (segments p)

escape_ptr_lem : (s : Text) → escape_ptr s ≡ escape_bytes s
unfolding escape_ptr
escape_ptr_lem [] = refl
escape_ptr_lem (c ∷ s) = ground (arith, escape_ptr_lem s)

unescape-escape : (s : Text) → unescape (escape_bytes s) ≡ s
unescape-escape [] = refl
unescape-escape (c ∷ s) = grind (arith, unescape-escape s)

escaped_no_slash : (s : Text) → any is_slash (escape_bytes s) ≡ false
escaped_no_slash [] = refl
escaped_no_slash (c ∷ s) = grind (arith, escaped_no_slash s)

-- A text has a first segment.
first_segment : (s : Text) → (h : Text) × (t : List Text) × (segments s ≡ h ∷ t)
first_segment [] = ([], [], refl)
first_segment (c ∷ s) = elim (Bool-cases (is_slash c)) [
  | inl slash ↦ ([], segments s, ground arith)
  | inr plain ↦ let (h, t, e) = first_segment s in (c ∷ h, t, ground arith)
]

-- A slash takes the text apart.
segments-append : (s t : Text) → segments (s ++ (b'/' ∷ t)) ≡ segments s ++ segments t
segments-append [] t = refl
segments-append (c ∷ s) t =
    let (h, ts, e) = first_segment s in ground (arith, e, segments-append s t)

map-append : {A B : Type 0} (f : A → B) (xs ys : List A) → map f (xs ++ ys) ≡ map f xs ++ map f ys
map-append f [] ys = refl
map-append f (x ∷ xs) ys = ap (λ l. f x ∷ l) (map-append f xs ys)

tokens-join : (p name : Text) → tokens (join_ptr p name) ≡ tokens p ++ (name ∷ [])
unfolding join_ptr
tokens-join p name = rw (escape_ptr_lem name) (
    rw (segments-append p (escape_bytes name)) (
      rw (segments-plain (escape_bytes name) (escaped_no_slash name)) (
        map-append unescape (segments p) (escape_bytes name ∷ [])
        ∙ ap (λ n. tokens p ++ (n ∷ [])) (unescape-escape name))))

-- Read as RFC 6901 says, the pointer to a value leads along exactly the names by which the validator
-- got to it, in their order, whatever tildes and slashes stand in them.
pub tokens-pointer :
    (names : List Text) (prefix : Text)
    → tokens (pointer_from prefix names) ≡ tokens prefix ++ names
tokens-pointer [] prefix = sym (append-nil (tokens prefix))
tokens-pointer (name ∷ names) prefix =
    tokens-pointer names (join_ptr prefix name)
    ∙ ap (λ l. l ++ names) (tokens-join prefix name)
    ∙ append_assoc (tokens prefix) (name ∷ []) names
