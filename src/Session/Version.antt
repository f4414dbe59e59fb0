-- ===== src/Session/Version.antt =====
-- Protocol versions and the session's negotiated values, internal/mcp/server.go.
use go_clockify.Base.{
  String, ◌≡◌, refl, sym, ap, ◌∙◌, Bool, true, false, List, [], ◌∷◌, if◌then◌else◌, ◌==◌, ℕ_eq,
  String_eq, any,
}
use go_clockify.Session.Ids.{Texts}

-- `SupportedProtocolVersions`, newest first.
abbrev pub supported_protocol_versions : List String
supported_protocol_versions = "2025-11-25" ∷ "2025-06-18" ∷ "2025-03-26" ∷ "2024-11-05" ∷ []

abbrev pub newest_version : String
newest_version = "2025-11-25"

-- The version is on the list, letter for letter.
abbrev pub is_listed : List String → String → Bool
is_listed versions version = any (λ v. v == version) versions

module _ (texts : Texts) where
  unfoldable pub is_supported_protocol_version : String → Bool
  is_supported_protocol_version version =
      is_listed supported_protocol_versions (texts.trim_space version)

  unfoldable pub default_protocol_version : String → String
  unfolding is_supported_protocol_version
  default_protocol_version configured =
      if is_supported_protocol_version (texts.trim_space configured)
      then texts.trim_space configured
      else newest_version

  unfoldable pub negotiate_protocol_version : (requested configured_default : String) → String
  unfolding is_supported_protocol_version default_protocol_version
  negotiate_protocol_version requested configured_default =
      if texts.trim_space requested == ""
      then default_protocol_version configured_default
      else if is_supported_protocol_version (texts.trim_space requested)
      then texts.trim_space requested
      else newest_version

  trimmed_listed :
      (s : String)
      → texts.trim_space (texts.trim_space s) ≡ texts.trim_space s
      → is_supported_protocol_version (texts.trim_space s) ≡ true
      → is_listed supported_protocol_versions (texts.trim_space s) ≡ true
  unfolding is_supported_protocol_version
  trimmed_listed s idem h = ap (is_listed supported_protocol_versions) (sym idem) ∙ h

  one_of :
      (ok : String → Bool) (b c d : Bool) (x y n : String)
      → (c ≡ true → ok x ≡ true)
      → (d ≡ true → ok y ≡ true)
      → ok n ≡ true
      → ok (if b then (if c then x else n) else if d then y else n) ≡ true
  one_of ok true true d x y n f g h = f refl
  one_of ok true false d x y n f g h = h
  one_of ok false c true x y n f g h = g refl
  one_of ok false c false x y n f g h = h

  -- Whatever version a client asks for and whatever is configured, the negotiated version is letter for
  -- letter one of the supported ones.
  pub negotiate_protocol_version-listed :
      (requested configured : String)
      → ((v : String) → texts.trim_space (texts.trim_space v) ≡ texts.trim_space v)
      → is_listed supported_protocol_versions (negotiate_protocol_version requested configured)
        ≡ true
  unfolding negotiate_protocol_version default_protocol_version
  negotiate_protocol_version-listed requested configured idem =
      one_of (is_listed supported_protocol_versions) (texts.trim_space requested == "")
        (is_supported_protocol_version (texts.trim_space configured))
        (is_supported_protocol_version (texts.trim_space requested)) (texts.trim_space configured)
        (texts.trim_space requested) newest_version (trimmed_listed configured (idem configured))
        (trimmed_listed requested (idem requested)) refl
