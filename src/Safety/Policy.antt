-- ===== src/Safety/Policy.antt =====
-- What a tool call needs before it may run, internal/safety/policy.go. The Go standard library's
-- `strings.ToUpper`, `ToLower` and `TrimSpace` are arguments.
use go_clockify.Base.{
  String, ◌≡◌, refl, Bool, true, false, ◌||◌, List, [], ◌∷◌, ◌++◌, arith, if◌then◌else◌, ◌==◌, ℕ_eq,
  String_eq, any,
}
use Prim.Native.String as Text

pub record Requirement : Type 0 where
  pub requires_dry_run : Bool
  pub requires_confirmation : Bool
  pub reason : String

abbrev pub no_requirement : Requirement
no_requirement = record { requires_dry_run = false; requires_confirmation = false; reason = "" }

abbrev pub is_high_risk : String → Bool
is_high_risk r =
    (r == "billing")
    || (r == "admin")
    || (r == "permission_change")
    || (r == "external_side_effect")
    || (r == "destructive")

-- Go's `strings` functions, as far as the policy relies on them.
pub record Casing : Type 0 where
  pub to_upper : String → String
  pub to_lower : String → String
  pub trim_space : String → String

abbrev both : String → Requirement
both reason = record { requires_dry_run = true; requires_confirmation = true; reason = reason }

module _ (c : Casing) where
  -- The loop over the risk names returns at the first that is high.
  unfoldable pub requirement_of_names : List String → Requirement
  requirement_of_names [] = no_requirement
  requirement_of_names (risk ∷ names) =
      let rest = requirement_of_names names in
      if is_high_risk (c.to_lower (c.trim_space risk))
      then record {
        requires_dry_run = risk == "destructive";
        requires_confirmation = true;
        reason = Text.◌++◌ risk " tool requires confirmation";
      }
      else rest

  unfoldable pub requirement_for_risk : List String → Bool → String → Requirement
  unfolding requirement_of_names
  requirement_for_risk names destructive method =
      let upper = c.to_upper (c.trim_space method) in
      if upper == "DELETE"
      then both "raw DELETE requires dry-run preview and confirmation"
      else if (upper == "POST") || (upper == "PUT") || (upper == "PATCH")
      then both "raw mutating write requires dry-run preview and confirmation"
      else if destructive
      then both "destructive tool requires dry-run preview and confirmation"
      else requirement_of_names names

  abbrev pub is_raw_write : String → Bool
  is_raw_write upper =
      (upper == "DELETE") || (upper == "POST") || (upper == "PUT") || (upper == "PATCH")

  -- The label as the policy compares it.
  abbrev pub high : String → Bool
  high r = is_high_risk (c.to_lower (c.trim_space r))

  requires_confirmation_names :
      (names : List String) → (requirement_of_names names).requires_confirmation ≡ any high names
  unfolding requirement_of_names
  requires_confirmation_names [] = refl
  requires_confirmation_names (r ∷ names) = ground (arith, requires_confirmation_names names)

  -- A call needs a confirmation exactly when it is a raw write, is marked destructive, or carries a
  -- high-risk label in any case and spacing.
  requires_confirmation_lem :
      (names : List String) (destructive : Bool) (method : String)
      → (requirement_for_risk names destructive method).requires_confirmation
        ≡ is_raw_write (c.to_upper (c.trim_space method)) || destructive || any high names
  unfolding requirement_for_risk
  requires_confirmation_lem names destructive method =
      ground (arith, requires_confirmation_names names)

  first_high :
      (low : List String) (risk : String) (rest : List String)
      → any high low ≡ false
      → high risk ≡ true
      → (requirement_of_names (low ++ risk ∷ rest)).requires_dry_run ≡ (risk == "destructive")
  unfolding requirement_of_names
  first_high [] risk rest l h = ground arith
  first_high (r ∷ low) risk rest l h = ground (arith, first_high low risk rest)

  -- For a call that is no raw write and is not marked destructive, the first high-risk label alone
  -- decides on the dry run, and only its exact spelling "destructive" asks for one.
  pub requires_dry_run_first :
      (low : List String) (risk : String) (rest : List String) (method : String)
      → any high low ≡ false
      → high risk ≡ true
      → is_raw_write (c.to_upper (c.trim_space method)) ≡ false
      → (requirement_for_risk (low ++ risk ∷ rest) false method).requires_dry_run
        ≡ (risk == "destructive")
  unfolding requirement_for_risk
  requires_dry_run_first low risk rest method l h m = ground (arith, first_high low risk rest l h)
