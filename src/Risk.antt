-- ===== src/Risk.antt =====
-- The risk classes of tools, internal/mcp/risk.go, and their names, internal/mcp/audit_log.go.
use go_clockify.Base.{ℕ, String, Bool, not, List, [], ◌∷◌, if◌then◌else◌, nat_eq, ℕ_eq, String_eq}
use Prim.Native.Nat.{bit_and}

-- A `uint32` bit mask.
abbrev pub RiskClass : Type 0
RiskClass = ℕ

abbrev pub risk_read : RiskClass
risk_read = 1

abbrev pub risk_write : RiskClass
risk_write = 2

abbrev pub risk_sensitive_read : RiskClass
risk_sensitive_read = 4

abbrev pub risk_billing : RiskClass
risk_billing = 8

abbrev pub risk_admin : RiskClass
risk_admin = 16

abbrev pub risk_permission_change : RiskClass
risk_permission_change = 32

abbrev pub risk_external_side_effect : RiskClass
risk_external_side_effect = 64

abbrev pub risk_destructive : RiskClass
risk_destructive = 128

-- r&mask == mask
unfoldable pub has : RiskClass → RiskClass → Bool
has r mask = nat_eq (bit_and r mask) mask

abbrev pub risk_high_mask : RiskClass
risk_high_mask = 248

unfoldable pub is_high_risk : RiskClass → Bool
is_high_risk r = not (nat_eq (bit_and r risk_high_mask) 0)

abbrev pub risk_table : List (RiskClass × String)
risk_table =
    (risk_read, "read")
    ∷ (risk_write, "write")
    ∷ (risk_sensitive_read, "sensitive_read")
    ∷ (risk_billing, "billing")
    ∷ (risk_admin, "admin")
    ∷ (risk_permission_change, "permission_change")
    ∷ (risk_external_side_effect, "external_side_effect")
    ∷ (risk_destructive, "destructive")
    ∷ []

names_of : RiskClass → List (RiskClass × String) → List String
names_of rc [] = []
names_of rc ((bit, name) ∷ table) =
    let rest = names_of rc table in if has rc bit then name ∷ rest else rest

unfoldable pub risk_class_names : RiskClass → List String
unfolding names_of
risk_class_names rc = names_of rc risk_table
