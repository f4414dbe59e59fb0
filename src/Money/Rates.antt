-- ===== src/Money/Rates.antt =====
-- The hierarchy of rates, internal/tools/money.go, over the models of internal/clockify. Pointers
-- are options. `cost` chooses between the hourly and the cost rate, as `membershipRate` does; the
-- two halves of `ResolveEffectiveRate` differ in nothing else.
use go_clockify.Base.{
  String, Bool, true, false, not, Option, none, some, List, [], ◌∷◌, if◌then◌else◌, ◌==◌, ℕ_eq,
  String_eq, ℤ,
}

pub record Rate : Type 0 where
  pub amount : ℤ
  pub currency : String
  pub inherited : Bool

pub record ProjectMembership : Type 0 where
  pub user_id : String
  pub hourly_rate : Option Rate
  pub cost_rate : Option Rate

-- What the resolution reads of a time entry or a task.
pub record Rated : Type 0 where
  pub hourly_rate : Option Rate
  pub cost_rate : Option Rate

-- What it reads of a project or a workspace.
pub record Scoped : Type 0 where
  pub rated : Rated
  pub open rated use *
  pub memberships : List ProjectMembership

pub data RateScope : Type 0 where
  entry_scope task_scope project_member_scope project_scope workspace_scope none_scope : RateScope

pub record EffectiveRate : Type 0 where
  pub hourly : Option Rate
  pub cost : Option Rate
  pub hourly_scope : RateScope
  pub cost_scope : RateScope

-- The rate, if it is there and not inherited.
unfoldable pub resolve_layer : Option Rate → Option Rate
resolve_layer none = none
resolve_layer (some r) = if r.inherited then none else some r

abbrev pub side_of : Bool → Rated → Option Rate
side_of cost r = if cost then r.cost_rate else r.hourly_rate

abbrev member_side : Bool → ProjectMembership → Option Rate
member_side cost m = if cost then m.cost_rate else m.hourly_rate

-- The loop of `membershipRate`: the first membership of the user decides.
find_member : List ProjectMembership → String → Bool → Option Rate
find_member [] user cost = none
find_member (m ∷ ms) user cost =
    let rest = find_member ms user cost in
    if not (m.user_id == user) then rest else resolve_layer (member_side cost m)

unfoldable pub membership_rate : List ProjectMembership → String → Bool → Option Rate
unfolding find_member
membership_rate ms user cost = if user == "" then none else find_member ms user cost

abbrev pub Found : Type 0
Found = Option Rate × RateScope

-- `if eff.Hourly == nil && x != nil { if r, ok := resolveLayer(x.HourlyRate); ok { … } }`
abbrev layer_step : Option Rated → Bool → RateScope → Found → Found
layer_step none cost scope found = found
layer_step (some x) cost scope (some r, s) = (some r, s)
layer_step (some x) cost scope (none, s) = elim (resolve_layer (side_of cost x)) [
  | none ↦ (none, s)
  | some r ↦ (some r, scope)
]

-- The same with the member's rate before the scope's own.
abbrev scoped_step : Option Scoped → String → Bool → RateScope → RateScope → Found → Found
scoped_step none user cost member own found = found
scoped_step (some x) user cost member own (some r, s) = (some r, s)
scoped_step (some x) user cost member own (none, s) =
    elim (membership_rate x.memberships user cost) [
      | some r ↦ (some r, member)
      | none ↦ elim (resolve_layer (side_of cost x.rated)) [
        | none ↦ (none, s)
        | some r ↦ (some r, own)
      ]
    ]

-- One half of the resolution, in the order of its statements.
unfoldable pub resolve_side :
    Bool → Option Scoped → Option Scoped → Option Rated → Option Rated → String → Found
resolve_side cost ws proj task entry user =
    let found = layer_step entry cost entry_scope (none, none_scope) in
    let found = layer_step task cost task_scope found in
    let found = scoped_step proj user cost project_member_scope project_scope found in
    scoped_step ws user cost workspace_scope workspace_scope found

unfoldable pub resolve_effective_rate :
    Option Scoped → Option Scoped → Option Rated → Option Rated → String → EffectiveRate
resolve_effective_rate ws proj task entry user =
    let (hourly, hourly_scope) = resolve_side false ws proj task entry user in
    let (cost, cost_scope) = resolve_side true ws proj task entry user in
    record { hourly = hourly; cost = cost; hourly_scope = hourly_scope; cost_scope = cost_scope }
