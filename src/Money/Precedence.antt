-- ===== src/Money/Precedence.antt =====
-- The order of the rate layers, internal/tools/money.go.
use go_clockify.Base.{
  String, ◌≡◌, Bool, true, false, Option, none, some, List, [], ◌∷◌, arith, ℕ_eq, String_eq,
}
use go_clockify.Money.Rates.{
  Rate, Rated, Scoped, RateScope, entry_scope, task_scope, project_member_scope, project_scope,
  workspace_scope, none_scope, resolve_layer, side_of, membership_rate, Found, resolve_side,
  resolve_effective_rate,
}

-- A layer's candidate rate and the scope that it is reported under.
abbrev pub Layer : Type 0
Layer = Option Rate × RateScope

-- The first candidate that is there.
pub first_of : List Layer → Found
first_of [] = (none, none_scope)
first_of ((some r, scope) ∷ layers) = (some r, scope)
first_of ((none, scope) ∷ layers) = first_of layers

abbrev concrete : Bool → Option Rated → Option Rate
concrete cost none = none
concrete cost (some x) = resolve_layer (side_of cost x)

abbrev own : Option Scoped → Option Rated
own none = none
own (some x) = some x.rated

abbrev member : Bool → String → Option Scoped → Option Rate
member cost user none = none
member cost user (some x) = membership_rate x.memberships user cost

-- entry > task > project member > project > workspace member > workspace.
abbrev pub hierarchy :
    Bool → Option Scoped → Option Scoped → Option Rated → Option Rated → String → List Layer
hierarchy cost ws proj task entry user =
    (concrete cost entry, entry_scope)
    ∷ (concrete cost task, task_scope)
    ∷ (member cost user proj, project_member_scope)
    ∷ (concrete cost (own proj), project_scope)
    ∷ (member cost user ws, workspace_scope)
    ∷ (concrete cost (own ws), workspace_scope)
    ∷ []

resolve_side-first_of :
    (cost : Bool) (ws proj : Option Scoped) (task entry : Option Rated) (user : String)
    → resolve_side cost ws proj task entry user ≡ first_of (hierarchy cost ws proj task entry user)
unfolding resolve_side first_of
resolve_side-first_of cost ws proj task entry user = ground arith

-- The effective hourly rate is the first concrete one in the order entry, task, project member,
-- project, workspace member, workspace, with the scope that it came from; the cost rate is found by
-- itself, in the same order; and where no layer has a rate the scope is NONE.
pub resolve_effective_rate_lem :
    (ws proj : Option Scoped) (task entry : Option Rated) (user : String)
    → let eff = resolve_effective_rate ws proj task entry user in
      ((eff.hourly, eff.hourly_scope) ≡ first_of (hierarchy false ws proj task entry user))
      × ((eff.cost, eff.cost_scope) ≡ first_of (hierarchy true ws proj task entry user))
unfolding resolve_effective_rate
resolve_effective_rate_lem ws proj task entry user = (
  resolve_side-first_of false ws proj task entry user,
  resolve_side-first_of true ws proj task entry user,
)
