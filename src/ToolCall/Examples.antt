-- ===== src/ToolCall/Examples.antt =====
-- The theorems on tools/call at concrete inputs: a destructive tool, its dry run and its execution.
use go_clockify.Base.{
  ℕ, String, ◌≡◌, refl, ◌≢◌, true, none, some, [], ◌∷◌, arith, beq_iff, ℕ_eq, String_eq,
}
use go_clockify.Base.Assoc.{lookup, insert, erase}
use go_clockify.Json.{Value, null, str, Fields, end, field, get, put, remove}
use go_clockify.Risk.{has, risk_class_names}
use go_clockify.RateLimit.Tier.{allow}
use go_clockify.Safety.Policy.{requirement_for_risk}
use go_clockify.Safety.Canonical.{is_control, normalize, hash_canonical}
use go_clockify.Safety.Tokens.{Payload, TokenStore, not_issued, issue, validate}
use go_clockify.ToolCall.Types.{Env, ToolDescriptor, returned, Server, World}
use go_clockify.ToolCall.Confirmation.{
  confirmation_enabled, confirmation_requirement, confirmation_payload, strip_confirmation_token,
  bool_arg, token_arg, merge_confirmation_metadata, confirmation_metadata, central_dry_run_preview,
}
use go_clockify.ToolCall.Answer.{answered_token}
use go_clockify.ToolCall.Dispatch.{
  issue_for_result, run_handler, check_token, confirm, limit_and_validate, call_tool,
}
use go_clockify.ToolCall.Gate.{call_tool_gate}
use go_clockify.ToolCall.TwoStep.{confirm_args, dry_args, confirmation_round_trip}

abbrev env : Env
env = record {
  casing = record { to_upper = λ s. s; to_lower = λ s. s; trim_space = λ s. s };
  hash_value = λ v. "hash";
  hash_payload = λ p. "preview";
  format_time = λ t. "time";
}

abbrev delete_project : ToolDescriptor
delete_project = record {
  name = "delete";
  risk_class = 130;
  safety_exemption = "";
  safety_requirement_func = none;
  central_dry_run_preview = true;
  schema_ok = λ args. true;
  handler = λ args. returned null;
}

abbrev server : Server
server = record {
  tools = ("delete", delete_project) ∷ [];
  advertised_tools = none;
  enforce_advertised_tools = true;
  tool_rate_limiter = none;
  confirmation_store = some (record { ttl = 100; tokens = [] });
  confirmation_mode = "required";
  workspace_id_for_safety = "w1";
}

abbrev world : ℕ → World
world t = record {
  now_limit = t;
  now_validate = t;
  now_issue = t;
  random = some "token";
  acquired = true;
}

abbrev args : Fields
args = field "project_id" (str "p1") end

abbrev store : TokenStore
store = record { ttl = 100; tokens = [] }

abbrev preview : Value
preview =
    merge_confirmation_metadata
      (central_dry_run_preview delete_project
        (confirmation_requirement env delete_project (dry_args args)))
      (confirmation_metadata env 130
        (record { token = "token"; preview_hash = "preview"; expires_at = 110 }))

confirmation_round_trip_example :
    (answered_token preview ≡ some "token")
    × ((call_tool env
          (world 50)
          (call_tool env (world 10) server "delete" (dry_args args)).server
          "delete"
          (confirm_args "token" args)).runs
        ≡ strip_confirmation_token (confirm_args "token" args) ∷ [])
unfolding lookup insert get put remove confirmation_enabled confirmation_requirement
    requirement_for_risk risk_class_names has bool_arg allow issue call_tool limit_and_validate
    confirm issue_for_result confirmation_payload strip_confirmation_token
    merge_confirmation_metadata
confirmation_round_trip_example =
    confirmation_round_trip env (world 10) (world 50) server "delete" delete_project args store
      "token" preview refl (ground (arith, beq_iff {A = String} "token" "")) refl refl refl refl
      refl (record { found = refl; advertised = refl; allowed = refl; fits = refl }) refl
      (record { found = refl; advertised = refl; allowed = refl; fits = refl }) refl (omega arith)

abbrev confirmed : Server
confirmed = record server {
  confirmation_store = some (record {
    ttl = 100;
    tokens =
        (
          "token",
          record {
            payload = confirmation_payload env server delete_project args;
            expires_at = 110;
          },
        )
        ∷ [];
  });
}

abbrev confirmed_store : TokenStore
confirmed_store = record {
  ttl = 100;
  tokens =
      (
        "token",
        record { payload = confirmation_payload env server delete_project args; expires_at = 110 },
      )
      ∷ [];
}

confirmed_runs :
    (call_tool env (world 50) confirmed "delete" (confirm_args "token" args)).runs
    ≡ remove "confirm_token" (confirm_args "token" args) ∷ []
unfolding lookup get put remove erase validate confirmation_enabled confirmation_requirement
    requirement_for_risk risk_class_names has bool_arg token_arg allow call_tool limit_and_validate
    confirm check_token run_handler confirmation_payload strip_confirmation_token normalize
    hash_canonical is_control
confirmed_runs = refl

runs_not_empty : (call_tool env (world 50) confirmed "delete" (confirm_args "token" args)).runs ≢ []
runs_not_empty e = cc (confirmed_runs, e)

call_tool_gate_example :
    (token_arg env (confirm_args "token" args) ≢ "")
    × ((validate confirmed_store
          (token_arg env (confirm_args "token" args))
          (confirmation_payload env confirmed delete_project
            (strip_confirmation_token (confirm_args "token" args)))
          50).1
        ≡ none)
    × ((call_tool env (world 50) confirmed "delete" (confirm_args "token" args)).runs
        ≡ strip_confirmation_token (confirm_args "token" args) ∷ [])
    × ((after : TokenStore) (p : Payload) (later : ℕ)
        → (call_tool env
            (world 50)
            confirmed
            "delete"
            (confirm_args "token" args)).server.confirmation_store
          ≡ some after
        → (validate after (token_arg env (confirm_args "token" args)) p later).1 ≡ some not_issued)
unfolding lookup get put remove confirmation_enabled confirmation_requirement requirement_for_risk
    risk_class_names has bool_arg
call_tool_gate_example =
    call_tool_gate env (world 50) confirmed "delete" delete_project (confirm_args "token" args)
      confirmed_store refl refl refl refl runs_not_empty
