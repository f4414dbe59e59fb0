-- ===== src/ToolCall/Dispatch.antt =====
-- `callTool`, internal/mcp/tools.go, in the order of its statements. Logs and trace spans are left
-- out; the audit record is kept.
use go_clockify.Base.{
  String, Bool, true, false, not, ◌&&◌, Option, none, some, List, [], ◌∷◌, if◌then◌else◌, ◌==◌,
  ℕ_eq, String_eq,
}
use go_clockify.Base.Assoc.{lookup}
use go_clockify.Json.{Value, Fields}
use go_clockify.RateLimit.Tier.{allow}
use go_clockify.Safety.Policy.{Requirement}
use go_clockify.Safety.Tokens.{TokenStore, issue, validate}
use go_clockify.ToolCall.Types.{
  HandlerFailure, deadline_exceeded, canceled, other, returned, failed, Env, ToolDescriptor, Server,
  World, unknown_tool, rate_limited, invalid_params, confirmation_required, confirmation_rejected,
  acquire_failed, handler_failed, issue_failed, success, AuditRecord, Reply,
}
use go_clockify.ToolCall.Confirmation.{
  confirmation_enabled, confirmation_requirement, confirmation_payload, strip_confirmation_token,
  bool_arg, token_arg, confirmation_metadata, merge_confirmation_metadata, central_dry_run_preview,
}

abbrev failure_code : HandlerFailure → String
failure_code deadline_exceeded = "timeout"
failure_code canceled = "cancelled"
failure_code other = "tool_error"

-- advertised := s.advertisedTools == nil || s.advertisedTools[params.Name]
abbrev pub is_advertised : Server → String → Bool
is_advertised s name = elim s.advertised_tools [
  | none ↦ true
  | some m ↦ elim (lookup name m) [ none ↦ false | some b ↦ b ]
]

module _ (env : Env) (w : World) where
  abbrev audited : ToolDescriptor → Fields → String → String → Option String → Option AuditRecord
  audited d args result code confirmation = some (record {
    tool = d.name;
    args = args;
    result = result;
    error_code = code;
    confirmation = confirmation;
  })

  -- `issueConfirmationTokenForResult`, and what `callTool` does with its two answers.
  unfoldable pub issue_for_result :
      Server → TokenStore → ToolDescriptor → Fields → Value → List Fields → Reply
  issue_for_result s store d args result runs =
      let (store', issued) =
        issue env.hash_payload store (confirmation_payload env s d args) w.random w.now_issue in
      elim issued [
        | none ↦ record {
          server = record s { confirmation_store = some store' };
          outcome = issue_failed;
          runs = runs;
          audit = audited d args "error" "confirmation_issue_failed" none;
        }
        | some i ↦ record {
          server = record s { confirmation_store = some store' };
          outcome =
              success
                (merge_confirmation_metadata result (confirmation_metadata env d.risk_class i));
          runs = runs;
          audit = audited d args "success" "" (some "issued");
        }
      ]

  -- From the family limiter on. `issue_to` is the store to issue a token from, for a dry run that
  -- asks for one.
  unfoldable pub run_handler :
      Server → Option TokenStore → ToolDescriptor → Fields → Option String → Reply
  run_handler s issue_to d args status =
      let handler_args = strip_confirmation_token args in
      if not w.acquired
      then record { server = s; outcome = acquire_failed; runs = []; audit = none }
      else elim (d.handler handler_args) [
        | failed failure ↦ record {
          server = s;
          outcome = handler_failed failure;
          runs = handler_args ∷ [];
          audit = audited d args "error" (failure_code failure) none;
        }
        | returned result ↦ elim issue_to [
          | some store ↦ issue_for_result s store d handler_args result (handler_args ∷ [])
          | none ↦ record {
            server = s;
            outcome = success result;
            runs = handler_args ∷ [];
            audit = audited d handler_args "success" "" status;
          }
        ]
      ]

  -- A high-risk call that is no dry run: the token has to be there and valid.
  unfoldable pub check_token : Server → TokenStore → ToolDescriptor → Requirement → Fields → Reply
  check_token s store d req args =
      let token = token_arg env args in
      let payload = confirmation_payload env s d (strip_confirmation_token args) in
      let (store', err) = validate store token payload w.now_validate in
      let s' = record s { confirmation_store = some store' } in
      if token == ""
      then record {
        server = s;
        outcome = confirmation_required req;
        runs = [];
        audit = audited d args "rejected" "confirmation_required" (some "required");
      }
      else elim err [
        | some e ↦ record {
          server = s';
          outcome = confirmation_rejected e;
          runs = [];
          audit = audited d args "rejected" "confirmation_mismatch" (some "rejected");
        }
        | none ↦ run_handler s' none d args (some "accepted")
      ]

  -- From the confirmation on.
  unfoldable pub confirm : Server → ToolDescriptor → Fields → Reply
  confirm s d args =
      let req = confirmation_requirement env d args in
      elim (confirmation_enabled env s) [
        | none ↦ run_handler s none d args none
        | some store ↦
            if not req.requires_confirmation
            then run_handler s none d args none
            else if bool_arg args "dry_run"
            then if d.central_dry_run_preview
              then issue_for_result s store d (strip_confirmation_token args)
                  (central_dry_run_preview d req) []
              else run_handler s (some store) d args none
            else check_token s store d req args
      ]

  unfoldable pub limit_and_validate : Server → ToolDescriptor → Fields → Reply
  limit_and_validate s d args =
      let (limiter, allowed, wait) = allow s.tool_rate_limiter d.risk_class w.now_limit in
      let s' = record s { tool_rate_limiter = limiter } in
      if not allowed
      then record { server = s'; outcome = rate_limited wait; runs = []; audit = none }
      else if not (d.schema_ok args)
      then record { server = s'; outcome = invalid_params; runs = []; audit = none }
      else confirm s' d args

  unfoldable pub call_tool : Server → String → Fields → Reply
  call_tool s name args = elim (lookup name s.tools) [
    | none ↦ record { server = s; outcome = unknown_tool; runs = []; audit = none }
    | some d ↦
        if s.enforce_advertised_tools && not (is_advertised s name)
        then record { server = s; outcome = unknown_tool; runs = []; audit = none }
        else limit_and_validate s d args
  ]
