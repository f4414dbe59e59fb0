-- ===== src/ToolCall/Gate.antt =====
-- What stands between a tools/call and its handler, internal/mcp/tools.go.
use go_clockify.Base.{
  ℕ, String, ◌≡◌, sym, ap, ◌∙◌, ◌≢◌, true, false, Option, none, some, [], ◌∷◌, arith, if◌then◌else◌,
  beq_iff, ℕ_eq, String_eq,
}
use go_clockify.Base.Assoc.{lookup}
use go_clockify.Json.{Fields}
use go_clockify.RateLimit.Tier.{allow}
use go_clockify.Safety.Tokens.{Payload, TokenStore, not_issued, validate}
use go_clockify.Safety.Tokens.Laws.{validate_consumes}
use go_clockify.ToolCall.Types.{Env, ToolDescriptor, Server, World}
use go_clockify.ToolCall.Confirmation.{
  confirmation_enabled, confirmation_requirement, confirmation_payload, strip_confirmation_token,
  bool_arg, token_arg,
}
use go_clockify.ToolCall.Dispatch.{
  issue_for_result, run_handler, check_token, confirm, limit_and_validate, call_tool,
}

module _ (env : Env) (w : World) (s : Server) (d : ToolDescriptor) (args : Fields) where
  -- The handler runs with the arguments without the token, if at all.
  run_handler-runs :
      (issue_to : Option TokenStore) (status : Option String)
      → (run_handler env w s issue_to d args status).runs
        ≡ (if w.acquired then strip_confirmation_token args ∷ [] else [])
  unfolding run_handler issue_for_result
  run_handler-runs issue_to status = ground arith

  -- What it takes for a handler to run, read off the server before the call.
  abbrev pub Confirmed : TokenStore → Type 0
  Confirmed store =
      (token_arg env args ≢ "")
      × ((validate store (token_arg env args)
            (confirmation_payload env s d (strip_confirmation_token args)) w.now_validate).1
          ≡ none)

  confirm-runs :
      (store : TokenStore)
      → confirmation_enabled env s ≡ some store
      → (confirmation_requirement env d args).requires_confirmation ≡ true
      → bool_arg args "dry_run" ≡ false
      → (confirm env w s d args).runs ≢ []
      → Confirmed store
  unfolding confirm check_token
  confirm-runs store on req dry ran = ground (arith, beq_iff (token_arg env args) "")

  -- Where a confirmed call leaves the store: without the token.
  confirm-store :
      (store : TokenStore)
      → confirmation_enabled env s ≡ some store
      → (confirmation_requirement env d args).requires_confirmation ≡ true
      → bool_arg args "dry_run" ≡ false
      → (confirm env w s d args).runs ≢ []
      → ((confirm env w s d args).server.confirmation_store
          ≡ some
              (validate store
                (token_arg env args)
                (confirmation_payload env s d (strip_confirmation_token args))
                w.now_validate).0)
        × ((confirm env w s d args).runs ≡ strip_confirmation_token args ∷ [])
  unfolding confirm check_token run_handler
  confirm-store store on req dry ran = ground arith

module _ (env : Env) (w : World) (s : Server) (name : String) (d : ToolDescriptor) (args : Fields)
    (store : TokenStore) where
  -- The server as the rate limiter leaves it.
  abbrev limited : Server
  limited = record s { tool_rate_limiter = (allow s.tool_rate_limiter d.risk_class w.now_limit).0 }

  -- A call that runs its handler has passed every stage before the confirmation.
  call_tool-confirm :
      lookup name s.tools ≡ some d
      → (call_tool env w s name args).runs ≢ []
      → call_tool env w s name args ≡ confirm env w limited d args
  unfolding call_tool limit_and_validate
  call_tool-confirm found ran = ground arith

  consumed :
      (after : TokenStore) (p : Payload) (later : ℕ)
      → some
          (validate store
            (token_arg env args)
            (confirmation_payload env limited d (strip_confirmation_token args))
            w.now_validate).0
        ≡ some after
      → (validate after (token_arg env args) p later).1 ≡ some not_issued
  consumed after p later e =
      let same : (validate store (token_arg env args)
            (confirmation_payload env limited d (strip_confirmation_token args)) w.now_validate).0
          ≡ after =
        cc in
      rw (← same) (
        validate_consumes store (token_arg env args)
          (confirmation_payload env limited d (strip_confirmation_token args)) p w.now_validate
          later)

  -- Where confirmations are enabled and there is a store, a call for which a confirmation is required and
  -- which is no dry run gets to its handler only with a token that the store accepts for these arguments;
  -- the handler then runs once, with the arguments less the token, and
  -- the token is refused from then on, for whatever call.
  pub call_tool_gate :
      lookup name s.tools ≡ some d
      → confirmation_enabled env s ≡ some store
      → (confirmation_requirement env d args).requires_confirmation ≡ true
      → bool_arg args "dry_run" ≡ false
      → (call_tool env w s name args).runs ≢ []
      → (token_arg env args ≢ "")
        × ((validate store
              (token_arg env args)
              (confirmation_payload env s d (strip_confirmation_token args))
              w.now_validate).1
            ≡ none)
        × ((call_tool env w s name args).runs ≡ strip_confirmation_token args ∷ [])
        × ((after : TokenStore) (p : Payload) (later : ℕ)
            → (call_tool env w s name args).server.confirmation_store ≡ some after
            → (validate after (token_arg env args) p later).1 ≡ some not_issued)
  call_tool_gate found on req dry ran =
      let same = call_tool-confirm found ran in
      let ran' = rw same at ran in
      let on' : confirmation_enabled env limited ≡ some store = unfold confirmation_enabled in on in
      let payload = confirmation_payload env s d (strip_confirmation_token args) in
      let ok = confirm-runs env w limited d args store on' req dry ran' in
      let (left, once) = confirm-store env w limited d args store on' req dry ran' in
      (
        ok.0,
        unfold confirmation_payload in ok.1,
        ap (λ r. r.runs) same ∙ once,
        λ after p later e.
            consumed after p later
              (sym left ∙ ap (λ r. r.server.confirmation_store) (sym same) ∙ e),
      )
