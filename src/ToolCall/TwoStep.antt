-- ===== src/ToolCall/TwoStep.antt =====
-- The round trip of a confirmation token through two tools/call requests, internal/mcp/tools.go.
use go_clockify.Base.{
  String, ◌≡◌, refl, ◌∙◌, ◌≢◌, true, false, not, ◌&&◌, none, some, [], ◌∷◌, arith, beq_iff, ℕ_eq,
  String_eq, ap, sym, ◌<◌, ◌+◌, Option,
}
use go_clockify.Base.Assoc.{lookup, beq_self}
use go_clockify.Json.{Value, Fields, put, bool, str, get-put}
use go_clockify.RateLimit.Tier.{allow}
use go_clockify.Safety.Tokens.Laws.{validate-issue}
use go_clockify.RateLimit.Tier.{RiskRateLimiter}
use go_clockify.Safety.Canonical.{is_control, hash_canonical_control}
use go_clockify.Safety.Tokens.{Payload_eq, TokenStore, issue, validate}
use go_clockify.ToolCall.Types.{Env, ToolDescriptor, Server, World, success}
use go_clockify.ToolCall.Confirmation.{
  confirmation_enabled, confirmation_requirement, confirmation_payload, strip_confirmation_token,
  bool_arg, token_arg, as_string,
}
use go_clockify.ToolCall.Answer.{answered_token, confirm-answers}
use go_clockify.ToolCall.Dispatch.{
  issue_for_result, run_handler, check_token, confirm, limit_and_validate, call_tool, is_advertised,
}

-- The request passes the stages before the confirmation: the tool is there and advertised, the rate
-- limiter lets it through, the arguments fit the schema.
pub record Admitted (w : World) (s : Server) (name : String) (d : ToolDescriptor) (args : Fields)
    : Type 0 where
  pub found : lookup name s.tools ≡ some d
  pub advertised : (s.enforce_advertised_tools && not (is_advertised s name)) ≡ false
  pub allowed : (allow s.tool_rate_limiter d.risk_class w.now_limit).1 ≡ true
  pub fits : d.schema_ok args ≡ true

abbrev pub limited : World → Server → ToolDescriptor → Server
limited w s d = record s {
  tool_rate_limiter = (allow s.tool_rate_limiter d.risk_class w.now_limit).0;
}

call_tool-Admitted :
    (env : Env) (w : World) (s : Server) (name : String) (d : ToolDescriptor) (args : Fields)
    → Admitted w s name d args
    → call_tool env w s name args ≡ confirm env w (limited w s d) d args
unfolding call_tool limit_and_validate
call_tool-Admitted env w s name d args h = ground arith

-- Neither control key counts in the payload that a token is bound to.
payload-put :
    (env : Env) (s : Server) (d : ToolDescriptor) (k : String) (v : Value) (args : Fields)
    → is_control k ≡ true
    → confirmation_payload env s d (strip_confirmation_token (put k v args))
      ≡ confirmation_payload env s d args
unfolding confirmation_payload strip_confirmation_token
payload-put env s d k v args h =
    let kept =
      (hash_canonical_control env.hash_value "confirm_token" v (put k v args)
        (unfold is_control in refl)).1
      ∙ (hash_canonical_control env.hash_value k v args h).0 in
    λ i. record (confirmation_payload env s d args) { args_hash = kept i }

module _ (env : Env) (w : World) (s : Server) (d : ToolDescriptor) (args : Fields)
    (store : TokenStore) (t : String) (v : Value) where
  -- A dry run that succeeds has issued the random token for the payload of its arguments.
  confirm-issues :
      confirmation_enabled env s ≡ some store
      → (confirmation_requirement env d args).requires_confirmation ≡ true
      → bool_arg args "dry_run" ≡ true
      → w.random ≡ some t
      → (confirm env w s d args).outcome ≡ success v
      → (confirm env w s d args).server ≡ record s {
        confirmation_store =
            some
              (issue env.hash_payload store
                (confirmation_payload env s d (strip_confirmation_token args))
                (some t)
                w.now_issue).0;
      }
  unfolding confirm run_handler issue_for_result
  confirm-issues on req dry random done = ground arith

  -- A call with a token that the store accepts runs its handler once.
  confirm-runs_once :
      confirmation_enabled env s ≡ some store
      → (confirmation_requirement env d args).requires_confirmation ≡ true
      → bool_arg args "dry_run" ≡ false
      → w.acquired ≡ true
      → token_arg env args ≢ ""
      → (validate store
          (token_arg env args)
          (confirmation_payload env s d (strip_confirmation_token args))
          w.now_validate).1
        ≡ none
      → (confirm env w s d args).runs ≡ strip_confirmation_token args ∷ []
  unfolding confirm check_token run_handler
  confirm-runs_once on req dry got token ok = ground (arith, beq_iff (token_arg env args) "")

-- A new store or limiter does not switch confirmations off.
enabled_stays :
    (env : Env) (s : Server) (store store' : TokenStore) (l : Option RiskRateLimiter)
    → confirmation_enabled env s ≡ some store
    → confirmation_enabled env
        (record s { tool_rate_limiter = l; confirmation_store = some store' })
      ≡ some store'
unfolding confirmation_enabled
enabled_stays env s store store' l on = ground arith

-- The arguments of the two requests: the same, once with a dry run and once with the token.
abbrev pub dry_args : Fields → Fields
dry_args args = put "dry_run" (bool true) args

abbrev pub confirm_args : String → Fields → Fields
confirm_args t args = put "confirm_token" (str t) args

bool_arg-dry_args : (args : Fields) → bool_arg (dry_args args) "dry_run" ≡ true
unfolding bool_arg
bool_arg-dry_args args = rw (get-put "dry_run" "dry_run" (bool true) args)

bool_arg-confirm_args :
    (t : String) (args : Fields)
    → bool_arg (confirm_args t args) "dry_run" ≡ bool_arg args "dry_run"
unfolding bool_arg
bool_arg-confirm_args t args = rw (get-put "confirm_token" "dry_run" (str t) args)

token_arg-confirm_args :
    (env : Env) (t : String) (args : Fields)
    → token_arg env (confirm_args t args) ≡ env.casing.trim_space t
unfolding token_arg
token_arg-confirm_args env t args =
    ap (λ found. env.casing.trim_space (as_string found))
      (get-put "confirm_token" "confirm_token" (str t) args)

module _ (env : Env) (w₁ w₂ : World) (s : Server) (name : String) (d : ToolDescriptor)
    (args : Fields) (store : TokenStore) (t : String) (v : Value)
    (bare : env.casing.trim_space t ≡ t) (non_empty : t ≢ "")
    (on : confirmation_enabled env s ≡ some store) (random : w₁.random ≡ some t)
    (wet : bool_arg args "dry_run" ≡ false)
    (dry_needs : (confirmation_requirement env d (dry_args args)).requires_confirmation ≡ true)
    (needs : (confirmation_requirement env d (confirm_args t args)).requires_confirmation ≡ true)
    (first : Admitted w₁ s name d (dry_args args))
    (done : (call_tool env w₁ s name (dry_args args)).outcome ≡ success v) where
  -- The server between the two requests.
  abbrev pub between : Server
  between = (call_tool env w₁ s name (dry_args args)).server

  abbrev issued_store : TokenStore
  issued_store =
      (issue env.hash_payload store (confirmation_payload env s d args) (some t) w₁.now_issue).0

  between_lem : between ≡ record s {
    tool_rate_limiter = (allow s.tool_rate_limiter d.risk_class w₁.now_limit).0;
    confirmation_store = some issued_store;
  }
  between_lem =
      let s' = limited w₁ s d in
      let e = call_tool-Admitted env w₁ s name d (dry_args args) first in
      let same : confirmation_payload env s' d (strip_confirmation_token (dry_args args))
          ≡ confirmation_payload env s d args =
        payload-put env s' d "dry_run" (bool true) args (unfold is_control in refl)
        ∙ (unfold confirmation_payload in refl) in
      ap (λ r. r.server) e
      ∙ confirm-issues env w₁ s' d (dry_args args) store t v (unfold confirmation_enabled in on)
          dry_needs (bool_arg-dry_args args) random (ap (λ r. r.outcome) (sym e) ∙ done)
      ∙ ap
          (λ p. record s' {
            confirmation_store = some (issue env.hash_payload store p (some t) w₁.now_issue).0;
          })
          same

  accepts :
      w₂.now_validate < w₁.now_issue + store.ttl
      → (validate issued_store t (confirmation_payload env s d args) w₂.now_validate).1 ≡ none
  accepts live =
      validate-issue env.hash_payload store (confirmation_payload env s d args)
        (confirmation_payload env s d args) t w₁.now_issue w₂.now_validate
      ∙ ground (arith, beq_self (confirmation_payload env s d args))

  enabled_between : confirmation_enabled env (limited w₂ between d) ≡ some issued_store
  enabled_between =
      ap (λ srv. confirmation_enabled env (limited w₂ srv d)) between_lem
      ∙ enabled_stays env s store issued_store _ on

  -- Where confirmations are enabled and one is required for the call, a dry run that succeeds answers
  -- with the random token under confirmation.confirm_token; and the same call, repeated with that token
  -- and without the dry run before the token expires, gets to the handler: once, with the arguments less
  -- the token.
  pub confirmation_round_trip :
      Admitted w₂ between name d (confirm_args t args)
      → w₂.acquired ≡ true
      → w₂.now_validate < w₁.now_issue + store.ttl
      → (answered_token v ≡ some t)
        × ((call_tool env w₂ between name (confirm_args t args)).runs
            ≡ strip_confirmation_token (confirm_args t args) ∷ [])
  confirmation_round_trip second got live =
      let s' = limited w₂ between d in
      let args' = confirm_args t args in
      let same_token : token_arg env args' ≡ t = token_arg-confirm_args env t args ∙ bare in
      let same_payload : confirmation_payload env s' d (strip_confirmation_token args')
          ≡ confirmation_payload env s d args =
        payload-put env s' d "confirm_token" (str t) args (unfold is_control in refl)
        ∙ ap (λ srv. confirmation_payload env (limited w₂ srv d) d args) between_lem
        ∙ (unfold confirmation_payload in refl) in
      let shown : answered_token v ≡ some t =
        confirm-answers env w₁ (limited w₁ s d) d t v random (dry_args args) store
          (unfold confirmation_enabled in on) dry_needs (bool_arg-dry_args args)
          (ap (λ r. r.outcome) (sym (call_tool-Admitted env w₁ s name d (dry_args args) first))
            ∙ done) in
      (
        shown,
        ap (λ r. r.runs) (call_tool-Admitted env w₂ between name d args' second)
            ∙ confirm-runs_once env w₂ s' d args' issued_store t v enabled_between needs
                (bool_arg-confirm_args t args ∙ wet) got (rw same_token non_empty)
                (rw (same_token, same_payload) (accepts live)),
      )
