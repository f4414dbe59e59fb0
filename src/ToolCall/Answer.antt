-- ===== src/ToolCall/Answer.antt =====
-- The token in the answer to a dry run, internal/mcp/tools.go.
use go_clockify.Base.{
  ◌+◌, String, ◌≡◌, refl, sym, ap, ◌∙◌, ◌⊎◌, inl, inr, true, Option, none, some, List, [], ◌∷◌,
  arith, ℕ_eq, String_eq,
}
use go_clockify.Json.{Value, obj, arr, str, num, bool, null, Fields, get, get-put}
use go_clockify.Safety.Tokens.{TokenStore, Issue, issue}
use go_clockify.Risk.{RiskClass}
use go_clockify.ToolCall.Types.{
  Env, ToolDescriptor, Server, World, success, HandlerResult, HandlerFailure, returned, failed,
}
use go_clockify.ToolCall.Confirmation.{
  confirmation_payload, central_dry_run_preview, confirmation_enabled, confirmation_requirement,
  confirmation_metadata, merge_confirmation_metadata, strip_confirmation_token, bool_arg,
}
use go_clockify.ToolCall.Dispatch.{issue_for_result, run_handler, confirm}

abbrev text_of : Option Value → Option String
text_of (some (str s)) = some s
text_of v = none

abbrev token_of : Option Value → Option String
token_of (some (obj confirmation)) = text_of (get "confirm_token" confirmation)
token_of v = none

-- What a client reads off an answer: `confirmation.confirm_token`.
abbrev pub answered_token : Value → Option String
answered_token (obj m) = token_of (get "confirmation" m)
answered_token v = none

metadata-token :
    (env : Env) (rc : RiskClass) (i : Issue)
    → get "confirm_token" (confirmation_metadata env rc i) ≡ some (str i.token)
unfolding get confirmation_metadata
metadata-token env rc i = refl

module _ (env : Env) (rc : RiskClass) (i : Issue) where
  read_back : token_of (some (obj (confirmation_metadata env rc i))) ≡ some i.token
  read_back = ap text_of (metadata-token env rc i)

  merge-token :
      (result : Value)
      → answered_token (merge_confirmation_metadata result (confirmation_metadata env rc i))
        ≡ some i.token
  unfolding merge_confirmation_metadata get
  merge-token (obj m) =
      ap token_of (get-put "confirmation" "confirmation" (obj (confirmation_metadata env rc i)) m)
      ∙ read_back
  merge-token (arr xs) = read_back
  merge-token (str s) = read_back
  merge-token (num x) = read_back
  merge-token (bool b) = read_back
  merge-token null = read_back

handler_cases :
    (r : HandlerResult) → ((e : HandlerFailure) × (r ≡ failed e)) ⊎ ((v : Value) × (r ≡ returned v))
handler_cases (failed e) = inl (e, refl)
handler_cases (returned v) = inr (v, refl)

module _ (env : Env) (w : World) (s : Server) (d : ToolDescriptor) (t : String) (v : Value)
    (random : w.random ≡ some t) where
  issue_for_result-answers :
      (store : TokenStore) (args : Fields) (result : Value) (runs : List Fields)
      → (issue_for_result env w s store d args result runs).outcome ≡ success v
      → answered_token v ≡ some t
  unfolding issue_for_result issue
  issue_for_result-answers store args result runs h =
      let payload = confirmation_payload env s d args in
      let i : Issue = record {
        token = t;
        preview_hash = env.hash_payload payload;
        expires_at = w.now_issue + store.ttl;
      } in
      let e : merge_confirmation_metadata result (confirmation_metadata env d.risk_class i) ≡ v =
        ground (arith, random, h) in
      ap answered_token (sym e) ∙ merge-token env d.risk_class i result

  pub confirm-answers :
      (args : Fields) (store : TokenStore)
      → confirmation_enabled env s ≡ some store
      → (confirmation_requirement env d args).requires_confirmation ≡ true
      → bool_arg args "dry_run" ≡ true
      → (confirm env w s d args).outcome ≡ success v
      → answered_token v ≡ some t
  unfolding confirm run_handler
  confirm-answers args store on req dry h =
      let handler_args = strip_confirmation_token args in
      elim (handler_cases (d.handler handler_args)) [
        | inl (e, q) ↦ ground (
          arith,
          issue_for_result-answers store handler_args
              (central_dry_run_preview d (confirmation_requirement env d args)) [],
          on,
          req,
          dry,
          h,
          q,
        )
        | inr (result, q) ↦ ground (
          arith,
          issue_for_result-answers store handler_args
              (central_dry_run_preview d (confirmation_requirement env d args)) [],
          issue_for_result-answers store handler_args result (handler_args ∷ []),
          on,
          req,
          dry,
          h,
          q,
        )
      ]
