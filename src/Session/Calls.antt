-- ===== src/Session/Calls.antt =====
-- The tools/call case of `handle`, internal/mcp/server.go: what it does before the tool runs, and what
-- it does with the tool's result. Cancellations and other calls may come between the two.
use go_clockify.Base.{
  ℕ, ◌+◌, String, Bool, true, false, Option, none, some, if◌then◌else◌, ◌==◌, ℕ_eq, String_eq,
}
use go_clockify.Base.Assoc.{lookup, insert, erase}
use go_clockify.Json.{Value, null, str, obj, Fields, get}
use go_clockify.Session.Ids.{Key_eq, Texts, TokenFault, validate_progress_token, is_null}
use go_clockify.Pagination.Fallible.{Fallible, ok, err}
use go_clockify.Session.Registry.{
  Cause, live, explicit, Call, Registry, Panics, done, map_done, register_inflight,
  unregister_inflight, register_progress_token, release_progress_token,
}

pub record ToolCallParams : Type 0 where
  pub name : String
  pub arguments : Option Fields
  pub progress_token : Option Value

pub data ParamsFault : Type 0 where
  bad_name bad_arguments bad_meta null_token token_in_use : ParamsFault
  bad_token : TokenFault → ParamsFault

-- How `callTool` ends, as `handle` tells its errors apart, or by a panic of the tool.
pub data CallEnd : Type 0 where
  succeeded invalid_params unknown_tool tool_error panicked : CallEnd

-- What is written: nothing, an error of code -32602, or a result, with `isError` or without.
pub data Written : Type 0 where
  nothing params_error error_result plain_result : Written

module _ (texts : Texts) where
  -- `_meta.progressToken`; a missing or null `_meta` is no metadata.
  abbrev token_of : Option Value → Fallible ParamsFault (Option Value)
  token_of none = ok none
  token_of (some null) = ok none
  token_of (some (obj meta)) = elim (get "progressToken" meta) [
    | none ↦ ok none
    | some null ↦ err null_token
    | some token ↦ ok (some token)
  ]
  token_of (some v) = err bad_meta

  abbrev arguments_of : Option Value → Fallible ParamsFault (Option Fields)
  arguments_of none = ok none
  arguments_of (some null) = ok none
  arguments_of (some (obj args)) = ok (some args)
  arguments_of (some v) = err bad_arguments

  abbrev name_of : Option Value → Fallible ParamsFault String
  name_of (some (str name)) = if texts.trim_space name == "" then err bad_name else ok name
  name_of v = err bad_name

  unfoldable pub tool_call_params_from_map : Fields → Fallible ParamsFault ToolCallParams
  tool_call_params_from_map m = elim (name_of (get "name" m)) [
    | err e ↦ err e
    | ok name ↦ elim (arguments_of (get "arguments" m)) [
      | err e ↦ err e
      | ok args ↦ elim (token_of (get "_meta" m)) [
        | err e ↦ err e
        | ok token ↦ ok (record { name = name; arguments = args; progress_token = token })
      ]
    ]
  ]

  -- The registration of a call whose token, if any, is registered already.
  unfoldable pub start :
      Value → Option Value → Registry → Panics (Registry × Fallible ParamsFault ℕ)
  unfolding insert
  start id token s =
      let call : Call = record { id = id; token = token; cause = live } in
      map_done (λ s'. (s', ok s.next_call))
        (register_inflight id s.next_call
          (record s { calls = insert s.next_call call s.calls; next_call = s.next_call + 1 }))

  unfoldable pub token_entered :
      Value → Value → Registry × Bool → Panics (Registry × Fallible ParamsFault ℕ)
  token_entered id token (s, true) = start id (some token) s
  token_entered id token (s, false) = done (s, err token_in_use)

  unfoldable pub token_checked :
      Value → Value → Option TokenFault → Registry → Panics (Registry × Fallible ParamsFault ℕ)
  token_checked id token (some fault) s = done (s, err (bad_token fault))
  token_checked id token none s = token_entered id token (register_progress_token texts token s)

  -- How a call begins: with a refusal, or with the number of the call that runs.
  unfoldable pub begin_call :
      Value → Option Value → Registry → Panics (Registry × Fallible ParamsFault ℕ)
  begin_call id none s = start id none s
  begin_call id (some token) s = token_checked id token (validate_progress_token texts token) s

  abbrev pub release_token : Option Value → Registry → Registry
  release_token none s = s
  release_token (some token) s = release_progress_token texts token s

  -- What `handle` makes of the end of a call; after a panic it is `answer` below that counts.
  abbrev pub response : CallEnd → Cause → Written
  response succeeded cause = plain_result
  response panicked cause = error_result
  response end explicit = nothing
  response invalid_params cause = params_error
  response unknown_tool cause = params_error
  response tool_error cause = error_result

  -- No answer goes to a notification.
  abbrev pub written_to : Value → Written → Written
  written_to id w = if is_null id then nothing else w

  -- `RecoverDispatch` (internal/mcp/panic.go) answers a panic: it looks at no cancellation, and it writes
  -- for a notification too.
  abbrev pub answer : Value → CallEnd → Cause → Written
  answer id panicked cause = error_result
  answer id end cause = written_to id (response end cause)

  -- The answer, and the deferred calls in Go's order, the last first.
  unfoldable pub finish_found : ℕ → CallEnd → Option Call → Registry → Panics (Registry × Written)
  unfolding erase
  finish_found n end none s = done (s, nothing)
  finish_found n end (some call) s =
      map_done (λ s'. (release_token call.token s', answer call.id end call.cause))
        (unregister_inflight call.id (record s { calls = erase n s.calls }))

  -- The end of a running call.
  unfoldable pub finish_call : ℕ → CallEnd → Registry → Panics (Registry × Written)
  finish_call n end s = finish_found n end (lookup n s.calls) s
