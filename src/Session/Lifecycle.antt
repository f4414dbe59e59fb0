-- ===== src/Session/Lifecycle.antt =====
-- The life of a session, internal/mcp/server.go: `finishInitialize`, `MarkInitialized`, the gate of
-- `handle` before any method, `handleCancelled`, and the steps in which running calls interleave.
use go_clockify.Base.{
  ℕ, String, ◌≡◌, Bool, true, false, not, ◌&&◌, Option, none, some, if◌then◌else◌, ◌==◌, ℕ_eq,
  String_eq,
}
use mathlib.Core.Path.{subst}
use go_clockify.Pagination.Fallible.{Fallible}
use go_clockify.Json.{Value, null, obj, arr, num, bool, str, Fields, get}
use go_clockify.Session.Ids.{Texts, requires_initialized}
use go_clockify.Session.Version.{negotiate_protocol_version}
use go_clockify.Session.Progress.{Progress}
use go_clockify.Session.Registry.{
  Registry, new_registry, Panics, done, map_done, map_done_has, UnlessPanic, cancel_inflight,
  cancel_all_inflight, allow_token_progress,
}
use go_clockify.Session.Calls.{ParamsFault, begin_call, finish_call, CallEnd, Written}
use go_clockify.Session.Kept.{
  WellFormed, cancel_inflight-WellFormed, cancel_all_inflight-WellFormed,
  allow_token_progress-WellFormed,
}
use go_clockify.Session.Ends.{begin_call-WellFormed, finish_call-WellFormed}

pub record InitializeParams : Type 0 where
  pub protocol_version : String
  pub client_info : Option Fields

pub record Session : Type 0 where
  pub default_protocol_version : String
  pub initialized : Bool
  pub negotiated_version : String
  pub client_name : String
  pub client_version : String
  pub registry : Registry

abbrev pub new_session : String → Session
new_session configured = record {
  default_protocol_version = configured;
  initialized = false;
  negotiated_version = "";
  client_name = "";
  client_version = "";
  registry = new_registry;
}

-- A member of the client's information, if it is a text.
abbrev text_or_empty : Option Value → String
text_or_empty (some (str s)) = s
text_or_empty v = ""

abbrev info : String → Option Fields → String
info key none = ""
info key (some fs) = text_or_empty (get key fs)

abbrev unless_empty : String → String → String
unless_empty new old = if new == "" then old else new

unfoldable pub mark_initialized :
    (protocol_version client_name client_version : String) → Session → Session
mark_initialized protocol_version client_name client_version s = record s {
  negotiated_version = unless_empty protocol_version s.negotiated_version;
  client_name = unless_empty client_name s.client_name;
  client_version = unless_empty client_version s.client_version;
  initialized = true;
}

module _ (texts : Texts) where
  -- A repeated initialize first cancels whatever runs.
  unfoldable pub finish_initialize : InitializeParams → Session → Session
  finish_initialize params s = record s {
    registry = if s.initialized then cancel_all_inflight s.registry else s.registry;
    negotiated_version =
        negotiate_protocol_version texts params.protocol_version s.default_protocol_version;
    client_name = info "name" params.client_info;
    client_version = info "version" params.client_info;
    initialized = true;
  }

  -- The first test of `handle`.
  unfoldable pub not_initialized : String → Session → Bool
  not_initialized method s = requires_initialized method && not s.initialized

  abbrev pub or_null : Option Value → Value
  or_null none = null
  or_null (some v) = v

  -- Parameters that are no object do not decode into the struct of the second part either, but for
  -- null, which leaves it without an identifier.
  unfoldable pub handle_cancelled : Value → Registry → Panics Registry
  handle_cancelled (obj params) s =
      map_done (λ r. r.0) (cancel_inflight (or_null (get "requestId" params)) s)
  handle_cancelled raw s = done s

  -- What can happen next. Each part of a call is atomic, and the tools run between them.
  pub data Step (s : Session) : Session → Type 0 where
    initialize : (params : InitializeParams) → Step s (finish_initialize params s)
    mark :
        (protocol_version client_name client_version : String)
        → Step s (mark_initialized protocol_version client_name client_version s)
    begin :
        (id : Value) (token : Option Value) (r : Registry) (answer : Fallible ParamsFault ℕ)
        → not_initialized "tools/call" s ≡ false
        → begin_call texts id token s.registry ≡ done (r, answer)
        → Step s (record s { registry = r })
    finish :
        (n : ℕ) (end : CallEnd) (r : Registry) (w : Written)
        → finish_call texts n end s.registry ≡ done (r, w)
        → Step s (record s { registry = r })
    cancel_request :
        (params : Value) (r : Registry)
        → handle_cancelled params s.registry ≡ done r
        → Step s (record s { registry = r })
    report :
        (token : Value) (now : ℕ) (progress : Progress)
        → Step s
            (record s { registry = (allow_token_progress texts token now progress s.registry).0 })

  pub data Steps (s : Session) : Session → Type 0 where
    none_yet : Steps s s
    one_more : {t u : Session} → Steps s t → Step t u → Steps s u

  pub done_has :
      {A : Type 0} (P : A → Type 0) (x : Panics A) (a : A) → x ≡ done a → UnlessPanic P x → P a
  done_has P x a q h = subst (UnlessPanic P) q h

  handle_cancelled-WellFormed :
      (params : Value) (s : Registry)
      → WellFormed texts s
      → UnlessPanic (WellFormed texts) (handle_cancelled params s)
  unfolding handle_cancelled
  handle_cancelled-WellFormed (obj params) s w =
      let id = or_null (get "requestId" params) in
      map_done_has (WellFormed texts) (λ r. r.0) (cancel_inflight id s)
        (cancel_inflight-WellFormed texts s w id)
  handle_cancelled-WellFormed (arr xs) s w = w
  handle_cancelled-WellFormed (str x) s w = w
  handle_cancelled-WellFormed (num x) s w = w
  handle_cancelled-WellFormed (bool b) s w = w
  handle_cancelled-WellFormed null s w = w

  reset_if :
      (b : Bool) (r : Registry)
      → WellFormed texts r
      → WellFormed texts (if b then cancel_all_inflight r else r)
  reset_if true r w = cancel_all_inflight-WellFormed texts r w
  reset_if false r w = w

  pub Step-WellFormed :
      (s t : Session) → Step s t → WellFormed texts s.registry → WellFormed texts t.registry
  unfolding finish_initialize mark_initialized
  Step-WellFormed s t (initialize params) w = reset_if s.initialized s.registry w
  Step-WellFormed s t (mark version name number) w = w
  Step-WellFormed s t (begin id token r answer g q) w =
      done_has (λ x. WellFormed texts x.0) _ (r, answer) q
        (begin_call-WellFormed texts id token s.registry w)
  Step-WellFormed s t (finish n end r a q) w =
      done_has (λ x. WellFormed texts x.0) _ (r, a) q
        (finish_call-WellFormed texts n end s.registry w)
  Step-WellFormed s t (cancel_request params r q) w =
      done_has (WellFormed texts) _ r q (handle_cancelled-WellFormed params s.registry w)
  Step-WellFormed s t (report token now progress) w =
      allow_token_progress-WellFormed texts token now progress s.registry w
