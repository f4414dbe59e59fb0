-- ===== src/Session/Examples.antt =====
-- The theorems on sessions at concrete inputs, and runs of the code.
use go_clockify.Base.{
  ℕ, ◌+◌, ◌≤◌, ◌≡◌, refl, true, none, some, List, [], ◌∷◌, arith, ℕ_eq, String_eq, length, ◌++◌,
  negsuc, pos,
}
use mathlib.Core.Path.{subst}
use go_clockify.Base.Assoc.{lookup, insert, erase}
use go_clockify.Pagination.Fallible.{ok}
use go_clockify.Json.{obj, arr, num, str, Fields, field, end, nil, get}
use go_clockify.Session.Ids.{
  Texts, text, Key_eq, rpc_id_key, progress_token_key, validate_progress_token,
  requires_initialized,
}
use go_clockify.Session.Version.{
  is_listed, supported_protocol_versions, negotiate_protocol_version, is_supported_protocol_version,
}
use go_clockify.Session.Progress.{
  Progress, at, allow_progress, allow_all, new_token_state, Increasing, within, second,
  allow_all-Increasing, allow_all-capped,
}
use go_clockify.Session.Registry.{
  live, explicit, Registry, new_registry, panic, done, cancel_inflight, cancel, register_inflight,
  unregister_inflight, register_progress_token, release_progress_token, is_some,
}
use go_clockify.Session.Calls.{
  begin_call, finish_call, finish_found, start, token_entered, token_checked, tool_error, succeeded,
  panicked, error_result, nothing, plain_result,
}
use go_clockify.Session.Lifecycle.{
  Session, InitializeParams, new_session, finish_initialize, not_initialized, handle_cancelled,
  initialize, begin, Steps, none_yet, one_more,
}
use go_clockify.Session.Reached.{Steps-token, Steps-untouched, Steps-supported, marks}
use go_clockify.Session.Cancellation.{handle_cancelled-silences, handle_cancelled-panics}

abbrev plain_texts : Texts
plain_texts = record { trim_space = λ s. s; is_int64 = λ s. true; format_v = λ v. "" }

abbrev hello : InitializeParams
hello = record { protocol_version = "2025-06-18"; client_info = none }

abbrev ready : Session
ready = record {
  default_protocol_version = "";
  initialized = true;
  negotiated_version = "2025-06-18";
  client_name = "";
  client_version = "";
  registry = new_registry;
}

greeted : finish_initialize plain_texts hello (new_session "") ≡ ready
unfolding finish_initialize negotiate_protocol_version is_supported_protocol_version
greeted = refl

-- A call with number 7 and a progress token.
abbrev one_call : Registry
one_call = record {
  inflight = (text "7", 0) ∷ [];
  active_progress_tokens = ("s:t", new_token_state) ∷ [];
  calls = (0, record { id = num "7"; token = some (str "t"); cause = live }) ∷ [];
  next_call = 1;
}

begun : begin_call plain_texts (num "7") (some (str "t")) new_registry ≡ done (one_call, ok 0)
unfolding begin_call token_checked token_entered start register_inflight register_progress_token
    validate_progress_token progress_token_key rpc_id_key insert erase lookup
begun = refl

abbrev busy : Session
busy = record ready { registry = one_call }

initialized-Steps : Steps plain_texts (new_session "") ready
initialized-Steps =
    subst (Steps plain_texts (new_session "")) greeted (one_more none_yet (initialize hello))

busy-Steps : Steps plain_texts (new_session "") busy
unfolding not_initialized requires_initialized
busy-Steps =
    one_more initialized-Steps (begin (num "7") (some (str "t")) one_call (ok 0) refl begun)

Steps-token_example : is_some (lookup "s:t" busy.registry.active_progress_tokens) ≡ true
unfolding lookup progress_token_key
Steps-token_example = (Steps-token plain_texts "" busy busy-Steps "s:t").1 (0, refl)

Steps-untouched_example : (new_session "").registry ≡ new_registry
Steps-untouched_example = Steps-untouched plain_texts "" (new_session "") none_yet refl

Steps-supported_example :
    is_listed
      (marks plain_texts (new_session "") busy busy-Steps ++ supported_protocol_versions)
      "2025-06-18"
    ≡ true
Steps-supported_example = Steps-supported plain_texts (λ v. refl) "" busy busy-Steps refl

-- The client cancels the call by its number, the tool then fails: nothing is written.
abbrev cancel_seven : Fields
cancel_seven = field "requestId" (num "7") end

abbrev cancelled_call : Registry
cancelled_call = record one_call {
  inflight = [];
  calls = (0, record { id = num "7"; token = some (str "t"); cause = explicit }) ∷ [];
}

seven_cancelled : handle_cancelled plain_texts (obj cancel_seven) one_call ≡ done cancelled_call
unfolding handle_cancelled cancel_inflight cancel get rpc_id_key lookup insert erase
seven_cancelled = refl

-- The text "7" is another identifier than the number 7, and cancels it all the same.
text_cancels :
    handle_cancelled plain_texts (obj (field "requestId" (str "7") end)) one_call
    ≡ done cancelled_call
unfolding handle_cancelled cancel_inflight cancel get rpc_id_key lookup insert erase
text_cancels = refl

unanswered :
    finish_call plain_texts 0 tool_error cancelled_call
    ≡ done (record new_registry { next_call = 1 }, nothing)
unfolding finish_call finish_found unregister_inflight release_progress_token rpc_id_key lookup
    erase progress_token_key
unanswered = refl

answered :
    finish_call plain_texts 0 succeeded cancelled_call
    ≡ done (record new_registry { next_call = 1 }, plain_result)
unfolding finish_call finish_found unregister_inflight release_progress_token rpc_id_key lookup
    erase progress_token_key
answered = refl

-- A tool that panics is answered, although its call was cancelled.
panic_answered :
    finish_call plain_texts 0 panicked cancelled_call
    ≡ done (record new_registry { next_call = 1 }, error_result)
unfolding finish_call finish_found unregister_inflight release_progress_token rpc_id_key lookup
    erase progress_token_key
panic_answered = refl

handle_cancelled-silences_example : nothing ≡ nothing
unfolding get rpc_id_key lookup
handle_cancelled-silences_example =
    handle_cancelled-silences plain_texts "" busy (record ready { registry = cancelled_call })
      busy-Steps cancel_seven (num "7") (text "7") 0 cancelled_call
      (record new_registry { next_call = 1 }) refl refl refl seven_cancelled none_yet tool_error
      nothing (λ e. absurd (ground (arith, e))) (λ e. absurd (ground (arith, e))) unanswered

handle_cancelled-panics_example :
    handle_cancelled plain_texts (obj (field "requestId" (arr nil) end)) new_registry ≡ panic
unfolding get
handle_cancelled-panics_example =
    (handle_cancelled-panics plain_texts (field "requestId" (arr nil) end) (arr nil) new_registry
        refl).1
      refl

-- Ten reports of one call in a second pass, the eleventh does not, and a report that does not advance
-- is dropped.
abbrev reports : List (ℕ × Progress)
reports =
    (5, at (negsuc 0))
    ∷ (5, at (negsuc 0))
    ∷ (6, at (pos 2))
    ∷ (6, at (pos 3))
    ∷ (6, at (pos 4))
    ∷ (6, at (pos 5))
    ∷ (6, at (pos 6))
    ∷ (6, at (pos 7))
    ∷ (6, at (pos 8))
    ∷ (6, at (pos 9))
    ∷ (6, at (pos 10))
    ∷ (7, at (pos 11))
    ∷ []

ten_pass : length (allow_all reports new_token_state) ≡ 10
unfolding allow_all allow_progress
ten_pass = refl

allow_all-Increasing_example : Increasing none (allow_all reports new_token_state)
allow_all-Increasing_example = allow_all-Increasing reports new_token_state (ground arith) refl

allow_all-capped_example : within 5 (5 + second) (allow_all reports new_token_state) ≤ 20
allow_all-capped_example = allow_all-capped reports 0 5 (ground arith)
