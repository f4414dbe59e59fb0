-- ===== src/Session/Silence.antt =====
-- What a cancellation does to the answers of the calls that run, internal/mcp/server.go.
use go_clockify.Base.{
  ℕ, ◌+◌, ◌<◌, String, ◌≡◌, Bool, true, false, Option, none, some, List, [], ◌∷◌, arith,
  if◌then◌else◌, ℕ_eq, String_eq,
}
use go_clockify.Base.Assoc.{lookup, insert, erase, lookup-insert, lookup-erase}
use go_clockify.Pagination.Fallible.{Fallible, ok}
use go_clockify.Json.{Value, null, obj, arr, num, bool, str, get}
use go_clockify.Session.Ids.{
  Texts, Key, Key_eq, progress_token_key, validate_progress_token, TokenFault,
}
use go_clockify.Session.Progress.{ProgressTokenState, Progress}
use go_clockify.Session.Registry.{
  Cause, live, explicit, reset, Call, Registry, panic, done, map_done_has, UnlessPanic,
  with_key_has, cancel, cancel_found, cancel_inflight, cancel_each, cancel_all_inflight,
  allow_token_progress, progress_found, register_inflight, unregister_inflight,
  register_progress_token, is_some, release_progress_token,
}
use go_clockify.Session.Calls.{
  ParamsFault, start, token_entered, token_checked, begin_call, finish_call, finish_found, CallEnd,
  answer, release_token,
}
use go_clockify.Session.Kept.{lookup-cancel}
use go_clockify.Session.Lifecycle.{
  Session, finish_initialize, mark_initialized, mark, handle_cancelled, Step, initialize, begin,
  finish, cancel_request, report, Steps, none_yet, one_more, done_has, or_null,
}

abbrev pub explicitly : Option Call → Bool
explicitly none = true
explicitly (some c) = elim c.cause [ explicit ↦ true | c ↦ false ]

-- The call has begun, and it has ended or its context is cancelled by the client.
pub record Silenced (n : ℕ) (s : Registry) : Type 0 where
  pub begun : n < s.next_call
  pub explicit_if_running : explicitly (lookup n s.calls) ≡ true

module _ (texts : Texts) (n : ℕ) where
  pub Silenced-cancel :
      (cause : Cause) (m : ℕ) (s : Registry) (inflight : List (Key × ℕ))
      → Silenced n s
      → Silenced n (record s { inflight = inflight; calls = cancel cause m s.calls })
  Silenced-cancel cause m s inflight h = record {
    begun = h.begun;
    explicit_if_running =
        ground (arith, lookup-cancel texts cause m n s.calls, h.explicit_if_running);
  }

  cancel_each-explicitly :
      (entries : List (Key × ℕ)) (calls : List (ℕ × Call))
      → explicitly (lookup n calls) ≡ true
      → explicitly (lookup n (cancel_each entries calls)) ≡ true
  cancel_each-explicitly [] calls h = h
  cancel_each-explicitly ((k, m) ∷ entries) calls h =
      cancel_each-explicitly entries (cancel reset m calls)
        (ground (arith, lookup-cancel texts reset m n calls, h))

  Silenced-cancel_found :
      (key : Key) (o : Option ℕ) (s : Registry) → Silenced n s → Silenced n (cancel_found key o s).0
  Silenced-cancel_found key none s h = h
  Silenced-cancel_found key (some m) s h = Silenced-cancel explicit m s (erase key s.inflight) h

  Silenced-handle_cancelled :
      (params : Value) (s : Registry)
      → Silenced n s
      → UnlessPanic (Silenced n) (handle_cancelled texts params s)
  unfolding handle_cancelled cancel_inflight
  Silenced-handle_cancelled (obj params) s h =
      let id = or_null texts (get "requestId" params) in
      map_done_has (Silenced n) (λ r. r.0) (cancel_inflight id s)
        (with_key_has (UnlessPanic (λ r. Silenced n r.0)) id (done (s, false)) panic
          (λ key. done (cancel_found key (lookup key s.inflight) s)) (λ e. h) tt
          (λ key e. Silenced-cancel_found key (lookup key s.inflight) s h))
  Silenced-handle_cancelled (arr xs) s h = h
  Silenced-handle_cancelled (str x) s h = h
  Silenced-handle_cancelled (num x) s h = h
  Silenced-handle_cancelled (bool b) s h = h
  Silenced-handle_cancelled null s h = h

  Silenced-entered :
      (call : Call) (s : Registry) (inflight : List (Key × ℕ))
      → Silenced n s
      → Silenced n (record s {
        inflight = inflight;
        calls = insert s.next_call call s.calls;
        next_call = s.next_call + 1;
      })
  Silenced-entered call s inflight h = record {
    begun = ground (arith, h.begun);
    explicit_if_running =
        ground (arith, lookup-insert s.next_call n call s.calls, h.begun, h.explicit_if_running);
  }

  Silenced-left :
      (m : ℕ) (token : Option Value) (s : Registry) (inflight : List (Key × ℕ))
      → Silenced n s
      → Silenced n
          (release_token texts token (record s { inflight = inflight; calls = erase m s.calls }))
  unfolding release_progress_token
  Silenced-left m none s inflight h = record {
    begun = h.begun;
    explicit_if_running = ground (arith, lookup-erase m n s.calls, h.explicit_if_running);
  }
  Silenced-left m (some token) s inflight h = record {
    begun = h.begun;
    explicit_if_running = ground (arith, lookup-erase m n s.calls, h.explicit_if_running);
  }

  Silenced-start :
      (id : Value) (token : Option Value) (s : Registry)
      → Silenced n s
      → UnlessPanic (λ r. Silenced n r.0) (start texts id token s)
  unfolding start register_inflight
  Silenced-start id token s h =
      let m = s.next_call in
      let call : Call = record { id = id; token = token; cause = live } in
      let t : Registry = record s { calls = insert m call s.calls; next_call = m + 1 } in
      let answered : Registry → Registry × Fallible ParamsFault ℕ = λ r. (r, ok m) in
      let entered = λ (inflight : List (Key × ℕ)). Silenced-entered call s inflight h in
      map_done_has (λ r. Silenced n r.0) answered (register_inflight id m t)
        (with_key_has (UnlessPanic (Silenced n)) id (done t) panic
          (λ key. done (record t { inflight = insert key m s.inflight })) (λ e. entered s.inflight)
          tt (λ key e. entered (insert key m s.inflight)))

  Silenced-token_entered :
      (id token : Value) (s : Registry) (b : Bool)
      → Silenced n s
      → UnlessPanic (λ r. Silenced n r.0) (token_entered texts id token (s, b))
  unfolding token_entered
  Silenced-token_entered id token s true h = Silenced-start id (some token) s h
  Silenced-token_entered id token s false h = h

  either :
      (b : Bool) (x y : Registry × Bool)
      → Silenced n x.0
      → Silenced n y.0
      → Silenced n (if b then x else y).0
  either true x y p q = p
  either false x y p q = q

  -- The maps of tokens do not matter here.
  Silenced-register_progress_token :
      (token : Value) (s : Registry)
      → Silenced n s
      → Silenced n (register_progress_token texts token s).0
  unfolding register_progress_token
  Silenced-register_progress_token token s h =
      either (is_some (lookup (progress_token_key texts token) s.active_progress_tokens)) _ _ h
        (record { begun = h.begun; explicit_if_running = h.explicit_if_running })

  Silenced-begin_call :
      (id : Value) (token : Option Value) (s : Registry)
      → Silenced n s
      → UnlessPanic (λ r. Silenced n r.0) (begin_call texts id token s)
  unfolding begin_call token_checked
  Silenced-begin_call id none s h = Silenced-start id none s h
  Silenced-begin_call id (some token) s h = checked (validate_progress_token texts token)
    where
      checked :
          (o : Option TokenFault)
          → UnlessPanic (λ r. Silenced n r.0) (token_checked texts id token o s)
      checked (some fault) = h
      checked none =
          let registered = register_progress_token texts token s in
          Silenced-token_entered id token registered.0 registered.1
            (Silenced-register_progress_token token s h)

  Silenced-finish_found :
      (m : ℕ) (end : CallEnd) (o : Option Call) (s : Registry)
      → Silenced n s
      → UnlessPanic (λ r. Silenced n r.0) (finish_found texts m end o s)
  unfolding finish_found unregister_inflight
  Silenced-finish_found m end none s h = h
  Silenced-finish_found m end (some call) s h =
      let t : Registry = record s { calls = erase m s.calls } in
      map_done_has (λ r. Silenced n r.0)
        (λ r. (release_token texts call.token r, answer texts call.id end call.cause))
        (unregister_inflight call.id t)
        (with_key_has (UnlessPanic (λ r. Silenced n (release_token texts call.token r))) call.id
          (done t) panic (λ key. done (record t { inflight = erase key s.inflight }))
          (λ e. Silenced-left m call.token s s.inflight h) tt
          (λ key e. Silenced-left m call.token s (erase key s.inflight) h))

  Silenced-finish_call :
      (m : ℕ) (end : CallEnd) (s : Registry)
      → Silenced n s
      → UnlessPanic (λ r. Silenced n r.0) (finish_call texts m end s)
  unfolding finish_call
  Silenced-finish_call m end s h = Silenced-finish_found m end (lookup m s.calls) s h

  Silenced-progress_found :
      (key : String) (now : ℕ) (progress : Progress) (o : Option ProgressTokenState) (s : Registry)
      → Silenced n s
      → Silenced n (progress_found key now progress o s).0
  Silenced-progress_found key now progress none s h = h
  Silenced-progress_found key now progress (some st) s h = record {
    begun = h.begun;
    explicit_if_running = h.explicit_if_running;
  }

  Silenced-reset_if :
      (b : Bool) (s : Registry) → Silenced n s → Silenced n (if b then cancel_all_inflight s else s)
  unfolding cancel_all_inflight
  Silenced-reset_if true s h = record {
    begun = h.begun;
    explicit_if_running = cancel_each-explicitly s.inflight s.calls h.explicit_if_running;
  }
  Silenced-reset_if false s h = h

  Step-Silenced : (s t : Session) → Step texts s t → Silenced n s.registry → Silenced n t.registry
  unfolding finish_initialize mark_initialized allow_token_progress
  Step-Silenced s t (initialize params) h = Silenced-reset_if s.initialized s.registry h
  Step-Silenced s t (mark version name number) h = h
  Step-Silenced s t (begin id token r answer g q) h =
      done_has texts (λ x. Silenced n x.0) _ (r, answer) q
        (Silenced-begin_call id token s.registry h)
  Step-Silenced s t (finish m end r a q) h =
      done_has texts (λ x. Silenced n x.0) _ (r, a) q (Silenced-finish_call m end s.registry h)
  Step-Silenced s t (cancel_request params r q) h =
      done_has texts (Silenced n) _ r q (Silenced-handle_cancelled params s.registry h)
  Step-Silenced s t (report token now progress) h =
      Silenced-progress_found (progress_token_key texts token) now progress
        (lookup (progress_token_key texts token) s.registry.active_progress_tokens) s.registry h

  pub Steps-Silenced :
      (s t : Session) → Steps texts s t → Silenced n s.registry → Silenced n t.registry
  Steps-Silenced s t none_yet h = h
  Steps-Silenced s t (one_more {t = u} st last) h = Step-Silenced u t last (Steps-Silenced s u st h)
