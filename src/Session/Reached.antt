-- ===== src/Session/Reached.antt =====
-- What holds in every session that begins with a new server, internal/mcp/server.go.
use go_clockify.Base.{
  ℕ, String, ◌≡◌, refl, sym, ◌↔◌, true, false, some, [], arith, ℕ_eq, String_eq, List, ◌++◌, ◌∷◌,
  Bool-cases, inl, beq_iff, inr,
}
use mathlib.Core.Path.{subst}
use go_clockify.Base.Assoc.{lookup}
use go_clockify.Json.{Value, null, obj, arr, num, bool, str, get}
use go_clockify.Session.Ids.{Key_eq, Texts, requires_initialized, Key}
use go_clockify.Session.Version.{
  is_listed, supported_protocol_versions, negotiate_protocol_version-listed,
}
use go_clockify.Session.Progress.{Progress}
use go_clockify.Session.Registry.{
  is_some, new_registry, panic, done, map_done_has, UnlessPanic, with_key_has, cancel_found,
  cancel_inflight, allow_token_progress,
}
use go_clockify.Session.Calls.{finish_call, finish_found, CallEnd}
use go_clockify.Session.Kept.{live_under, uses, WellFormed, new_registry-WellFormed}
use go_clockify.Session.Lifecycle.{
  Session, new_session, finish_initialize, mark_initialized, mark, not_initialized,
  handle_cancelled, Step, initialize, begin, finish, cancel_request, report, Steps, none_yet,
  one_more, done_has, Step-WellFormed, or_null,
}

module _ (texts : Texts) where
  -- Every reachable session is well formed.
  pub Steps-WellFormed :
      (configured : String) (t : Session)
      → Steps texts (new_session configured) t
      → WellFormed texts t.registry
  Steps-WellFormed configured t none_yet = new_registry-WellFormed texts
  Steps-WellFormed configured t (one_more {t = u} st last) =
      Step-WellFormed texts u t last (Steps-WellFormed configured u st)

  -- However the steps of a session interleave, and however often the client initializes it again, an
  -- entry of the cancellation map leads to a running call whose request has that key and whose context
  -- is not cancelled yet.
  pub Steps-entry :
      (configured : String) (t : Session)
      → Steps texts (new_session configured) t
      → (k : Key) (n : ℕ) → lookup k t.registry.inflight ≡ some n
      → live_under k (lookup n t.registry.calls) ≡ true
  Steps-entry configured t st = (Steps-WellFormed configured t st).entry

  -- In every reachable session, a progress token is registered exactly if some running call has it.
  pub Steps-token :
      (configured : String) (t : Session)
      → Steps texts (new_session configured) t
      → (key : String)
      → (is_some (lookup key t.registry.active_progress_tokens) ≡ true)
        ↔ ((n : ℕ) × (uses texts key (lookup n t.registry.calls) ≡ true))
  Steps-token configured t st key =
      let w = Steps-WellFormed configured t st in (w.used key, λ (n, u). w.held key n u)

  -- In every reachable session, no two running calls have the same progress token.
  pub Steps-alone :
      (configured : String) (t : Session)
      → Steps texts (new_session configured) t
      → (key : String) (n m : ℕ) → uses texts key (lookup n t.registry.calls) ≡ true
      → uses texts key (lookup m t.registry.calls) ≡ true
      → n ≡ m
  Steps-alone configured t st = (Steps-WellFormed configured t st).alone

  -- Operations on the maps of a new server leave them as they are.
  finish_call-new :
      (n : ℕ) (end : CallEnd)
      → UnlessPanic (λ x. x.0 ≡ new_registry) (finish_call texts n end new_registry)
  unfolding finish_call finish_found lookup
  finish_call-new n end = refl

  handle_cancelled-new :
      (params : Value)
      → UnlessPanic (λ r. r ≡ new_registry) (handle_cancelled texts params new_registry)
  unfolding handle_cancelled cancel_inflight lookup
  handle_cancelled-new (obj params) =
      let id = or_null texts (get "requestId" params) in
      map_done_has (λ r. r ≡ new_registry) (λ r. r.0) (cancel_inflight id new_registry)
        (with_key_has (UnlessPanic (λ r. r.0 ≡ new_registry)) id (done (new_registry, false)) panic
          (λ key. done (cancel_found key (lookup key []) new_registry)) (λ e. refl) tt
          (λ key e. refl))
  handle_cancelled-new (arr xs) = refl
  handle_cancelled-new (str x) = refl
  handle_cancelled-new (num x) = refl
  handle_cancelled-new (bool b) = refl
  handle_cancelled-new null = refl

  allow_token_progress-new :
      (token : Value) (now : ℕ) (progress : Progress)
      → (allow_token_progress texts token now progress new_registry).0 ≡ new_registry
  unfolding allow_token_progress lookup
  allow_token_progress-new token now progress = refl

  Step-untouched :
      (s t : Session)
      → Step texts s t
      → (s.initialized ≡ false → s.registry ≡ new_registry)
      → t.initialized ≡ false
      → t.registry ≡ new_registry
  unfolding finish_initialize mark_initialized not_initialized requires_initialized
  Step-untouched s t (initialize params) h e = absurd (ground (arith, e))
  Step-untouched s t (mark version name number) h e = absurd (ground (arith, e))
  Step-untouched s t (begin id token r answer g q) h e = absurd (ground (arith, e, g))
  Step-untouched s t (finish n end r a q) h e =
      done_has texts (λ x. x.0 ≡ new_registry) (finish_call texts n end s.registry) (r, a) q
        (subst (λ g. UnlessPanic (λ x. x.0 ≡ new_registry) (finish_call texts n end g)) (sym (h e))
          (finish_call-new n end))
  Step-untouched s t (cancel_request params r q) h e =
      done_has texts (λ x. x ≡ new_registry) (handle_cancelled texts params s.registry) r q
        (subst (λ g. UnlessPanic (λ x. x ≡ new_registry) (handle_cancelled texts params g))
          (sym (h e)) (handle_cancelled-new params))
  Step-untouched s t (report token now progress) h e =
      subst (λ g. (allow_token_progress texts token now progress g).0 ≡ new_registry) (sym (h e))
        (allow_token_progress-new token now progress)

  -- Until the client initializes the session, no call runs, nothing can be cancelled and no progress
  -- token is registered, whatever else the client sends.
  pub Steps-untouched :
      (configured : String) (t : Session)
      → Steps texts (new_session configured) t
      → t.initialized ≡ false
      → t.registry ≡ new_registry
  Steps-untouched configured t none_yet e = refl
  Steps-untouched configured t (one_more {t = u} st last) e =
      Step-untouched u t last (Steps-untouched configured u st) e

  -- The version that a step passes to `MarkInitialized`, if it is one.
  abbrev marked : (s t : Session) → Step texts s t → List String
  marked s t (mark version name number) = version ∷ []
  marked s t step = []

  -- The versions that were passed to `MarkInitialized`, the latest first.
  abbrev pub marks : (s t : Session) → Steps texts s t → List String
  marks s t none_yet = []
  marks s t (one_more {t = u} st last) = marked u t last ++ marks s u st

  Step-unset :
      (s t : Session)
      → Step texts s t
      → (s.initialized ≡ false → s.negotiated_version ≡ "")
      → t.initialized ≡ false
      → t.negotiated_version ≡ ""
  unfolding finish_initialize mark_initialized
  Step-unset s t (initialize params) h e = absurd (ground (arith, e))
  Step-unset s t (mark version name number) h e = absurd (ground (arith, e))
  Step-unset s t (begin id token r answer g q) h e = h e
  Step-unset s t (finish n end r a q) h e = h e
  Step-unset s t (cancel_request params r q) h e = h e
  Step-unset s t (report token now progress) h e = h e

  Steps-unset :
      (configured : String) (t : Session)
      → Steps texts (new_session configured) t
      → t.initialized ≡ false
      → t.negotiated_version ≡ ""
  Steps-unset configured t none_yet e = refl
  Steps-unset configured t (one_more {t = u} st last) e =
      Step-unset u t last (Steps-unset configured u st) e

  listed-append :
      (vs ws : List String) (v : String) → is_listed ws v ≡ true → is_listed (vs ++ ws) v ≡ true
  listed-append [] ws v h = h
  listed-append (u ∷ vs) ws v h = ground (arith, listed-append vs ws v h)

  module _ (idem : (v : String) → texts.trim_space (texts.trim_space v) ≡ texts.trim_space v) where
    Step-supported :
        (s t : Session) (last : Step texts s t) (vs : List String)
        → (s.initialized ≡ false → s.negotiated_version ≡ "")
        → (s.initialized ≡ true
            → is_listed (vs ++ supported_protocol_versions) s.negotiated_version ≡ true)
        → t.initialized ≡ true
        → is_listed ((marked s t last ++ vs) ++ supported_protocol_versions) t.negotiated_version
          ≡ true
    unfolding finish_initialize mark_initialized
    Step-supported s t (initialize params) vs f h e =
        listed-append vs supported_protocol_versions _ (
          negotiate_protocol_version-listed texts params.protocol_version s.default_protocol_version
            idem)
    Step-supported s t (mark version name number) vs f h e = elim (Bool-cases s.initialized) [
      | inl on ↦ ground (arith, h on, beq_iff version version)
      | inr off ↦ ground (arith, f off, beq_iff version version, beq_iff version "")
    ]
    Step-supported s t (begin id token r answer g q) vs f h e = h e
    Step-supported s t (finish n end r a q) vs f h e = h e
    Step-supported s t (cancel_request params r q) vs f h e = h e
    Step-supported s t (report token now progress) vs f h e = h e

    -- In every session that is initialized, the negotiated version is letter for letter one of the
    -- supported ones, or one that was passed to MarkInitialized.
    pub Steps-supported :
        (configured : String) (t : Session) (st : Steps texts (new_session configured) t)
        → t.initialized ≡ true
        → is_listed
            (marks (new_session configured) t st ++ supported_protocol_versions)
            t.negotiated_version
          ≡ true
    Steps-supported configured t none_yet e = absurd (ground (arith, e))
    Steps-supported configured t (one_more {t = u} st last) e =
        Step-supported u t last (marks (new_session configured) u st) (Steps-unset configured u st)
          (Steps-supported configured u st) e
