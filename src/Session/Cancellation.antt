-- ===== src/Session/Cancellation.antt =====
-- `notifications/cancelled`: which call it silences, and which payloads it cannot read,
-- internal/mcp/server.go.
use go_clockify.Base.{
  ℕ, String, ◌≡◌, refl, sym, ap, ◌∙◌, ◌↔◌, Bool, true, false, Option, none, some, arith, ◌==◌,
  beq_iff, ℕ_eq, String_eq,
}
use go_clockify.Base.Assoc.{lookup, erase}
use go_clockify.Json.{Value, null, obj, arr, num, bool, str, Fields, get}
use go_clockify.Session.Ids.{Texts, Key, Key_eq, rpc_id_key, is_null}
use go_clockify.Session.Registry.{
  explicit, Call, Registry, Panics, panic, done, map_done, map_done_has, UnlessPanic, cancel_found,
  cancel_inflight, unregister_inflight,
}
use go_clockify.Session.Calls.{
  finish_call, finish_found, CallEnd, succeeded, panicked, Written, nothing, answer, release_token,
}
use go_clockify.Session.Kept.{WellFormed, lookup-cancel}
use go_clockify.Session.Lifecycle.{Session, new_session, handle_cancelled, Steps, done_has, or_null}
use go_clockify.Session.Reached.{Steps-WellFormed}
use go_clockify.Session.Silence.{explicitly, Silenced, Steps-Silenced}

always : {A Q : Type 0} (x : Panics A) → Q → UnlessPanic (λ a. Q) x
always panic q = tt
always (done a) q = q

module _ (texts : Texts) where
  unwritten :
      (id : Value) (end : CallEnd) (call : Call)
      → explicitly (some call) ≡ true
      → (end ≡ succeeded → ⊥)
      → (end ≡ panicked → ⊥)
      → answer texts id end call.cause ≡ nothing
  unwritten id succeeded call h failed calm = absurd (failed refl)
  unwritten id panicked call h failed calm = absurd (calm refl)
  unwritten id end call h failed calm = ground (arith, h)

  -- A silenced call that fails with an error is not answered.
  Silenced-unanswered :
      (n : ℕ) (end : CallEnd) (s : Registry)
      → Silenced n s
      → (end ≡ succeeded → ⊥)
      → (end ≡ panicked → ⊥)
      → UnlessPanic (λ r. r.1 ≡ nothing) (finish_call texts n end s)
  unfolding finish_call finish_found
  Silenced-unanswered n end s h failed calm = found (lookup n s.calls) h.explicit_if_running
    where
      found :
          (o : Option Call)
          → explicitly o ≡ true
          → UnlessPanic (λ r. r.1 ≡ nothing) (finish_found texts n end o s)
      found none q = refl
      found (some call) q =
          map_done_has (λ r. r.1 ≡ nothing)
            (λ r. (release_token texts call.token r, answer texts call.id end call.cause))
            (unregister_inflight call.id (record s { calls = erase n s.calls }))
            (always (unregister_inflight call.id (record s { calls = erase n s.calls }))
              (unwritten call.id end call q failed calm))

  module _ (s : Registry) (w : WellFormed texts s) (key : Key) (n : ℕ)
      (e : lookup key s.inflight ≡ some n) where
    found_Silenced : Silenced n (cancel_found key (some n) s).0
    found_Silenced = record {
      begun = ground (arith, w.fresh n, w.entry key n e);
      explicit_if_running =
          ground (arith, lookup-cancel texts explicit n n s.calls, w.entry key n e, beq_iff n n);
    }

    found_others :
        (m : ℕ)
        → (n == m) ≡ false
        → lookup m (cancel_found key (some n) s).0.calls ≡ lookup m s.calls
    found_others m ne = ground (arith, lookup-cancel texts explicit n m s.calls, ne)

  -- What a cancellation comes to by the key of its identifier, if that has one.
  by_key : Option Key → Registry → Panics (Registry × Bool)
  by_key none s = panic
  by_key (some key) s = done (cancel_found key (lookup key s.inflight) s)

  cancel_inflight-by_key :
      (id : Value) (s : Registry)
      → is_null id ≡ false
      → cancel_inflight id s ≡ by_key (rpc_id_key id) s
  unfolding cancel_inflight rpc_id_key by_key
  cancel_inflight-by_key null s h = absurd (ground (arith, h))
  cancel_inflight-by_key (bool b) s h = refl
  cancel_inflight-by_key (num x) s h = refl
  cancel_inflight-by_key (str x) s h = refl
  cancel_inflight-by_key (arr x) s h = refl
  cancel_inflight-by_key (obj x) s h = refl

  handle_cancelled-by_key :
      (params : Fields) (id : Value) (s : Registry)
      → get "requestId" params ≡ some id
      → is_null id ≡ false
      → handle_cancelled texts (obj params) s ≡ map_done (λ r. r.0) (by_key (rpc_id_key id) s)
  unfolding handle_cancelled
  handle_cancelled-by_key params id s g h =
      ap (λ o. map_done (λ r. r.0) (cancel_inflight (or_null texts o) s)) g
      ∙ ap (map_done (λ r. r.0)) (cancel_inflight-by_key id s h)

  has_key : (id : Value) (key : Key) → rpc_id_key id ≡ some key → is_null id ≡ false
  unfolding rpc_id_key
  has_key null key k = absurd (ground (arith, k))
  has_key (bool b) key k = refl
  has_key (num x) key k = refl
  has_key (str x) key k = refl
  has_key (arr x) key k = refl
  has_key (obj x) key k = refl

  found_by_key :
      (params : Fields) (id : Value) (key : Key) (n : ℕ) (s : Registry)
      → get "requestId" params ≡ some id
      → rpc_id_key id ≡ some key
      → lookup key s.inflight ≡ some n
      → handle_cancelled texts (obj params) s ≡ done (cancel_found key (some n) s).0
  unfolding by_key
  found_by_key params id key n s g k e =
      handle_cancelled-by_key params id s g (has_key id key k)
      ∙ ap (λ o. map_done (λ x. x.0) (by_key o s)) k
      ∙ ap (λ o. done (cancel_found key o s).0) e

  -- In every reachable session, a cancellation whose identifier has the key of a cancellable call
  -- leaves every other call as it was, its context included.
  pub handle_cancelled-others :
      (configured : String) (s : Session)
      → Steps texts (new_session configured) s
      → (params : Fields) (id : Value) (key : Key) (n m : ℕ) → get "requestId" params ≡ some id
      → rpc_id_key id ≡ some key
      → lookup key s.registry.inflight ≡ some n
      → (n == m) ≡ false
      → map_done (λ r. lookup m r.calls) (handle_cancelled texts (obj params) s.registry)
        ≡ done (lookup m s.registry.calls)
  handle_cancelled-others configured s st params id key n m g k e ne =
      ap (map_done (λ r. lookup m r.calls)) (found_by_key params id key n s.registry g k e)
      ∙ ap done (found_others s.registry (Steps-WellFormed texts configured s st) key n e m ne)

  -- In every reachable session: once a cancellation whose identifier has the key of a cancellable call
  -- is handled, that call is not answered if it fails with an error, other than by a panic, whatever steps
  -- come between.
  pub handle_cancelled-silences :
      (configured : String) (s t : Session)
      → Steps texts (new_session configured) s
      → (params : Fields) (id : Value) (key : Key) (n : ℕ) (r r' : Registry)
      → get "requestId" params ≡ some id
      → rpc_id_key id ≡ some key
      → lookup key s.registry.inflight ≡ some n
      → handle_cancelled texts (obj params) s.registry ≡ done r
      → Steps texts (record s { registry = r }) t
      → (end : CallEnd) (w : Written) → (end ≡ succeeded → ⊥)
      → (end ≡ panicked → ⊥)
      → finish_call texts n end t.registry ≡ done (r', w)
      → w ≡ nothing
  handle_cancelled-silences configured s t st params id key n r r' g k e h later end w failed calm
        q =
      let wf = Steps-WellFormed texts configured s st in
      let silent =
        done_has texts (Silenced n) (done (cancel_found key (some n) s.registry).0) r
          (sym (found_by_key params id key n s.registry g k e) ∙ h)
          (found_Silenced s.registry wf key n e) in
      done_has texts (λ x. x.1 ≡ nothing) (finish_call texts n end t.registry) (r', w) q
        (Silenced-unanswered n end t.registry
          (Steps-Silenced texts n (record s { registry = r }) t later silent) failed calm)

  abbrev pub is_composite : Value → Bool
  is_composite (arr xs) = true
  is_composite (obj fs) = true
  is_composite v = false

  panics_iff :
      (id : Value) (s : Registry)
      → (map_done (λ r. r.0) (cancel_inflight id s) ≡ panic) ↔ (is_composite id ≡ true)
  unfolding cancel_inflight rpc_id_key
  panics_iff null s = ground arith
  panics_iff (bool b) s = ground arith
  panics_iff (num x) s = ground arith
  panics_iff (str x) s = ground arith
  panics_iff (arr xs) s = ground arith
  panics_iff (obj fs) s = ground arith

  -- In any state, a cancellation whose identifier is an array or an object panics, and no other
  -- cancellation does.
  pub handle_cancelled-panics :
      (params : Fields) (id : Value) (s : Registry)
      → get "requestId" params ≡ some id
      → (handle_cancelled texts (obj params) s ≡ panic) ↔ (is_composite id ≡ true)
  unfolding by_key rpc_id_key handle_cancelled cancel_inflight
  handle_cancelled-panics params id s g =
      let q = ap (λ o. map_done (λ r. r.0) (cancel_inflight (or_null texts o) s)) g in
      (λ e. (panics_iff id s).0 (sym q ∙ e), λ c. q ∙ (panics_iff id s).1 c)
