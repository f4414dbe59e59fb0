-- ===== src/Session/Ends.antt =====
-- The begin and the end of a tool call keep the maps of running calls well formed, internal/mcp/server.go.
use go_clockify.Base.{
  ℕ, ◌+◌, String, ◌≡◌, refl, Bool, true, false, not, ◌&&◌, ◌||◌, Option, none, some, List, arith,
  if◌then◌else◌, beq_iff, ℕ_eq, String_eq,
}
use go_clockify.Base.Assoc.{lookup, insert, erase, lookup-insert, lookup-erase}
use go_clockify.Pagination.Fallible.{Fallible, ok}
use go_clockify.Json.{Value}
use go_clockify.Session.Ids.{
  Key, Key_eq, Texts, TokenFault, validate_progress_token, progress_token_key,
}
use go_clockify.Session.Progress.{ProgressTokenState, new_token_state}
use go_clockify.Session.Registry.{
  Cause, live, Call, Registry, panic, done, map_done_has, register_inflight, unregister_inflight,
  UnlessPanic, with_key_has, register_progress_token, release_progress_token, is_some,
}
use go_clockify.Session.Calls.{
  start, begin_call, ParamsFault, token_entered, token_checked, finish_found, finish_call, CallEnd,
  answer,
}
use go_clockify.Session.Kept.{live_under, uses, WellFormed, entered-WellFormed}

module _ (texts : Texts) where
  -- The token is registered by now, if there is one.
  start-WellFormed :
      (id : Value) (token : Option Value) (s : Registry)
      (tokens : List (String × ProgressTokenState))
      → WellFormed texts s
      → let call : Call = record { id = id; token = token; cause = live } in
        ((t : String)
          → is_some (lookup t tokens)
            ≡ (uses texts t (some call) || is_some (lookup t s.active_progress_tokens)))
        → ((t : String)
            → uses texts t (some call) ≡ true
            → is_some (lookup t s.active_progress_tokens) ≡ false)
        → UnlessPanic
            (λ r. WellFormed texts r.0)
            (start texts id token (record s { active_progress_tokens = tokens }))
  unfolding start register_inflight
  start-WellFormed id token s tokens w registered unused =
      let n = s.next_call in
      let call : Call = record { id = id; token = token; cause = live } in
      let t : Registry = record s {
        active_progress_tokens = tokens;
        calls = insert n call s.calls;
        next_call = n + 1;
      } in
      let answered : Registry → Registry × Fallible ParamsFault ℕ = λ r. (r, ok n) in
      map_done_has (λ r. WellFormed texts r.0) answered (register_inflight id n t)
        (with_key_has (UnlessPanic (WellFormed texts)) id (done t) panic
          (λ key. done (record t { inflight = insert key n s.inflight }))
          (λ e.
            entered-WellFormed texts s w call tokens s.inflight
              (λ k m l. ground (arith, lookup-insert n m call s.calls, w.entry k m l, w.fresh m))
              registered unused)
          tt
          (λ key q.
            entered-WellFormed texts s w call tokens (insert key n s.inflight)
              (λ k m l. ground (
                arith,
                lookup-insert n m call s.calls,
                lookup-insert key k n s.inflight,
                w.entry k m,
                w.fresh m,
                q,
                l,
                beq_iff key k,
              ))
              registered unused))

  token_entered-WellFormed :
      (id token : Value) (s : Registry) (b : Bool)
      → WellFormed texts s
      → is_some (lookup (progress_token_key texts token) s.active_progress_tokens) ≡ b
      → UnlessPanic
          (λ r. WellFormed texts r.0)
          (token_entered texts id token (
            if b then (s, false) else (
              record s {
                active_progress_tokens =
                    insert
                      (progress_token_key texts token)
                      new_token_state
                      s.active_progress_tokens;
              },
              true,
            )))
  unfolding token_entered
  token_entered-WellFormed id token s true w q = w
  token_entered-WellFormed id token s false w q =
      let key = progress_token_key texts token in
      start-WellFormed id (some token) s (insert key new_token_state s.active_progress_tokens) w
        (λ t.
          ground
            (arith, lookup-insert key t new_token_state s.active_progress_tokens, beq_iff key t))
        (λ t h. ground (arith, q, h, beq_iff key t))

  token_checked-WellFormed :
      (id token : Value) (fault : Option TokenFault) (s : Registry)
      → WellFormed texts s
      → UnlessPanic (λ r. WellFormed texts r.0) (token_checked texts id token fault s)
  unfolding token_checked register_progress_token
  token_checked-WellFormed id token (some fault) s w = w
  token_checked-WellFormed id token none s w =
      token_entered-WellFormed id token s
        (is_some (lookup (progress_token_key texts token) s.active_progress_tokens)) w refl

  pub begin_call-WellFormed :
      (id : Value) (token : Option Value) (s : Registry)
      → WellFormed texts s
      → UnlessPanic (λ r. WellFormed texts r.0) (begin_call texts id token s)
  unfolding begin_call
  begin_call-WellFormed id none s w =
      start-WellFormed id none s s.active_progress_tokens w (λ t. refl)
        (λ t h. absurd (ground arith))
  begin_call-WellFormed id (some token) s w =
      token_checked-WellFormed id token (validate_progress_token texts token) s w

  -- A call leaves with its entries and its token.
  module _ (s : Registry) (w : WellFormed texts s) (n : ℕ) (call : Call)
      (q : lookup n s.calls ≡ some call) where
    left-WellFormed :
        (inflight : List (Key × ℕ)) (tokens : List (String × ProgressTokenState))
        → ((k : Key) (m : ℕ)
            → lookup k inflight ≡ some m
            → live_under k (lookup m (erase n s.calls)) ≡ true)
        → ((t : String)
            → is_some (lookup t tokens)
              ≡ (not (uses texts t (some call)) && is_some (lookup t s.active_progress_tokens)))
        → WellFormed texts (record s {
          inflight = inflight;
          active_progress_tokens = tokens;
          calls = erase n s.calls;
        })
    left-WellFormed inflight tokens entries released =
        let after = λ (m : ℕ). lookup-erase n m s.calls in
        record {
          fresh = λ m l. ground (arith, after m, w.fresh m l);
          entry = entries;
          used = λ t l.
              let u = w.used t (ground (arith, l, released t)) in
              (u.0, ground (arith, after u.0, u.1, q, l, released t));
          held = λ t m l. ground (arith, after m, released t, w.held t m, w.alone t m n, l, q);
          alone = λ t m m' l l'. ground (arith, after m, after m', w.alone t m m', l, l');
        }

  -- The entries are those of before, less the one of the key, if there is one.
  module _ (n : ℕ) (id : Value) (cause : Cause) (end : CallEnd) (s : Registry)
      (w : WellFormed texts s) where
    unregistered-WellFormed :
        (token : Option Value)
        (free : List (String × ProgressTokenState) → List (String × ProgressTokenState))
        → let call : Call = record { id = id; token = token; cause = cause } in
          lookup n s.calls ≡ some call
          → ((t : String)
              → is_some (lookup t (free s.active_progress_tokens))
                ≡ (not (uses texts t (some call)) && is_some (lookup t s.active_progress_tokens)))
          → UnlessPanic
              (λ r.
                WellFormed texts
                  (record r { active_progress_tokens = free r.active_progress_tokens }))
              (unregister_inflight id (record s { calls = erase n s.calls }))
    unfolding unregister_inflight
    unregistered-WellFormed token free q released =
        let call : Call = record { id = id; token = token; cause = cause } in
        let t : Registry = record s { calls = erase n s.calls } in
        with_key_has
          (UnlessPanic (λ r.
            WellFormed texts (record r { active_progress_tokens = free r.active_progress_tokens })))
          id (done t) panic (λ key. done (record t { inflight = erase key s.inflight }))
          (λ e.
            left-WellFormed s w n call q s.inflight (free s.active_progress_tokens)
              (λ k m l. ground (arith, lookup-erase n m s.calls, w.entry k m l, q, e)) released)
          tt
          (λ key e.
            left-WellFormed s w n call q (erase key s.inflight) (free s.active_progress_tokens)
              (λ k m l. ground (
                arith,
                lookup-erase n m s.calls,
                lookup-erase key k s.inflight,
                w.entry k m,
                q,
                e,
                l,
                beq_iff key k,
              ))
              released)

    finish_found-WellFormed :
        (token : Option Value)
        → lookup n s.calls ≡ some (record { id = id; token = token; cause = cause })
        → UnlessPanic
            (λ r. WellFormed texts r.0)
            (finish_found texts n end (some (record { id = id; token = token; cause = cause })) s)
    unfolding finish_found release_progress_token
    finish_found-WellFormed none q =
        map_done_has (λ r. WellFormed texts r.0) (λ s'. (s', answer texts id end cause))
          (unregister_inflight id (record s { calls = erase n s.calls }))
          (unregistered-WellFormed none (λ ts. ts) q (λ t. refl))
    finish_found-WellFormed (some token) q =
        let key = progress_token_key texts token in
        map_done_has (λ r. WellFormed texts r.0)
          (λ s'. (release_progress_token texts token s', answer texts id end cause))
          (unregister_inflight id (record s { calls = erase n s.calls }))
          (unregistered-WellFormed (some token) (erase key) q
            (λ t. ground (arith, lookup-erase key t s.active_progress_tokens)))

  pub finish_call-WellFormed :
      (n : ℕ) (end : CallEnd) (s : Registry)
      → WellFormed texts s
      → UnlessPanic (λ r. WellFormed texts r.0) (finish_call texts n end s)
  unfolding finish_call finish_found
  finish_call-WellFormed n end s w = found (lookup n s.calls) refl
    where
      found :
          (o : Option Call)
          → lookup n s.calls ≡ o
          → UnlessPanic (λ r. WellFormed texts r.0) (finish_found texts n end o s)
      found none q = w
      found (some call) q = finish_found-WellFormed n call.id call.cause end s w call.token q
