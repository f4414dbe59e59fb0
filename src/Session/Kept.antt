-- ===== src/Session/Kept.antt =====
-- What every operation on the maps of running calls keeps, internal/mcp/server.go.
use go_clockify.Base.{
  ℕ, ◌+◌, ◌≤◌, String, ◌≡◌, refl, sym, ◌∙◌, inl, inr, Bool, true, false, ◌&&◌, ◌||◌, Option, none,
  some, List, [], ◌∷◌, arith, if◌then◌else◌, ◌==◌, beq_iff, ℕ_eq, String_eq, Bool-cases,
  Option-cases,
}
use go_clockify.Base.Assoc.{lookup, insert, erase, lookup-insert, lookup-erase}
use go_clockify.Json.{Value}
use go_clockify.Session.Ids.{Key, Key_eq, rpc_id_key, Texts, progress_token_key}
use go_clockify.Session.Progress.{ProgressTokenState, allow_progress, Progress}
use go_clockify.Session.Registry.{
  Cause, live, explicit, reset, Call, Registry, new_registry, panic, done, cancelled, cancel,
  cancel_inflight, UnlessPanic, with_key_has, progress_found, cancel_found, cancel_each,
  cancel_all_inflight, allow_token_progress, is_some,
}

abbrev is_live : Cause → Bool
is_live live = true
is_live c = false

-- The call is live and its request has the key.
abbrev pub live_under : Key → Option Call → Bool
live_under k none = false
live_under k (some c) = elim (rpc_id_key c.id) [
  | none ↦ false
  | some j ↦ (j == k) && is_live c.cause
]

module _ (texts : Texts) where
  -- The call's progress token has the key.
  abbrev pub uses : String → Option Call → Bool
  uses t none = false
  uses t (some c) = elim c.token [ none ↦ false | some token ↦ progress_token_key texts token == t ]

  -- Call numbers are fresh; an entry leads to a live call of its request; the registered tokens are
  -- those of the running calls, no two of which share one.
  pub record WellFormed (s : Registry) : Type 0 where
    pub fresh : (n : ℕ) → s.next_call ≤ n → lookup n s.calls ≡ none
    pub entry :
        (k : Key) (n : ℕ) → lookup k s.inflight ≡ some n → live_under k (lookup n s.calls) ≡ true
    pub used :
        (t : String)
        → is_some (lookup t s.active_progress_tokens) ≡ true
        → (n : ℕ) × (uses t (lookup n s.calls) ≡ true)
    pub held :
        (t : String) (n : ℕ)
        → uses t (lookup n s.calls) ≡ true
        → is_some (lookup t s.active_progress_tokens) ≡ true
    pub alone :
        (t : String) (n m : ℕ)
        → uses t (lookup n s.calls) ≡ true
        → uses t (lookup m s.calls) ≡ true
        → n ≡ m

  pub new_registry-WellFormed : WellFormed new_registry
  unfolding lookup
  new_registry-WellFormed = record {
    fresh = λ n h. refl;
    entry = λ k n h. absurd (ground arith);
    used = λ t h. absurd (ground arith);
    held = λ t n h. absurd (ground arith);
    alone = λ t n m h. absurd (ground arith);
  }

  pub lookup-cancel :
      (cause : Cause) (n m : ℕ) (calls : List (ℕ × Call))
      → lookup m (cancel cause n calls) ≡ (
          if n == m
          then elim (lookup m calls) [ none ↦ none | some c ↦ some (cancelled cause c) ]
          else lookup m calls)
  unfolding cancel
  lookup-cancel cause n m calls = elim (Option-cases (lookup n calls)) [
    | inl q ↦ ground (arith, q)
    | inr (c, q) ↦ ground (arith, q, lookup-insert n m (cancelled cause c) calls)
  ]

  pub live_under_unique :
      (k j : Key) (o : Option Call) → live_under k o ≡ true → live_under j o ≡ true → k ≡ j
  live_under_unique k j none p q = absurd (ground arith)
  live_under_unique k j (some c) p q = elim (Option-cases (rpc_id_key c.id)) [
    | inl e ↦ ground (arith, e, p)
    | inr (i, e) ↦ ground (arith, e, p, q, beq_iff i k, beq_iff i j)
  ]

  pub uses-cancel :
      (cause : Cause) (n m : ℕ) (calls : List (ℕ × Call)) (t : String)
      → uses t (lookup m (cancel cause n calls)) ≡ uses t (lookup m calls)
  uses-cancel cause n m calls t = ground (arith, lookup-cancel cause n m calls)

  -- Contexts are cancelled and entries taken away.
  module _ (s : Registry) (w : WellFormed s) where
    cancel_entry :
        (key : Key) (n : ℕ)
        → lookup key s.inflight ≡ some n
        → WellFormed
            (record s { inflight = erase key s.inflight; calls = cancel explicit n s.calls })
    cancel_entry key n h = record {
      fresh = λ m l. ground (arith, lookup-cancel explicit n m s.calls, w.fresh m l);
      entry = λ k m l. ground (
        arith,
        lookup-cancel explicit n m s.calls,
        lookup-erase key k s.inflight,
        w.entry k m,
        w.entry key n h,
        beq_iff key k,
        live_under_unique k key (lookup n s.calls),
      );
      used = λ t l. let u = w.used t l in (u.0, uses-cancel explicit n u.0 s.calls t ∙ u.1);
      held = λ t m l. w.held t m (sym (uses-cancel explicit n m s.calls t) ∙ l);
      alone = λ t m m' l l'.
          w.alone t m m' (sym (uses-cancel explicit n m s.calls t) ∙ l)
            (sym (uses-cancel explicit n m' s.calls t) ∙ l');
    }

    pub cancel_inflight-WellFormed :
        (id : Value) → UnlessPanic (λ r. WellFormed r.0) (cancel_inflight id s)
    unfolding cancel_inflight
    cancel_inflight-WellFormed id =
        with_key_has (UnlessPanic (λ r. WellFormed r.0)) id (done (s, false)) panic
          (λ key. done (cancel_found key (lookup key s.inflight) s)) (λ e. w) tt
          (λ key q. found key (lookup key s.inflight) refl)
      where
        found :
            (key : Key) (o : Option ℕ)
            → lookup key s.inflight ≡ o
            → WellFormed (cancel_found key o s).0
        found key none h = w
        found key (some n) h = cancel_entry key n h

  lookup-cancel_each :
      (entries : List (Key × ℕ)) (calls : List (ℕ × Call)) (m : ℕ) (t : String)
      → ((lookup m calls ≡ none) → (lookup m (cancel_each entries calls) ≡ none))
        × (uses t (lookup m (cancel_each entries calls)) ≡ uses t (lookup m calls))
  lookup-cancel_each [] calls m t = (λ h. h, refl)
  lookup-cancel_each ((k, n) ∷ entries) calls m t =
      let later = lookup-cancel_each entries (cancel reset n calls) m t in
      (
        λ h. later.0 (ground (arith, h, lookup-cancel reset n m calls)),
        later.1 ∙ uses-cancel reset n m calls t,
      )

  pub cancel_all_inflight-WellFormed :
      (s : Registry) → WellFormed s → WellFormed (cancel_all_inflight s)
  unfolding cancel_all_inflight lookup
  cancel_all_inflight-WellFormed s w =
      let same = λ (m : ℕ) (t : String). (lookup-cancel_each s.inflight s.calls m t).1 in
      record {
        fresh = λ m l. (lookup-cancel_each s.inflight s.calls m "").0 (w.fresh m l);
        entry = λ k m l. absurd (ground (arith, l));
        used = λ t l. let u = w.used t l in (u.0, same u.0 t ∙ u.1);
        held = λ t m l. w.held t m (sym (same m t) ∙ l);
        alone = λ t m m' l l'. w.alone t m m' (sym (same m t) ∙ l) (sym (same m' t) ∙ l');
      }

  -- A progress report changes the state of a token, not which tokens there are.
  pub allow_token_progress-WellFormed :
      (token : Value) (now : ℕ) (progress : Progress) (s : Registry)
      → WellFormed s
      → WellFormed (allow_token_progress texts token now progress s).0
  unfolding allow_token_progress
  allow_token_progress-WellFormed token now progress s w =
      found (lookup key s.active_progress_tokens) refl
    where
      key : String
      key = progress_token_key texts token

      found :
          (o : Option ProgressTokenState)
          → lookup key s.active_progress_tokens ≡ o
          → WellFormed (progress_found key now progress o s).0
      found none q = w
      found (some st) q =
          let same = λ (t : String).
            lookup-insert key t (allow_progress now progress st).0 s.active_progress_tokens in
          record {
            fresh = w.fresh;
            entry = w.entry;
            used = λ t l. w.used t (ground (arith, l, q, same t, beq_iff key t));
            held = λ t n l. ground (arith, w.held t n l, same t);
            alone = w.alone;
          }

  -- A new call enters, with an entry of its own or none, and with its token.
  module _ (s : Registry) (w : WellFormed s) (call : Call)
      (tokens : List (String × ProgressTokenState)) where
    abbrev pub entered : List (Key × ℕ) → Registry
    entered inflight = record {
      inflight = inflight;
      active_progress_tokens = tokens;
      calls = insert s.next_call call s.calls;
      next_call = s.next_call + 1;
    }

    pub entered-WellFormed :
        (inflight : List (Key × ℕ))
        → ((k : Key) (n : ℕ)
            → lookup k inflight ≡ some n
            → live_under k (lookup n (insert s.next_call call s.calls)) ≡ true)
        → ((t : String)
            → is_some (lookup t tokens)
              ≡ (uses t (some call) || is_some (lookup t s.active_progress_tokens)))
        → ((t : String)
            → uses t (some call) ≡ true
            → is_some (lookup t s.active_progress_tokens) ≡ false)
        → WellFormed (entered inflight)
    entered-WellFormed inflight entries registered unused =
        let n = s.next_call in
        let after = λ (m : ℕ). lookup-insert n m call s.calls in
        record {
          fresh = λ m l. ground (arith, after m, w.fresh m);
          entry = entries;
          used = λ t l. elim (Bool-cases (uses t (some call))) [
            | inl q ↦ (n, ground (arith, after n, q))
            | inr q ↦
                let u = w.used t (ground (arith, l, q, registered t)) in
                (u.0, ground (arith, after u.0, u.1, w.fresh n (omega arith)))
          ];
          held = λ t m l. ground (arith, after m, registered t, w.held t m, l);
          alone = λ t m m' l l'.
              ground (
                arith,
                after m,
                after m',
                w.held t m,
                w.held t m',
                w.alone t m m',
                unused t,
                l,
                l',
              );
        }
