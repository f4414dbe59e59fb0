-- ===== src/Safety/Tokens/Laws.antt =====
-- What the token store promises, internal/safety/token.go.
use go_clockify.Base.{
  ℕ, suc, ◌+◌, ◌≤◌, ◌<◌, String, ◌≡◌, refl, ap, ◌∙◌, ◌⊎◌, inl, inr, none, some, List, [], ◌∷◌,
  arith, leb, if◌then◌else◌, ◌==◌, beq_iff, ℕ_eq, String_eq, Bool-cases, Option-cases, ℤ,
}
use mathlib.Core.List.{Memᴰ}
use go_clockify.Base.Assoc.{lookup, lookup-insert, lookup-erase, beq_self}
use go_clockify.Safety.Tokens.{
  Payload, Payload_eq, IssuedToken, TokenStore, not_issued, expired, mismatch, new_token_store,
  issue, validate, TokenCall, issue_call, validate_call, token_step, token_run,
}

module _ (hash : Payload → String) where
  -- Validations of the token that succeed, in a run from a store.
  unfoldable pub accepted : String → TokenStore → List TokenCall → ℕ
  accepted t s [] = 0
  accepted t s (issue_call p random now ∷ cs) = accepted t (issue hash s p random now).0 cs
  accepted t s (validate_call u p now ∷ cs) =
      let rest = accepted t (validate s u p now).0 cs in
      elim (validate s u p now).1 [ none ↦ if u == t then suc rest else rest | some e ↦ rest ]

  -- Calls that issued this very token.
  unfoldable pub issued : String → List TokenCall → ℕ
  issued t [] = 0
  issued t (issue_call p none now ∷ cs) = issued t cs
  issued t (issue_call p (some u) now ∷ cs) =
      let rest = issued t cs in if u == t then suc rest else rest
  issued t (validate_call u p now ∷ cs) = issued t cs

  -- 1 if the store holds the token.
  abbrev held : String → TokenStore → ℕ
  held t s = elim (lookup t s.tokens) [ none ↦ 0 | some _ ↦ 1 ]

  held-issue :
      (t : String) (s : TokenStore) (p : Payload) (u : String) (now : ℕ)
      → held t (issue hash s p (some u) now).0 ≡ (if u == t then 1 else held t s)
  unfolding issue
  held-issue t s p u now =
      ground (arith, lookup-insert u t (record { payload = p; expires_at = now + s.ttl }) s.tokens)

  -- A validation that succeeds takes its token out of the store; none puts one in.
  held-validate :
      (t u : String) (s : TokenStore) (p : Payload) (now : ℕ)
      → held t (validate s u p now).0
          + elim (validate s u p now).1 [ none ↦ if u == t then 1 else 0 | some e ↦ 0 ]
        ≤ held t s
  unfolding validate
  held-validate t u s p now = ground (arith, lookup-erase u t s.tokens, beq_iff u t)

  accepted_from :
      (t : String) (s : TokenStore) (calls : List TokenCall)
      → accepted t s calls ≤ held t s + issued t calls
  unfolding accepted issued issue
  accepted_from t s [] = omega arith
  accepted_from t s (issue_call p none now ∷ cs) = accepted_from t s cs
  accepted_from t s (issue_call p (some u) now ∷ cs) =
      ground (arith, held-issue t s p u now, accepted_from t (issue hash s p (some u) now).0 cs)
  accepted_from t s (validate_call u p now ∷ cs) =
      ground (arith, held-validate t u s p now, accepted_from t (validate s u p now).0 cs)

  -- Tokens are single-use: in any sequence of calls on a new store, a token is accepted at most as
  -- often as it was issued.
  pub accepted-le-issued :
      (ttl : ℤ) (t : String) (calls : List TokenCall)
      → accepted t (new_token_store ttl) calls ≤ issued t calls
  unfolding new_token_store lookup
  accepted-le-issued ttl t calls = omega (arith, accepted_from t (new_token_store ttl) calls)

  -- What puts a token into the store: the call that issued it.
  abbrev IssuedBy : List TokenCall → TokenStore → String → IssuedToken → Type 0
  IssuedBy calls s t i =
      (at : ℕ) × Memᴰ (issue_call i.payload (some t) at) calls × (i.expires_at ≡ at + s.ttl)

  ttl-step : (s : TokenStore) (c : TokenCall) → (token_step hash s c).ttl ≡ s.ttl
  unfolding issue validate
  ttl-step s (issue_call p none now) = refl
  ttl-step s (issue_call p (some u) now) = refl
  ttl-step s (validate_call u p now) = ground arith

  lookup-step :
      (s : TokenStore) (c : TokenCall) (cs : List TokenCall) (t : String) (i : IssuedToken)
      → lookup t (token_step hash s c).tokens ≡ some i
      → (lookup t s.tokens ≡ some i) ⊎ IssuedBy (c ∷ cs) s t i
  unfolding issue validate
  lookup-step s (issue_call p none now) cs t i h = inl h
  lookup-step s (issue_call p (some u) now) cs t i h =
      let entry : IssuedToken = record { payload = p; expires_at = now + s.ttl } in
      elim (Bool-cases (u == t)) [
        | inl mine ↦
            let is : entry ≡ i = ground (arith, lookup-insert u t entry s.tokens) in
            inr (now, Memᴰ.head (ground (arith, (beq_iff u t).0 mine)), ground arith)
        | inr other ↦ inl (ground (arith, lookup-insert u t entry s.tokens))
      ]
  lookup-step s (validate_call u p now) cs t i h = inl (ground (arith, lookup-erase u t s.tokens))

  lookup-run :
      (s : TokenStore) (calls : List TokenCall) (t : String) (i : IssuedToken)
      → lookup t (token_run hash s calls).tokens ≡ some i
      → (lookup t s.tokens ≡ some i) ⊎ IssuedBy calls s t i
  unfolding token_run
  lookup-run s [] t i h = inl h
  lookup-run s (c ∷ cs) t i h = elim (lookup-run (token_step hash s c) cs t i h) [
    | inl early ↦ lookup-step s c cs t i early
    | inr (at, m, e) ↦ inr (at, Memᴰ.tail m, e ∙ ap (λ d. at + d) (ttl-step s c))
  ]

  ttl-run : (s : TokenStore) (calls : List TokenCall) → (token_run hash s calls).ttl ≡ s.ttl
  unfolding token_run
  ttl-run s [] = refl
  ttl-run s (c ∷ cs) = ttl-run (token_step hash s c) cs ∙ ttl-step s c

  validate-eq-none :
      (s : TokenStore) (t : String) (p : Payload) (now : ℕ)
      → (validate s t p now).1 ≡ none
      → (i : IssuedToken) × (lookup t s.tokens ≡ some i) × (i.payload ≡ p) × (now < i.expires_at)
  unfolding validate
  validate-eq-none s t p now h = elim (Option-cases (lookup t s.tokens)) [
    | inl missing ↦ ground arith
    | inr (i, found) ↦
        (i, found, ground (arith, beq_iff i.payload p), ground (arith, beq_iff i.payload p))
  ]

  -- A token is accepted only if an earlier call issued it for an equal payload, less than the store's
  -- lifetime before.
  pub validate-issued :
      (ttl : ℤ) (calls : List TokenCall) (t : String) (p : Payload) (now : ℕ)
      → (validate (token_run hash (new_token_store ttl) calls) t p now).1 ≡ none
      → (at : ℕ) × Memᴰ (issue_call p (some t) at) calls × (now < at + (new_token_store ttl).ttl)
  unfolding new_token_store lookup
  validate-issued ttl calls t p now h =
      let s = new_token_store ttl in
      let (i, found, same, live) = validate-eq-none (token_run hash s calls) t p now h in
      elim (lookup-run s calls t i found) [
        | inl early ↦ ground arith
        | inr (at, m, e) ↦ (at, (rw same at m), ground arith)
      ]

-- Whatever the answer, a token that was presented is gone: the same text is refused from then on
-- until it is issued again.
pub validate_consumes :
    (s : TokenStore) (t : String) (p q : Payload) (now later : ℕ)
    → (validate (validate s t p now).0 t q later).1 ≡ some not_issued
unfolding validate
validate_consumes s t p q now later = ground (arith, lookup-erase t t s.tokens, beq_self t)

-- A token that has just been issued is answered by the first check that fails, in this order: not
-- expired, then the same payload.
pub validate-issue :
    (hash : Payload → String) (s : TokenStore) (p q : Payload) (t : String) (now later : ℕ)
    → (validate (issue hash s p (some t) now).0 t q later).1
      ≡ (if leb (now + s.ttl) later then some expired else if p == q then none else some mismatch)
unfolding validate issue
validate-issue hash s p q t now later = ground (
  arith,
  lookup-insert t t (record { payload = p; expires_at = now + s.ttl }) s.tokens,
  beq_self t,
)
