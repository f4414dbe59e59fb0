-- ===== src/Retry/Attempts.antt =====
-- How many attempts a request makes, and why it makes another.
use go_clockify.Base.{
  ℕ, zero, suc, ◌+◌, ◌-◌, ◌≤◌, ◌<◌, String, ◌≡◌, refl, ◌∙◌, ◌⊎◌, inl, inr, true, Option, none, some,
  arith, ◌==◌, beq_iff, ℕ_eq, String_eq, Bool-cases,
}
use go_clockify.Retry.Request.{RequestError, Surroundings, is_retryable_error, attempt_loop, Finish}

module _ (to_upper : String → String) (method : String) (env : Surroundings) where
  -- Attempt number i failed in a way that may be retried.
  abbrev pub RetriesAfter : ℕ → Type 0
  RetriesAfter i =
      (e : RequestError) × (env.once i ≡ some e) × (is_retryable_error to_upper method e ≡ true)

  -- How a round ends the loop: before its attempt, with the attempt, or not at all.
  attempt_loop-round :
      (left attempt : ℕ) (last : Option RequestError)
      → let f = attempt_loop to_upper method env (suc left) attempt last in
        ((0 < attempt) × (f.attempts ≡ attempt) × (f.recorded ≡ last))
        ⊎ ((f.attempts ≡ attempt + 1) × (f.recorded ≡ env.once attempt))
        ⊎ (RetriesAfter attempt
            × (f ≡ attempt_loop to_upper method env left (suc attempt) (env.once attempt)))
  unfolding attempt_loop
  attempt_loop-round left zero last = ground arith
  attempt_loop-round left (suc n) none = ground arith
  attempt_loop-round left (suc n) (some e) = ground arith

  -- What the loop has done when it ends: between one and all of its rounds; the error for the breaker
  -- is that of the last attempt, and every attempt but the last was one to retry after.
  abbrev Ends : ℕ → ℕ → Finish → Type 0
  Ends attempt rounds f =
      (0 < f.attempts)
      × (f.attempts ≤ attempt + rounds)
      × (f.recorded ≡ env.once (f.attempts - 1))
      × ((i : ℕ) → attempt ≤ i → i + 1 < f.attempts → RetriesAfter i)

  ended-Ends :
      (attempt rounds k : ℕ) (f : Finish)
      → f.attempts ≡ suc k
      → f.recorded ≡ env.once k
      → k ≤ attempt
      → suc k ≤ attempt + rounds
      → Ends attempt rounds f
  ended-Ends attempt rounds k f a r le bound =
      let this : f.attempts - 1 ≡ k = omega arith in
      (omega arith, omega arith, rw this r, λ i from below. absurd (omega arith))

  going_on-Ends :
      (attempt rounds : ℕ) (f : Finish)
      → RetriesAfter attempt
      → Ends (suc attempt) rounds f
      → Ends attempt (suc rounds) f
  going_on-Ends attempt rounds f why (some_made, bound, r, before_it) =
      (some_made, omega arith, r, reasons)
    where
      reasons : (i : ℕ) → attempt ≤ i → i + 1 < f.attempts → RetriesAfter i
      reasons i from below = elim (Bool-cases (attempt == i)) [
        | inl here ↦ rw (← ((beq_iff attempt i).0 here)) why
        | inr on ↦ before_it i (ground arith) below
      ]

  -- The rounds after an attempt that was one to retry after.
  attempt_loop-Ends :
      (left n : ℕ)
      → RetriesAfter n
      → Ends (suc n) left (attempt_loop to_upper method env left (suc n) (env.once n))
  unfolding attempt_loop
  attempt_loop-Ends zero n (e, q, r) =
      ended-Ends (suc n) 0 n (attempt_loop to_upper method env 0 (suc n) (env.once n)) refl
        (rw q refl) (omega arith) (omega arith)
  attempt_loop-Ends (suc left) n why =
      let f = attempt_loop to_upper method env (suc left) (suc n) (env.once n) in
      elim (attempt_loop-round left (suc n) (env.once n)) [
        | inl stop ↦ ended-Ends (suc n) (suc left) n f stop.1 stop.2 (omega arith) (omega arith)
        | inr (inl end) ↦
            ended-Ends (suc n) (suc left) (suc n) f (end.0 ∙ omega arith) end.1 (omega arith)
              (omega arith)
        | inr (inr on) ↦
            going_on-Ends (suc n) left f on.0 (rw on.1 (attempt_loop-Ends left (suc n) on.0))
      ]

  -- The whole loop, where at least one round is allowed.
  pub attempt_loop-all :
      (rounds : ℕ) → Ends 0 (suc rounds) (attempt_loop to_upper method env (suc rounds) 0 none)
  attempt_loop-all rounds =
      let f = attempt_loop to_upper method env (suc rounds) 0 none in
      elim (attempt_loop-round rounds 0 none) [
        | inl stop ↦ absurd (omega (arith, stop.0))
        | inr (inl end) ↦ ended-Ends 0 (suc rounds) 0 f end.0 end.1 (omega arith) (omega arith)
        | inr (inr on) ↦ going_on-Ends 0 rounds f on.0 (rw on.1 (attempt_loop-Ends rounds 0 on.0))
      ]
