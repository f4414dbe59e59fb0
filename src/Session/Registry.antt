-- ===== src/Session/Registry.antt =====
-- The two maps of running tool calls, `inflight` and `activeProgressTokens`, and the operations on them,
-- internal/mcp/server.go. A cancel function is the number of the call that it belongs to; what it does
-- is to give that call's context its cause, which the first of several gives for good.
use go_clockify.Base.{
  ℕ, String, ◌≡◌, refl, Bool, true, false, Option, none, some, List, [], ◌∷◌, if◌then◌else◌, ℕ_eq,
  String_eq,
}
use go_clockify.Base.Assoc.{lookup, insert, erase}
use go_clockify.Json.{null, bool, num, str, obj, arr, Value}
use go_clockify.Session.Ids.{
  text, boolean, Key, Key_eq, rpc_id_key, Texts, progress_token_key, is_null,
}
use go_clockify.Session.Progress.{ProgressTokenState, new_token_state, allow_progress, Progress}

-- A context's cause: none yet, `errExplicitCancellation`, or `context.Canceled`.
pub data Cause : Type 0 where
  live explicit reset : Cause

-- A running tool call: its request's identifier, its progress token, and its context.
pub record Call : Type 0 where
  pub id : Value
  pub token : Option Value
  pub cause : Cause

-- The part of the server that `inflightMu` guards, beside the contexts of the calls that run.
pub record Registry : Type 0 where
  pub inflight : List (Key × ℕ)
  pub active_progress_tokens : List (String × ProgressTokenState)
  pub calls : List (ℕ × Call)
  pub next_call : ℕ

abbrev pub new_registry : Registry
new_registry = record { inflight = []; active_progress_tokens = []; calls = []; next_call = 0 }

abbrev pub is_some {ℓ} : {A : Type ℓ} → Option A → Bool
is_some none = false
is_some (some a) = true

abbrev first_cause : Cause → Cause → Cause
first_cause live c = c
first_cause c d = c

abbrev pub cancelled : Cause → Call → Call
cancelled cause c = record c { cause = first_cause c.cause cause }

-- `cancel(cause)`
unfoldable pub cancel : Cause → ℕ → List (ℕ × Call) → List (ℕ × Call)
unfolding insert
cancel cause n calls = elim (lookup n calls) [
  | none ↦ calls
  | some c ↦ insert n (cancelled cause c) calls
]

-- What an operation comes to: Go panics where the key of a map has no hash.
pub data Panics (A : Type 0) : Type 0 where
  panic : Panics A
  done : A → Panics A

-- if id == nil { return }, then the key.
abbrev pub with_key {ℓ} : {A : Type ℓ} → Value → A → A → (Key → A) → A
with_key id if_null if_unhashable f =
    if is_null id then if_null else elim (rpc_id_key id) [ none ↦ if_unhashable | some key ↦ f key ]

abbrev pub map_done : {A B : Type 0} → (A → B) → Panics A → Panics B
map_done f panic = panic
map_done f (done a) = done (f a)

-- The property of what comes out of an operation that may panic.
abbrev pub UnlessPanic : {A : Type 0} → (A → Type 0) → Panics A → Type 0
UnlessPanic P panic = Unit
UnlessPanic P (done a) = P a

pub map_done_has :
    {A B : Type 0} (P : B → Type 0) (f : A → B) (x : Panics A)
    → UnlessPanic (λ a. P (f a)) x
    → UnlessPanic P (map_done f x)
map_done_has P f panic h = h
map_done_has P f (done a) h = h

-- A property of both early answers and of every answer with a key is one of the whole.
pub with_key_has {ℓ κ} :
    {A : Type ℓ} (P : A → Type κ) (id : Value) (x y : A) (f : Key → A)
    → (rpc_id_key id ≡ none → P x)
    → P y
    → ((key : Key) → rpc_id_key id ≡ some key → P (f key))
    → P (with_key id x y f)
unfolding rpc_id_key
with_key_has P null x y f p q g = p refl
with_key_has P (bool b) x y f p q g = g (boolean b) refl
with_key_has P (num n) x y f p q g = g (text n) refl
with_key_has P (str s) x y f p q g = g (text s) refl
with_key_has P (obj fs) x y f p q g = q
with_key_has P (arr xs) x y f p q g = q

unfoldable pub register_inflight : Value → ℕ → Registry → Panics Registry
register_inflight id n s =
    with_key id (done s) panic (λ key. done (record s { inflight = insert key n s.inflight }))

unfoldable pub unregister_inflight : Value → Registry → Panics Registry
unregister_inflight id s =
    with_key id (done s) panic (λ key. done (record s { inflight = erase key s.inflight }))

-- The entry goes under the lock, and its context is cancelled after it.
abbrev pub cancel_found : Key → Option ℕ → Registry → Registry × Bool
cancel_found key none s = (s, false)
cancel_found key (some n) s =
    (record s { inflight = erase key s.inflight; calls = cancel explicit n s.calls }, true)

unfoldable pub cancel_inflight : Value → Registry → Panics (Registry × Bool)
cancel_inflight id s =
    with_key id (done (s, false)) panic (λ key. done (cancel_found key (lookup key s.inflight) s))

abbrev pub cancel_each : List (Key × ℕ) → List (ℕ × Call) → List (ℕ × Call)
cancel_each [] calls = calls
cancel_each ((key, n) ∷ entries) calls = cancel_each entries (cancel reset n calls)

unfoldable pub cancel_all_inflight : Registry → Registry
cancel_all_inflight s = record s { inflight = []; calls = cancel_each s.inflight s.calls }

-- The states of the tokens are shared by reference.
abbrev pub progress_found :
    String
    → (now : ℕ) → (progress : Progress) → Option ProgressTokenState
    → Registry
    → Registry × Bool
progress_found key now progress none s = (s, false)
progress_found key now progress (some st) s =
    let answer = allow_progress now progress st in
    (record s { active_progress_tokens = insert key answer.0 s.active_progress_tokens }, answer.1)

module _ (texts : Texts) where
  -- The answer is the error of a token that is in use.
  unfoldable pub register_progress_token : Value → Registry → Registry × Bool
  register_progress_token token s =
      let key = progress_token_key texts token in
      if is_some (lookup key s.active_progress_tokens) then (s, false) else (
        record s { active_progress_tokens = insert key new_token_state s.active_progress_tokens },
        true,
      )

  unfoldable pub release_progress_token : Value → Registry → Registry
  release_progress_token token s = record s {
    active_progress_tokens = erase (progress_token_key texts token) s.active_progress_tokens;
  }

  -- `AllowProgress`
  unfoldable pub allow_token_progress :
      Value → (now : ℕ) → (progress : Progress) → Registry → Registry × Bool
  allow_token_progress token now progress s =
      let key = progress_token_key texts token in
      progress_found key now progress (lookup key s.active_progress_tokens) s
