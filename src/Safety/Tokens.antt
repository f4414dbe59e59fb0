-- ===== src/Safety/Tokens.antt =====
-- The store of single-use confirmation tokens, internal/safety/token.go. The clock's reading and
-- the random token (`none` where the random source fails) are arguments; so is the hash of a
-- payload, since SHA-256 is a library's. A nil store is `none` where the server holds it.
pub mod Laws
use go_clockify.Base.{
  ℕ, zero, suc, ◌+◌, ◌-◌, ◌*◌, ◌/◌, ◌%◌, ◌^◌, ◌≤◌, ◌<◌, String, ◌≡◌, refl, sym, ap, ◌∙◌, ◌≢◌, ◌↔◌,
  ◌⊎◌, inl, inr, Bool, true, false, not, ◌&&◌, ◌||◌, Option, none, some, List, [], ◌∷◌, ◌++◌, map,
  arith, ltb, leb, if◌then◌else◌, Testable, ◌==◌, beq_iff, nat_eq, nat_eq_iff, ℕ_eq, String_eq,
  Bool-cases, Option-cases, length, take, any, all, length-append, length-take, take_all, All, ℤ,
  pos, negsuc, pos_part, neg_part, sub_ℕ, positive_or,
}
use go_clockify.Base.Assoc.{lookup, insert, erase}

pub record Payload : Type 0 where
  pub tool_name : String
  pub workspace_id : String
  pub risk_class : String
  pub args_hash : String
  pub preview_hash : String

abbrev pub payload_eq : Payload → Payload → Bool
payload_eq p q =
    (p.tool_name == q.tool_name)
    && (p.workspace_id == q.workspace_id)
    && (p.risk_class == q.risk_class)
    && (p.args_hash == q.args_hash)
    && (p.preview_hash == q.preview_hash)

pub payload_eq_iff : (p q : Payload) → (payload_eq p q ≡ true) ↔ (p ≡ q)
payload_eq_iff p q = ground (
  arith,
  beq_iff p.tool_name q.tool_name,
  beq_iff p.workspace_id q.workspace_id,
  beq_iff p.risk_class q.risk_class,
  beq_iff p.args_hash q.args_hash,
  beq_iff p.preview_hash q.preview_hash,
)

instance abbrev pub Payload_eq : Testable Payload
Payload_eq = record { test = payload_eq; test_iff = payload_eq_iff }

pub record IssuedToken : Type 0 where
  pub payload : Payload
  pub expires_at : ℕ

pub record TokenStore : Type 0 where
  pub ttl : ℕ
  pub tokens : List (String × IssuedToken)

pub data TokenError : Type 0 where
  random_failed not_issued expired mismatch : TokenError

-- Five minutes, in nanoseconds.
abbrev pub default_token_ttl : ℕ
default_token_ttl = 300_000_000_000

unfoldable pub new_token_store : ℤ → TokenStore
new_token_store ttl = record { ttl = positive_or default_token_ttl ttl; tokens = [] }

pub record Issue : Type 0 where
  pub token : String
  pub preview_hash : String
  pub expires_at : ℕ

-- The new store, and what was issued unless the random source failed.
unfoldable pub issue :
    (hash : Payload → String) → TokenStore → Payload → Option String → ℕ → TokenStore × Option Issue
issue hash s payload none now = (s, none)
issue hash s payload (some token) now = (
  record s {
    tokens = insert token (record { payload = payload; expires_at = now + s.ttl }) s.tokens;
  },
  some (record { token = token; preview_hash = hash payload; expires_at = now + s.ttl }),
)

-- The checks on a token that was found and has been deleted.
check_issued : IssuedToken → Payload → ℕ → Option TokenError
check_issued issued payload now =
    if not (ltb now issued.expires_at)
    then some expired
    else if not (issued.payload == payload)
    then some mismatch
    else none

-- `none` is success.
unfoldable pub validate : TokenStore → String → Payload → ℕ → TokenStore × Option TokenError
unfolding check_issued
validate s token payload now = elim (lookup token s.tokens) [
  | none ↦ (s, some not_issued)
  | some issued ↦ (record s { tokens = erase token s.tokens }, check_issued issued payload now)
]

-- One call of the store's methods, in the order of its lock.
pub data TokenCall : Type 0 where
  issue_call : Payload → Option String → ℕ → TokenCall
  validate_call : String → Payload → ℕ → TokenCall

abbrev pub token_step : (hash : Payload → String) → TokenStore → TokenCall → TokenStore
token_step hash s (issue_call p random now) = (issue hash s p random now).0
token_step hash s (validate_call t p now) = (validate s t p now).0

unfoldable pub token_run : (hash : Payload → String) → TokenStore → List TokenCall → TokenStore
token_run hash s [] = s
token_run hash s (c ∷ cs) = token_run hash (token_step hash s c) cs
