-- ===== src/Session/Ids.antt =====
-- Request identifiers and progress tokens of internal/mcp/server.go. The request decoder keeps numbers
-- as `json.Number`, so a decoded value is one of the JSON trees, with a number as its text.
use go_clockify.Base.{
  String, ◌≡◌, ap, ◌↔◌, Bool, true, false, not, ◌&&◌, ◌||◌, Option, none, some, arith,
  if◌then◌else◌, Testable, ◌==◌, beq_iff, ℕ_eq, String_eq,
}
use go_clockify.Json.{Value, null, bool, num, str}
use Prim.Native.String.{◌++◌ as append}
use go_clockify.Base.Prefix.{tag_inj, tags_differ}

-- The keys of `inflight`, as Go compares values of type any: texts and Booleans.
pub data Key : Type 0 where
  text : String → Key
  boolean : Bool → Key

abbrev same_bool : Bool → Bool → Bool
same_bool true b = b
same_bool false b = not b

abbrev same_key : Key → Key → Bool
same_key (text a) (text b) = a == b
same_key (boolean a) (boolean b) = same_bool a b
same_key _ _ = false

pub same_key_iff : (a b : Key) → (same_key a b ≡ true) ↔ (a ≡ b)
same_key_iff (text a) (text b) = ground (arith, beq_iff a b)
same_key_iff (text a) (boolean b) = ground arith
same_key_iff (boolean a) (text b) = ground arith
same_key_iff (boolean a) (boolean b) = ground arith

instance abbrev pub Key_eq : Testable Key
Key_eq = record { test = same_key; test_iff = same_key_iff }

-- `rpcIDKey`, where the result can be the key of a map: Go panics on the hash of a map or a slice.
unfoldable pub rpc_id_key : Value → Option Key
rpc_id_key (num n) = some (text n)
rpc_id_key (str s) = some (text s)
rpc_id_key (bool b) = some (boolean b)
rpc_id_key v = none

-- What the code takes from the Go standard library: `strings.TrimSpace`, whether `json.Number.Int64`
-- gives a number, and the `%v` of a value.
pub record Texts : Type 0 where
  pub trim_space : String → String
  pub is_int64 : String → Bool
  pub format_v : Value → String

pub data TokenFault : Type 0 where
  empty_string not_integer wrong_type : TokenFault

module _ (texts : Texts) where
  unfoldable pub validate_progress_token : Value → Option TokenFault
  validate_progress_token (str v) = if texts.trim_space v == "" then some empty_string else none
  validate_progress_token (num n) = if texts.is_int64 n then none else some not_integer
  validate_progress_token v = some wrong_type

  unfoldable pub progress_token_key : Value → String
  progress_token_key (str v) = append "s:" v
  progress_token_key (num n) = append "n:" n
  progress_token_key v = append "v:" (texts.format_v v)

  -- Two tokens that pass the validation have the same key only if they are the same token.
  pub progress_token_key_inj :
      (a b : Value)
      → validate_progress_token a ≡ none
      → validate_progress_token b ≡ none
      → progress_token_key a ≡ progress_token_key b
      → a ≡ b
  unfolding validate_progress_token progress_token_key
  progress_token_key_inj (str a) (str b) p q e = ap str (tag_inj "s" a b e)
  progress_token_key_inj (str a) (num b) p q e = absurd (tags_differ "s" "n" a b (omega arith) e)
  progress_token_key_inj (num a) (str b) p q e = absurd (tags_differ "n" "s" a b (omega arith) e)
  progress_token_key_inj (num a) (num b) p q e = ap num (tag_inj "n" a b e)
  progress_token_key_inj a b p q e = absurd (ground arith)

-- Go's JSON-RPC request, once decoded.
pub record Request : Type 0 where
  pub jsonrpc : String
  pub id : Value
  pub method : String

pub data RequestFault : Type 0 where
  bad_version empty_method initialize_without_id bad_id : RequestFault

abbrev pub is_null : Value → Bool
is_null null = true
is_null v = false

abbrev is_id : Value → Bool
is_id null = true
is_id (str s) = true
is_id (num n) = true
is_id v = false

unfoldable pub validate_request : Texts → Request → Option RequestFault
validate_request texts req =
    if not (req.jsonrpc == "2.0")
    then some bad_version
    else if texts.trim_space req.method == ""
    then some empty_method
    else if (req.method == "initialize") && is_null req.id
    then some initialize_without_id
    else if is_id req.id
    then none
    else some bad_id

unfoldable pub requires_initialized : String → Bool
requires_initialized method = not (
    (method == "initialize")
    || (method == "notifications/initialized")
    || (method == "notifications/cancelled")
    || (method == "ping"))

unfoldable pub dispatch_async_request : String → Bool
dispatch_async_request method =
    (method == "resources/list")
    || (method == "resources/read")
    || (method == "resources/templates/list")
    || (method == "prompts/get")
    || (method == "prompts/list")
