-- ===== src/ToolCall/Types.antt =====
-- The server's state as far as tools/call reads and writes it, internal/mcp/tools.go and server.go.
use go_clockify.Base.{ℕ, String, Bool, Option, List, ℕ_eq, String_eq}
use go_clockify.Json.{Value, Fields}
use go_clockify.Risk.{RiskClass}
use go_clockify.Safety.Policy.{Requirement, Casing}
use go_clockify.Safety.Tokens.{Payload, TokenStore, TokenError}
use go_clockify.RateLimit.Tier.{RiskRateLimiter}

-- What the code takes from the Go standard library: `strings`, SHA-256 over `json.Marshal`, and the
-- RFC 3339 form of a time.
pub record Env : Type 0 where
  pub casing : Casing
  pub hash_value : Value → String
  pub hash_payload : Payload → String
  pub format_time : ℕ → String

-- How a handler fails, as `callTool` tells it from the error and the context.
pub data HandlerFailure : Type 0 where
  deadline_exceeded canceled other : HandlerFailure

pub data HandlerResult : Type 0 where
  returned : Value → HandlerResult
  failed : HandlerFailure → HandlerResult

-- A registered tool. `schema_ok` tells whether the validator accepts arguments for its input schema.
-- The handler is any function of the stripped arguments.
pub record ToolDescriptor : Type 0 where
  pub name : String
  pub risk_class : RiskClass
  pub safety_exemption : String
  pub safety_requirement_func : Option (Fields → Requirement)
  pub central_dry_run_preview : Bool
  pub schema_ok : Fields → Bool
  pub handler : Fields → HandlerResult

pub record Server : Type 0 where
  pub tools : List (String × ToolDescriptor)
  pub advertised_tools : Option (List (String × Bool))
  pub enforce_advertised_tools : Bool
  pub tool_rate_limiter : Option RiskRateLimiter
  pub confirmation_store : Option TokenStore
  pub confirmation_mode : String
  pub workspace_id_for_safety : String

-- What the surroundings answer during one call: the clock at the rate limiter, at `Validate` and at
-- `Issue`, the random token, and whether the family limiter gave a place before the timeout.
pub record World : Type 0 where
  pub now_limit : ℕ
  pub now_validate : ℕ
  pub now_issue : ℕ
  pub random : Option String
  pub acquired : Bool

pub data Outcome : Type 0 where
  unknown_tool : Outcome
  rate_limited : ℕ → Outcome
  invalid_params : Outcome
  confirmation_required : Requirement → Outcome
  confirmation_rejected : TokenError → Outcome
  acquire_failed : Outcome
  handler_failed : HandlerFailure → Outcome
  issue_failed : Outcome
  success : Value → Outcome

-- One line of the audit log: the arguments it names, its result and error code, and the status of
-- the confirmation, if any.
pub record AuditRecord : Type 0 where
  pub tool : String
  pub args : Fields
  pub result : String
  pub error_code : String
  pub confirmation : Option String

-- What one call leaves behind: the server, the answer, the arguments that the handler ran with, and
-- the audit record.
pub record Reply : Type 0 where
  pub server : Server
  pub outcome : Outcome
  pub runs : List Fields
  pub audit : Option AuditRecord
