-- ===== src/Lib.antt =====
-- go-clockify: a local Model Context Protocol server for one Clockify workspace.
--
-- An MCP client (an assistant) sends JSON-RPC calls of tools; the server (internal/mcp) limits,
-- checks and confirms them, runs a handler (internal/tools), and a handler asks Clockify through
-- an HTTP client with retries and a circuit breaker (internal/clockify). This library models the
-- parts that decide: what may run, how often, with what arguments, and what an answer claims.
--
-- The parts, and the files that model them:
-- - Base: names shared by all files, Boolean tests, lists and integers over the native numbers, Go's
--   maps as association lists (Base/Assoc) and its float64 (Base/Float), whose fuel is the 2100 bits that
--   a rounding may drop, more than any value has. Json: the trees that encoding/json decodes into `any`.
-- - Breaker: the circuit breaker of internal/clockify/circuit_breaker.go. Before and After are
--   `before` and `after` on a record of the breaker; the mutex is the order of the calls in a list.
-- - Retry: doRequestValues of internal/clockify/client.go, its predicates on errors and what it tells
--   the breaker. `attempt_loop` has max_retries + 1 rounds, as the code has, so its fuel is its bound.
-- - Pagination: the page arguments, runListWithAutoPaginate, autoPaginated and addPaginationMeta of
--   internal/tools/helpers_pagination.go, and ListAllWithOptions of internal/clockify/client.go. The
--   fuel of the loops is the code's own stop after 1000 pages.
-- - Resolve: ValidateID, ValidateNameRef, resolveByNameOrID and UserID of internal/resolve/resolve.go,
--   Workspace of internal/paths/paths.go. It uses the lists of Pagination.
-- - Safety: the confirmation tokens, the policy and the canonical arguments of internal/safety.
-- - Risk and RateLimit: risk classes, token buckets and the limiter of concurrent writes, internal/mcp/risk.go
--   and internal/mcp/rate_limit.go. Running calls are a step relation, so any interleaving is covered.
-- - ToolCall: callTool of internal/mcp/tools.go, which puts Safety and RateLimit in front of a handler.
-- - Session: what internal/mcp/server.go keeps for its client: the negotiated version, the gate before
--   initialize, the running calls with their cancellation (`inflight`) and progress tokens, and the
--   throttle of progress reports; and internal/mcp/panic.go, which answers a tool that panics. The two parts of a tools/call, before and after the tool, are steps of
--   a relation, between which cancellations and other calls come in any order.
-- - Subscriptions: resources/subscribe and the delivery of updates, internal/mcp/resources.go and
--   internal/mcp/notifier_hub.go. Its specification is a set of pairs of a stream and a resource.
-- - Delta: the deltas of resource updates, internal/tools/resource_cache.go and internal/tools/resources.go,
--   over MergePatch. A model client applies them to its copy. The documents' bytes are any type with
--   encoding/json's operations as parameters.
-- - ToolsList: the advertised tools, their cache and pages, internal/mcp/tools.go. A client that follows
--   the cursors has fuel for its requests, and one more than there are tools is enough.
-- - SizeGuard: the cut of an answer to a byte budget, internal/mcp/response_size_guard.go. The binary
--   search has as much fuel as there are rows; a round leaves at least one candidate fewer.
-- - Schema: the JSON Pointers that the errors of internal/jsonschema/validator.go carry.
-- - MergePatch: RFC 7396 diff and apply, internal/jsonmergepatch/merge_patch.go.
-- - Money: rates, their precedence and earnings, internal/clockify/money.go and internal/tools/money.go.
--
-- Conventions. An int64 keeps its range as a hypothesis or its wrap-around in the definition
-- (Money); counts that the code never lets go below zero are natural numbers. Times are nanoseconds
-- of a monotonic clock, given as arguments. Where the code computes with float64, the model rounds
-- each operation as Go does on amd64 (Base/Float), and a progress value, which is only compared, is
-- its place in the order of these numbers, or NaN. A Go map is read by key only, so no theorem
-- depends on the order in which Go visits it; where the code takes the first of several equals in
-- that order, the model takes one of them. Code that is not in the repository is a parameter:
-- SHA-256, the random source, json.Marshal, strings.ToUpper, strings.TrimSpace, strings.EqualFold,
-- url.PathEscape, the schema validator's answer, one HTTP attempt and the handlers. What a theorem
-- asks of a parameter is a hypothesis, and an example meets it.
--
-- Not modelled: the frames and goroutines of the JSON-RPC loop, the handlers that read resources,
-- prompts, the serialized tools/list and audit output of internal/mcp; the handlers of single
-- tools; the keyword checks of internal/jsonschema; one HTTP attempt with its body limits;
-- configuration, start and logging; time parsing. They are I/O, texts, or parts that take no
-- decision on behalf of those above. Error messages are left out everywhere: an error is its kind.
pub mod Base
pub mod Breaker
pub mod Json
pub mod Delta
pub mod ToolsList
pub mod Session
pub mod Subscriptions
pub mod Safety
pub mod Schema
pub mod Risk
pub mod RateLimit
pub mod ToolCall
pub mod Retry
pub mod SizeGuard
pub mod MergePatch
pub mod Resolve
pub mod Money
pub mod Pagination
