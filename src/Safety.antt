-- ===== src/Safety.antt =====
-- The safety rails of destructive calls, internal/safety: confirmation tokens, the policy by risk
-- class, and the canonical form of arguments that tokens are bound to.
pub mod Policy
pub mod Canonical
pub mod Tokens
mod Examples
