-- ===== src/Money.antt =====
-- Money and rates, internal/clockify/money.go and internal/tools/money.go.
pub mod Decimal
pub mod Rates
pub mod Precedence
pub mod Earnings
pub mod Nearest
mod Examples
