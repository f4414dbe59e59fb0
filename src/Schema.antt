-- ===== src/Schema.antt =====
-- The JSON schema validator, internal/jsonschema/validator.go: the pointers of its errors.
pub mod Pointer
mod Examples
