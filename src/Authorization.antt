-- ===== src/Authorization.antt =====
-- core/authorization/reference-exact-authorization.mjs: the exact binding of an authorization, its
-- validation, and its commitment. Of an error only the code is kept, not the message.
pub mod Checks
pub mod Record
mod Validity
pub use Checks.{AuthorizationError, binding_mismatch, time_invalid, payload, Terms, Window, Binding}
unfoldable pub use Checks.{
  canonical_instant, canonical_utc_instant, validate_window, validate_binding_snapshot,
  key_id_pattern, profile_pattern,
}
pub use Record.{Prepared}
unfoldable pub use Record.{commit_validated_binding, prepare_record}
pub use Validity.*
