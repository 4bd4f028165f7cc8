-- ===== src/Auth.antt =====
-- services/shared: request signatures, the identity behind a request, and what it may do.
pub mod Errors
pub mod Signing
pub mod Scopes
pub mod Identity
pub mod Capture
mod Tests
