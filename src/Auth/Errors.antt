-- ===== src/Auth/Errors.antt =====
-- The PermissionErrors of services/shared/auth.py, by their messages.
pub data AuthError : Type 0 where
  invalid_bearer : AuthError
  malformed_header : AuthError
  hmac_disabled : AuthError
  missing_signature : AuthError
  missing_timestamp : AuthError
  invalid_timestamp : AuthError
  stale_timestamp : AuthError
  invalid_signature : AuthError
  no_read_scopes : AuthError
  scopes_denied : AuthError
