-- ===== src/Errors.antt =====
-- src/domain/errors.rs: the error type that every layer below the HTTP handlers returns.
use Prim.Native.String.{◌++◌ as ◌<>◌}
use secret_management.Prelude.{String}

pub data CryptoError : Type 0 where
  encryption_failed decryption_failed invalid_base64 unknown_key_id : CryptoError
  policy_violation : String → CryptoError
  invalid_tenant rate_limited unauthorized signing_failed verification_failed : CryptoError
  key_exchange_failed invalid_key invalid_signature : CryptoError

-- `to_string`, which `thiserror` derives from the `error` attributes
unfoldable pub to_string : CryptoError → String
to_string encryption_failed = "Failed to encrypt data"
to_string decryption_failed = "Failed to decrypt data"
to_string invalid_base64 = "Invalid Base64 encoding"
to_string unknown_key_id = "Unknown key id"
to_string (policy_violation s) = "Policy violation: " <> s
to_string invalid_tenant = "Invalid tenant"
to_string rate_limited = "Rate limited"
to_string unauthorized = "Unauthorized"
to_string signing_failed = "Signing failed"
to_string verification_failed = "Verification failed"
to_string key_exchange_failed = "Key exchange failed"
to_string invalid_key = "Invalid key"
to_string invalid_signature = "Invalid signature"
