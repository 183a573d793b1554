-- ===== src/App/Operations.antt =====
-- The attributes `utoipa::path` of the handlers of src/api: what the OpenAPI document says of each.
use secret_management.Prelude.{String, List, [], ◌∷◌}
use secret_management.Http.{StatusCode}
use secret_management.App.Routes.{
  Route, post_encrypt, post_decrypt, post_encrypt_v1, post_decrypt_v1, post_sign_v1, post_verify_v1,
  post_hash_v1,
}

-- `path`, `request_body`, and the status and the body of each entry of `responses`.
pub record Operation : Type 0 where
  pub path : String
  pub request_body : String
  pub responses : List (StatusCode × String)

-- of src/api/handlers.rs
abbrev pub encrypt_operation : Operation
encrypt_operation = record {
  path = "/encrypt";
  request_body = "EncryptRequest";
  responses =
      (200, "EncryptResponse")
      ∷ (400, "ErrorResponse")
      ∷ (401, "ErrorResponse")
      ∷ (403, "ErrorResponse")
      ∷ (413, "ErrorResponse")
      ∷ (429, "ErrorResponse")
      ∷ (500, "ErrorResponse")
      ∷ [];
}

abbrev pub decrypt_operation : Operation
decrypt_operation = record {
  path = "/decrypt";
  request_body = "DecryptRequest";
  responses =
      (200, "DecryptResponse")
      ∷ (400, "ErrorResponse")
      ∷ (401, "ErrorResponse")
      ∷ (403, "ErrorResponse")
      ∷ (413, "ErrorResponse")
      ∷ (429, "ErrorResponse")
      ∷ (500, "ErrorResponse")
      ∷ [];
}

-- of src/api/v1.rs
abbrev pub encrypt_v1_operation : Operation
encrypt_v1_operation = record {
  path = "/v1/crypto/encrypt";
  request_body = "EncryptDto";
  responses = (200, "EncryptV1Response") ∷ [];
}

abbrev pub decrypt_v1_operation : Operation
decrypt_v1_operation = record {
  path = "/v1/crypto/decrypt";
  request_body = "DecryptDto";
  responses = (200, "DecryptV1Response") ∷ [];
}

abbrev pub sign_v1_operation : Operation
sign_v1_operation = record {
  path = "/v1/crypto/sign";
  request_body = "SignDto";
  responses = (200, "SignResponse") ∷ [];
}

abbrev pub verify_v1_operation : Operation
verify_v1_operation = record {
  path = "/v1/crypto/verify";
  request_body = "VerifyDto";
  responses = (200, "VerifyResponse") ∷ [];
}

abbrev pub hash_v1_operation : Operation
hash_v1_operation = record {
  path = "/v1/crypto/hash";
  request_body = "HashDto";
  responses = (200, "HashResponse") ∷ [];
}

abbrev pub operation_of : Route → Operation
operation_of post_encrypt = encrypt_operation
operation_of post_decrypt = decrypt_operation
operation_of post_encrypt_v1 = encrypt_v1_operation
operation_of post_decrypt_v1 = decrypt_v1_operation
operation_of post_sign_v1 = sign_v1_operation
operation_of post_verify_v1 = verify_v1_operation
operation_of post_hash_v1 = hash_v1_operation
