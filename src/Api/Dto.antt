-- ===== src/Api/Dto.antt =====
-- src/api/dto.rs: the requests and answers of /v1/crypto. The field `data` is `content` here.
use secret_management.Prelude.{String, Bool}

pub record EncryptDto : Type 0 where
  pub policy : String
  pub purpose : String
  pub tenant_id : String
  pub classification : String
  pub content : String

pub record DecryptDto : Type 0 where
  pub policy : String
  pub purpose : String
  pub tenant_id : String
  pub classification : String
  pub content : String

pub record SignDto : Type 0 where
  pub policy : String
  pub purpose : String
  pub tenant_id : String
  pub classification : String
  pub content : String

pub record VerifyDto : Type 0 where
  pub policy : String
  pub purpose : String
  pub tenant_id : String
  pub classification : String
  pub content : String
  pub signature : String

pub record HashDto : Type 0 where
  pub policy : String
  pub purpose : String
  pub tenant_id : String
  pub classification : String
  pub content : String
  pub algo : String

pub record EncryptV1Response : Type 0 where
  pub ciphertext_b64 : String
  pub nonce_b64 : String
  pub encrypted_dek_b64 : String
  pub dek_nonce_b64 : String
  pub key_id : String
  pub algorithm : String
  pub tenant_id : String
  pub purpose : String

pub record DecryptV1Response : Type 0 where
  pub payload_b64 : String

pub record SignResponse : Type 0 where
  pub signature_b64 : String
  pub key_id : String
  pub algorithm : String

pub record VerifyResponse : Type 0 where
  pub valid : Bool

pub record HashResponse : Type 0 where
  pub hash_b64 : String
  pub algo : String
