-- ===== src/Tests/Schemas.antt =====
-- Runs of src/app.rs against the schemas that src/api declares.
use secret_management.Prelude.{String, refl, true, ◌==◌, ok, err, Fails, Fails-if, ◌≡◌}
use secret_management.Http.{bad_request}
use secret_management.Api.Models.{Failure}
use secret_management.App.Schemas.{is_in, rejections, IsRejecting}
use secret_management.Tests.App.{axum, parsed}

parsed-rejects :
    {A : Type 0} (a : A) (b : String)
    → Fails (λ (f : Failure). is_in f.0 rejections ≡ true) (parsed a b)
unfolding is_in
parsed-rejects a b =
    Fails-if (λ (f : Failure). is_in f.0 rejections ≡ true) (b == "") (err (bad_request, "EOF"))
      (ok a) refl tt

pub axum-IsRejecting : IsRejecting axum
unfolding is_in
axum-IsRejecting = record {
  json_encrypt = parsed-rejects _;
  json_decrypt = λ b. refl;
  json_encrypt_v1 = parsed-rejects _;
  json_decrypt_v1 = parsed-rejects _;
  json_sign_v1 = parsed-rejects _;
  json_verify_v1 = parsed-rejects _;
  json_hash_v1 = λ b. refl;
  method_status = refl;
  method_body = refl;
}
