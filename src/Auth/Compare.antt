-- ===== src/Auth/Compare.antt =====
-- The comparison in constant time of src/middleware/auth.rs decides equality, and the scan over the
-- keys is a lookup.
use Prim.Native.Nat.{bit_or, bit_xor}
use secret_management.Prelude.{
  ℕ, String, ◌≡◌, refl, sym, ◌∙◌, ◌↔◌, true, [], ◌∷◌, Bytes, length, arith, eq_iff,
}
use secret_management.Std.Utf8.{as_bytes, as_bytes_inj, length-as_bytes}
use secret_management.Std.Bits.{bit_or-eq-zero_iff, bit_xor-eq-zero_iff}
use secret_management.Std.Map.{HashMap, get}
use secret_management.Auth.{Role, diff_bytes, ct_eq, find_role, role_for, ApiKeyStore}

diff_bytes-eq-zero :
    (d : ℕ) (xs ys : Bytes) → length xs ≡ length ys → diff_bytes d xs ys ≡ 0 → (d ≡ 0) × (xs ≡ ys)
unfolding diff_bytes
diff_bytes-eq-zero d [] [] h e = (e, refl)
diff_bytes-eq-zero d [] (y ∷ ys) h e = absurd (omega arith)
diff_bytes-eq-zero d (x ∷ xs) [] h e = absurd (omega arith)
diff_bytes-eq-zero d (x ∷ xs) (y ∷ ys) h e =
    let (p, q) = diff_bytes-eq-zero (bit_or d (bit_xor x y)) xs ys (omega arith) e in
    let (z, w) = (bit_or-eq-zero_iff d (bit_xor x y)).0 p in
    (z, cc ((bit_xor-eq-zero_iff x y).0 w, q))

diff_bytes_self : (xs : Bytes) → diff_bytes 0 xs xs ≡ 0
unfolding diff_bytes
diff_bytes_self [] = refl
diff_bytes_self (x ∷ xs) =
    rw ((bit_or-eq-zero_iff 0 (bit_xor x x)).1 (refl, (bit_xor-eq-zero_iff x x).1 refl))
      (diff_bytes_self xs)

-- The comparison without early exit accepts exactly equal texts.
pub ct_eq_iff : (a b : String) → (ct_eq a b ≡ true) ↔ (a ≡ b)
unfolding ct_eq
ct_eq_iff a b = (
  λ e.
      as_bytes_inj a b
        (diff_bytes-eq-zero 0 (as_bytes a) (as_bytes b)
          (length-as_bytes a ∙ ground arith ∙ sym (length-as_bytes b)) (ground arith)).1,
  λ e. rw e (rw (diff_bytes_self (as_bytes b)) (ground arith)),
)

find_role-eq-get :
    (provided : String) (keys : HashMap Role) → find_role provided keys ≡ get provided keys
unfolding find_role get
find_role-eq-get provided [] = refl
find_role-eq-get provided ((k, role) ∷ keys) =
    ground (arith, ct_eq_iff provided k, eq_iff k provided, find_role-eq-get provided keys)

-- Scanning the keys with the comparison in constant time finds what a lookup by the key finds.
pub role_for-eq-get :
    (st : ApiKeyStore) (provided : String) → role_for st provided ≡ get provided st.keys
unfolding role_for
role_for-eq-get st provided = find_role-eq-get provided st.keys
