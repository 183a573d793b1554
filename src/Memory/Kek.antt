-- ===== src/Memory/Kek.antt =====
-- src/crypto/kek_provider.rs with the buffers of the keys, and what they leave in memory.
use secret_management.Prelude.{
  ℕ, String, Bytes, refl, true, false, ◌∷◌, length, Option-cases, inl, inr, ok, ok_or, arith,
}
use secret_management.Crates.{Crates}
use secret_management.Kek.FromEnv.{pair_from_hex}
use secret_management.Memory.{
  Cell, Memory, Mem, ◌>>=◌, lift, alloc, as_bytes, new_kek, scope, wiped,
}
use secret_management.Memory.Cells.{
  content_at-new, content_at-old, update-new, zeroed-IsZero, Erased,
}
use secret_management.Memory.Erasing.{Erases}

module _ {C D : Type 0} (x : Crates C D) where
  unfoldable pub pair_from_hex_in : String → Mem String (Bytes × C)
  pair_from_hex_in hex = do
    decoded ← lift (ok_or "KEK must be 32-byte hex (64 chars)" (x.from_hex hex))
    bytes ← alloc (record { to_erase = false; content = decoded })
    kek ← new_kek bytes
    scope kek do
      key ← as_bytes kek
      let cipher = x.aes.new key
      raw ← as_bytes bytes
      lift (ok (raw, cipher))

  pub pair_from_hex_in-Erases :
      (hex : String) (i : ℕ) (m : Memory)
      → Erased m
      → Erases (pair_from_hex x hex, i) (pair_from_hex_in hex i m)
  unfolding pair_from_hex pair_from_hex_in
  pair_from_hex_in-Erases hex i m d = elim (Option-cases (x.from_hex hex)) [
    | inl e ↦ rw e (m, refl, d)
    | inr (b, e) ↦
        let array : Cell = record { to_erase = false; content = b } in
        let kek : Cell = record { to_erase = true; content = b } in
        rw
          (
            e,
            content_at-new array m,
            content_at-new kek (array ∷ m),
            content_at-old (length m) kek (array ∷ m) (omega arith),
            content_at-new array m,
            update-new wiped kek (array ∷ m),
          )
          (wiped kek ∷ array ∷ m, refl, ((λ _. zeroed-IsZero b), ((λ w. cc w), d)))
  ]
