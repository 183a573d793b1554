-- ===== src/Kek.antt =====
-- src/crypto/kek_provider.rs: the key encryption keys, a current one and those of former times.
pub mod FromEnv
pub mod Lookup
pub mod Invariant
pub mod Rotation
use secret_management.Prelude.{
  String, Bool, ◌&&◌, ◌||◌, not, ◌==◌, Option, none, some, [], ◌∷◌, Bytes, if◌then◌else◌, Result,
  ok, err, or_else,
}
use secret_management.Std.Map.{HashMap, get}
use secret_management.Crates.{Crates}

-- The ciphers of type `C` are those that `Aes256Gcm::new` makes of the raw keys.
pub record KekStore (C : Type 0) : Type 0 where
  pub current_id : String
  pub current : C
  pub current_raw : Bytes
  pub previous : HashMap C
  pub previous_raw : HashMap Bytes

module _ {C : Type 0} where
  -- `KekStore::get`
  unfoldable pub get_cipher : KekStore C → String → Option C
  get_cipher st id = if id == st.current_id then some st.current else get id st.previous

  unfoldable pub resolve : KekStore C → String → Option C
  unfolding get_cipher
  resolve st id =
      or_else (get_cipher st id)
        (if id == "primary" && not (st.current_id == "primary") then some st.current else none)

  -- what `if let Some(c)` finds, or the rest of the ladder
  unfoldable pub resolve_arc : KekStore C → String → Option C
  resolve_arc st id = if id == st.current_id then some st.current else elim (get id st.previous) [
    | some c ↦ some c
    | none ↦ if id == "primary" && not (st.current_id == "primary") then some st.current else none
  ]

  unfoldable pub get_raw : KekStore C → String → Option Bytes
  get_raw st id = if id == st.current_id then some st.current_raw else get id st.previous_raw

  unfoldable pub resolve_raw : KekStore C → String → Option Bytes
  unfolding get_raw
  resolve_raw st id =
      or_else (get_raw st id)
        (if id == "primary" && not (st.current_id == "primary") then some st.current_raw else none)
