-- ===== src/Memory.antt =====
-- The buffers that hold secrets, and src/crypto/keys.rs: the types that erase their buffer when they
-- are dropped. A buffer stays in the memory as it was left; the last one stands first.
pub mod Cells
pub mod Envelope
pub mod Sealing
pub mod Opening
pub mod Handlers
pub mod Erasing
pub mod V1
pub mod Kek
pub mod Erasure
use secret_management.Prelude.{
  ℕ, zero, suc, ◌<◌, ◌≡◌, refl, Bool, true, false, eqb, if◌then◌else◌, List, [], ◌∷◌, length, Bytes,
  All, Result, ok, err, map_err, arith,
}
use secret_management.Envelope.{Rand}

-- A buffer, and whether its owner erases it: a type with `ZeroizeOnDrop`, or the code by `zeroize`.
pub record Cell : Type 0 where
  pub to_erase : Bool
  pub content : Bytes

abbrev pub Memory : Type 0
Memory = List Cell

-- Code that draws from `OsRng` and has buffers.
abbrev pub Mem : Type 0 → Type 0 → Type 0
Mem E A = ℕ → Memory → Result E A × ℕ × Memory

module _ {E : Type 0} where
  abbrev pub resume :
      {A B : Type 0} → Result E A × ℕ × Memory → (A → Mem E B) → Result E B × ℕ × Memory
  resume (ok a, i, m) f = f a i m
  resume (err e, i, m) f = (err e, i, m)

  infixl 5 ◌>>=◌ ◌>>◌
  abbrev pub ◌>>=◌ : {A B : Type 0} → Mem E A → (A → Mem E B) → Mem E B
  ◌>>=◌ c f i m = resume (c i m) f

  abbrev pub ◌>>◌ : {A B : Type 0} → Mem E A → Mem E B → Mem E B
  c >> k = c >>= λ _. k

  abbrev pub lift : {A : Type 0} → Result E A → Mem E A
  lift r i m = (r, i, m)

  abbrev pub kept : {A : Type 0} → Memory → Result E A × ℕ → Result E A × ℕ × Memory
  kept m (r, i) = (r, i, m)

  -- a new buffer; its address is the number of those before it
  abbrev pub alloc : Cell → Mem E ℕ
  alloc c i m = (ok (length m), i, c ∷ m)

  abbrev pub renamed : {F A : Type 0} → (E → F) → Result E A × ℕ × Memory → Result F A × ℕ × Memory
  renamed f (r, i, m) = (map_err f r, i, m)

unfoldable pub content_at : ℕ → Memory → Bytes
content_at p [] = []
content_at p (c ∷ m) = let rest = content_at p m in if eqb p (length m) then c.content else rest

unfoldable pub update : ℕ → (Cell → Cell) → Memory → Memory
update p f [] = []
update p f (c ∷ m) = let rest = update p f m in if eqb p (length m) then f c ∷ m else c ∷ rest

abbrev pub zeroed : Bytes → Bytes
zeroed [] = []
zeroed (b ∷ bs) = 0 ∷ zeroed bs

-- `zeroize`
abbrev pub wiped : Cell → Cell
wiped c = record c { content = zeroed c.content }

module _ {E : Type 0} where
  -- `as_bytes`, of each of the types
  abbrev pub as_bytes : ℕ → Mem E Bytes
  as_bytes p i m = (ok (content_at p m), i, m)

  abbrev pub changed : ℕ → (Cell → Cell) → Mem E (Unit {0})
  changed p f i m = (ok tt, i, update p f m)

  abbrev pub zeroize : ℕ → Mem E (Unit {0})
  zeroize p = changed p wiped

  abbrev pub write : ℕ → Bytes → Mem E (Unit {0})
  write p b = changed p (λ c. record c { content = b })

  -- `PlaintextData::new`: the buffer of the vector is moved
  abbrev pub new_plaintext : ℕ → Mem E ℕ
  new_plaintext p = changed p (λ c. record c { to_erase = true }) >> lift (ok p)

  -- `DataEncryptionKey::new`: an array is copied
  abbrev pub new_dek : ℕ → Mem E ℕ
  new_dek p = do key ← as_bytes p; alloc (record { to_erase = true; content = key })

  -- `KeyEncryptionKey::new`, likewise
  abbrev pub new_kek : ℕ → Mem E ℕ
  new_kek p = do key ← as_bytes p; alloc (record { to_erase = true; content = key })

  abbrev pub with_dropped : {A : Type 0} → ℕ → Result E A × ℕ × Memory → Result E A × ℕ × Memory
  with_dropped p (r, i, m) = (r, i, update p wiped m)

  -- A scope that owns a value: the value is dropped at its end, with a result or with an error.
  abbrev pub scope : {A : Type 0} → ℕ → Mem E A → Mem E A
  scope p body i m = with_dropped p (body i m)
