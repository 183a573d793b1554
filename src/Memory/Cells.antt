-- ===== src/Memory/Cells.antt =====
-- Reading and changing a buffer among others.
use secret_management.Prelude.{ℕ, ◌<◌, ◌≡◌, refl, true, [], ◌∷◌, length, Bytes, All, arith}
use secret_management.Memory.{Cell, Memory, content_at, update, zeroed}

pub content_at-new : (c : Cell) (m : Memory) → content_at (length m) (c ∷ m) ≡ c.content
unfolding content_at
content_at-new c m = ground arith

pub content_at-old :
    (p : ℕ) (c : Cell) (m : Memory) → p < length m → content_at p (c ∷ m) ≡ content_at p m
unfolding content_at
content_at-old p c m h = ground arith

pub update-new : (f : Cell → Cell) (c : Cell) (m : Memory) → update (length m) f (c ∷ m) ≡ f c ∷ m
unfolding update
update-new f c m = ground arith

pub update-old :
    (p : ℕ) (f : Cell → Cell) (c : Cell) (m : Memory)
    → p < length m
    → update p f (c ∷ m) ≡ c ∷ update p f m
unfolding update
update-old p f c m h = ground arith

-- Every byte is zero.
abbrev pub IsZero : Bytes → Type 0
IsZero = All (λ b. b ≡ 0)

pub zeroed-IsZero : (b : Bytes) → IsZero (zeroed b)
zeroed-IsZero [] = tt
zeroed-IsZero (b ∷ bs) = (refl, zeroed-IsZero bs)

-- A buffer whose owner erases it is erased.
abbrev pub IsErased : Cell → Type 0
IsErased c = c.to_erase ≡ true → IsZero c.content

abbrev pub Erased : Memory → Type 0
Erased = All IsErased
