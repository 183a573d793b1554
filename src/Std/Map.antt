-- ===== src/Std/Map.antt =====
-- `HashMap<String, V>` and `DashMap<String, V>` as association lists, and the environment.
-- Rust lists the entries of a map in no fixed order; here it is that of the first insertions.
use text.Mathlib.TextPositions.{eq_refl}
use secret_management.Prelude.{
  String, ◌≡◌, refl, ◌≢◌, Bool, Option, none, some, List, [], ◌∷◌, arith, ◌==◌, eq_iff,
  if◌then◌else◌, is_some, Bool-cases, inl, inr,
}

abbrev pub HashMap {ℓ} : Type ℓ → Type ℓ
HashMap V = List (String × V)

module _ {ℓ} {V : Type ℓ} where
  -- `m.get(k)`, the key first
  unfoldable pub get : String → HashMap V → Option V
  get k [] = none
  get k ((j, v) ∷ m) = if j == k then some v else get k m

  -- `m.insert(k, v)`
  unfoldable pub insert : String → V → HashMap V → HashMap V
  insert k v [] = (k, v) ∷ []
  insert k v ((j, w) ∷ m) = if j == k then (k, v) ∷ m else (j, w) ∷ insert k v m

  pub get-insert :
      (k j : String) (v : V) (m : HashMap V)
      → get j (insert k v m) ≡ (if k == j then some v else get j m)
  unfolding get insert
  get-insert k j v [] = refl
  get-insert k j v ((i, w) ∷ m) =
      ground (arith, eq_iff k j, eq_iff i k, eq_iff i j, get-insert k j v m)

  pub get-insert_self : (k : String) (v : V) (m : HashMap V) → get k (insert k v m) ≡ some v
  get-insert_self k v m = simp (get-insert, eq_refl)

  pub get-insert_ne :
      (k j : String) (v : V) (m : HashMap V) → k ≢ j → get j (insert k v m) ≡ get j m
  get-insert_ne k j v m h = rw get-insert (ground (arith, eq_iff k j))

  abbrev pub contains_key : String → HashMap V → Bool
  contains_key k m = is_some (get k m)

module _ {ℓ} {V : Type ℓ} where
  -- `m.retain(|_, v| keep(v))`
  unfoldable pub retain : (V → Bool) → HashMap V → HashMap V
  retain keep [] = []
  retain keep ((k, v) ∷ m) = let rest = retain keep m in if keep v then (k, v) ∷ rest else rest

  -- `m.remove(k)`
  unfoldable pub remove : String → HashMap V → HashMap V
  remove k [] = []
  remove k ((j, v) ∷ m) = let rest = remove k m in if j == k then rest else (j, v) ∷ rest

  pub get-remove :
      (k j : String) (m : HashMap V) → get j (remove k m) ≡ (if k == j then none else get j m)
  unfolding get remove
  get-remove k j [] = ground arith
  get-remove k j ((i, v) ∷ m) = ground (arith, eq_iff k j, eq_iff i k, eq_iff i j, get-remove k j m)

  -- Every key has one entry.
  abbrev pub IsDistinct : HashMap V → Type ℓ
  IsDistinct [] = Unit
  IsDistinct ((k, v) ∷ m) = (get k m ≡ none) × IsDistinct m

  pub insert-IsDistinct :
      (k : String) (v : V) (m : HashMap V) → IsDistinct m → IsDistinct (insert k v m)
  unfolding insert get
  insert-IsDistinct k v [] h = (refl, tt)
  insert-IsDistinct k v ((j, w) ∷ m) (p, h) = elim (Bool-cases (j == k)) [
    | inl e ↦ rw e (rw (← (eq_iff j k).0 e) p, h)
    | inr e ↦ rw e (
      rw (get-insert k j v m) (ground (arith, eq_iff j k, eq_iff k j)),
      insert-IsDistinct k v m h,
    )
  ]

  -- What a map keeps of an entry.
  abbrev pub kept : (V → Bool) → Option V → Option V
  kept keep none = none
  kept keep (some v) = if keep v then some v else none

  get-retain-none :
      (keep : V → Bool) (k : String) (m : HashMap V) → get k m ≡ none → get k (retain keep m) ≡ none
  unfolding get retain
  get-retain-none keep k [] e = refl
  get-retain-none keep k ((j, v) ∷ m) e = ground (arith, get-retain-none keep k m)

  pub retain-IsDistinct :
      (keep : V → Bool) (m : HashMap V) → IsDistinct m → IsDistinct (retain keep m)
  unfolding retain
  retain-IsDistinct keep [] h = tt
  retain-IsDistinct keep ((k, v) ∷ m) (p, h) = elim (Bool-cases (keep v)) [
    | inl e ↦ rw e (get-retain-none keep k m p, retain-IsDistinct keep m h)
    | inr e ↦ rw e (retain-IsDistinct keep m h)
  ]

  pub get-retain :
      (keep : V → Bool) (k : String) (m : HashMap V)
      → IsDistinct m
      → get k (retain keep m) ≡ kept keep (get k m)
  unfolding get retain
  get-retain keep k [] h = refl
  get-retain keep k ((j, v) ∷ m) (p, h) =
      ground (arith, eq_iff j k, get-retain keep k m h, get-retain-none keep k m)

-- The variables of the process, in the order in which `env::vars` lists them.
abbrev pub Env : Type 0
Env = List (String × String)

-- `env::var(k).ok()`
abbrev pub var : String → Env → Option String
var = get
