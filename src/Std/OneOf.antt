-- ===== src/Std/OneOf.antt =====
-- Texts from a list: the `match` on string literals with many patterns in one arm.
use secret_management.Prelude.{
  String, ◌≡◌, ◌↔◌, ◌⊎◌, Bool, true, false, ◌||◌, List, [], ◌∷◌, ◌==◌, eq_iff, arith, All, subst,
  sym, inl, inr,
}
use mathlib.Core.Bool.{false≢true}

abbrev pub OneOf : String → List String → Type 0
OneOf s [] = ⊥
OneOf s (t ∷ ts) = (s ≡ t) ⊎ OneOf s ts

unfoldable pub one_of : String → List String → Bool
one_of s [] = false
one_of s (t ∷ ts) = s == t || one_of s ts

pub one_of_iff : (s : String) (ts : List String) → (one_of s ts ≡ true) ↔ OneOf s ts
unfolding one_of
one_of_iff s [] = (λ e. absurd (false≢true e), λ h. absurd h)
one_of_iff s (t ∷ ts) = ground (arith, eq_iff s t, one_of_iff s ts)

-- What holds of each text of a list holds of a text that is one of them.
pub All-OneOf {κ} :
    (P : String → Type κ) (s : String) (ts : List String) → All P ts → OneOf s ts → P s
All-OneOf P s (t ∷ ts) h (inl e) = subst P (sym e) h.0
All-OneOf P s (t ∷ ts) h (inr o) = All-OneOf P s ts h.1 o
All-OneOf P s [] h o = elim o [ ]
