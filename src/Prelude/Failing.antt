-- ===== src/Prelude/Failing.antt =====
-- What holds of the error of a fallible step, if there is one, with a rule for each way to compose.
use mathlib.Core.Path.{◌≡◌, refl}
use mathlib.Core.Bool.{Bool, true, false}
use mathlib.Core.Option.{Option, none, some}
use secret_management.Prelude.Tests.{if◌then◌else◌}
use secret_management.Prelude.Results.{Result, ok, err, ◌>>=◌, fail_if, map_err, ok_or}

abbrev pub Fails : {E A : Type 0} → (E → Type 0) → Result E A → Type 0
Fails P (ok a) = Unit
Fails P (err e) = P e

module _ {E : Type 0} (P : E → Type 0) where
  pub Fails-bind :
      {A B : Type 0} (r : Result E A) (f : A → Result E B)
      → Fails P r
      → ((a : A) → Fails P (f a))
      → Fails P (r >>= f)
  Fails-bind (ok a) f h k = k a
  Fails-bind (err e) f h k = h

  pub Fails-if :
      {A : Type 0} (b : Bool) (r s : Result E A)
      → Fails P r
      → Fails P s
      → Fails P (if b then r else s)
  Fails-if true r s h k = h
  Fails-if false r s h k = k

  pub Fails-map_err :
      {F A : Type 0} (f : F → E) (r : Result F A) → ((e : F) → P (f e)) → Fails P (map_err f r)
  Fails-map_err f (ok a) h = tt
  Fails-map_err f (err e) h = h e

  pub Fails-fail_if : (b : Bool) (e : E) → P e → Fails P (fail_if {0} b e)
  Fails-fail_if true e h = h
  Fails-fail_if false e h = tt

  pub Fails-ok_or : {A : Type 0} (e : E) (o : Option A) → (o ≡ none → P e) → Fails P (ok_or e o)
  Fails-ok_or e none h = h refl
  Fails-ok_or e (some a) h = tt

pub Fails-imp :
    {E A : Type 0} (P Q : E → Type 0) (r : Result E A)
    → ((e : E) → P e → Q e)
    → Fails P r
    → Fails Q r
Fails-imp P Q (ok a) f h = tt
Fails-imp P Q (err e) f h = f e h
