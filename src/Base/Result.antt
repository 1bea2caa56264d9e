-- ===== src/Base/Result.antt =====
-- Go's `(value, error)` pairs, and the errors that `github.com/pkg/errors` builds.
use Prim.Native.String.{String}
use mathlib.Core.Option.{Option, none, some}

-- `new m` is `errors.New(m)`, `wrap m e` is `errors.Wrap(e, m)` for a non-nil `e`. An error of the
-- system or of a library is a `cause`.
pub data Error : Type 0 where
  new : String → Error
  wrap : String → Error → Error
  cause : String → Error

-- `panic` is a call that does not return: the program ends.
pub data Result {ℓ} (A : Type ℓ) : Type ℓ where
  ok : A → Result A
  err : Error → Result A
  panic : Result A

infixl 5 ◌>>=◌
abbrev pub ◌>>=◌ {ℓ κ} : {A : Type ℓ} {B : Type κ} → Result A → (A → Result B) → Result B
ok a >>= f = f a
err e >>= f = err e
panic >>= f = panic

-- `if err != nil { return errors.Wrap(err, m) }`
abbrev pub wrapping {ℓ} : {A : Type ℓ} → String → Result A → Result A
wrapping m (ok a) = ok a
wrapping m (err e) = err (wrap m e)
wrapping m panic = panic

-- A library call that fails with an error of its own
abbrev pub of_option {ℓ} : {A : Type ℓ} → String → Option A → Result A
of_option m none = err (cause m)
of_option m (some a) = ok a

abbrev pub map_ok : {A B : Type 0} → (A → B) → Result A → Result B
map_ok f (ok a) = ok (f a)
map_ok f (err e) = err e
map_ok f panic = panic
