-- ===== src/Base/Act.antt =====
-- Steps over a state that may end in an error or a panic: a Go function that returns `(value, error)` and
-- talks to something outside.
use Prim.Native.String.{String}
use peerstore.Base.Result.{Result, ok, err, panic, wrapping}

abbrev pub Act : Type 0 → Type 0 → Type 0
Act W A = W → Result A × W

-- What follows a step that succeeded
abbrev pub after : {W A B : Type 0} → Result A × W → (A → Act W B) → Result B × W
after (ok a, w) f = f a w
after (err e, w) f = (err e, w)
after (panic, w) f = (panic, w)

infixl 5 ◌>>=◌
abbrev pub ◌>>=◌ : {W A B : Type 0} → Act W A → (A → Act W B) → Act W B
(m >>= f) w = after (m w) f

abbrev pub pure : {W A : Type 0} → A → Act W A
pure a w = (ok a, w)

abbrev pub lift : {W A : Type 0} → Result A → Act W A
lift r w = (r, w)

abbrev pub wrap_step : {W A : Type 0} → String → Act W A → Act W A
wrap_step m f w = let (r, w') = f w in (wrapping m r, w')

-- `x, _ := f()`, and an `err` that is only logged: the value is `a` where there was an error.
abbrev pub ignoring : {A : Type 0} → A → Result A → Result A
ignoring a (ok b) = ok b
ignoring a (err e) = ok a
ignoring a panic = panic

abbrev pub ignore_error : {W A : Type 0} → A → Act W A → Act W A
ignore_error a f w = let (r, w') = f w in (ignoring a r, w')
