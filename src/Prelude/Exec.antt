-- ===== src/Prelude/Exec.antt =====
-- `&mut self` methods that may fail. What was written before an error stays written, so the state
-- comes back beside the error too.
use mathlib.Core.Bool.{Bool, true, false}
use kelvinclaw.Prelude.Error.{KelvinError, KelvinResult, ok, err}

abbrev pub Exec : Type 0 → Type 0 → Type 0
Exec S A = S → KelvinResult A × S

abbrev pub and_then : {S A B : Type 0} → KelvinResult A × S → (A → Exec S B) → KelvinResult B × S
and_then (ok a, s) f = f a s
and_then (err e, s) f = (err e, s)

infixl 5 ◌>>=◌ ◌>>◌
abbrev pub ◌>>=◌ : {S A B : Type 0} → Exec S A → (A → Exec S B) → Exec S B
◌>>=◌ m f s = and_then (m s) f

abbrev pub ◌>>◌ : {S B : Type 0} → Exec S (Unit {0}) → Exec S B → Exec S B
m >> k = m >>= λ _. k

abbrev pub pure : {S A : Type 0} → A → Exec S A
pure a s = (ok a, s)

abbrev pub fail : {S A : Type 0} → KelvinError → Exec S A
fail e s = (err e, s)

abbrev pub lift : {S A : Type 0} → KelvinResult A → Exec S A
lift r s = (r, s)

abbrev pub get : {S : Type 0} → Exec S S
get s = (ok s, s)

abbrev pub modify : {S : Type 0} → (S → S) → Exec S (Unit {0})
modify f s = (ok tt, f s)

abbrev pub fail_if : {S : Type 0} → Bool → KelvinError → Exec S (Unit {0})
fail_if true e s = (err e, s)
fail_if false e s = (ok tt, s)
