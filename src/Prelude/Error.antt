-- ===== src/Prelude/Error.antt =====
-- `KelvinError` and `KelvinResult` of crates/kelvin-core/src/error.rs. A formatted text is the
-- source's format string followed by its arguments.
use Prim.Native.Nat.{ℕ}
use Prim.Native.String.{String}
use mathlib.Core.Path.{◌≡◌, refl, ap}
use mathlib.Core.Bool.{Bool, true, false}
use mathlib.Core.Option.{Option, none, some}
use kelvinclaw.Prelude.Text.{Text}

pub data Message : Type 0 where
  literal : String → Message
  with_text : Message → Text → Message
  with_number : Message → ℕ → Message
  with_message : Message → Message → Message

pub data KelvinError : Type 0 where
  invalid_input : Message → KelvinError
  not_found : Message → KelvinError
  timeout : Message → KelvinError
  backend : Message → KelvinError
  io : Message → KelvinError

-- `err.to_string()`
unfoldable pub to_message : KelvinError → Message
to_message (invalid_input m) = with_message (literal "invalid input: {0}") m
to_message (not_found m) = with_message (literal "not found: {0}") m
to_message (timeout m) = with_message (literal "timeout: {0}") m
to_message (backend m) = with_message (literal "backend failure: {0}") m
to_message (io m) = with_message (literal "io failure: {0}") m

pub data KelvinResult {ℓ} (A : Type ℓ) : Type ℓ where
  ok : A → KelvinResult A
  err : KelvinError → KelvinResult A

infixl 5 ◌>>=◌ ◌>>◌
abbrev pub ◌>>=◌ {ℓ κ} :
    {A : Type ℓ} {B : Type κ} → KelvinResult A → (A → KelvinResult B) → KelvinResult B
ok a >>= f = f a
err e >>= f = err e

abbrev pub ◌>>◌ {ℓ} : {B : Type ℓ} → KelvinResult (Unit {0}) → KelvinResult B → KelvinResult B
m >> k = m >>= λ _. k

-- An early `return Err(e)` when the test holds.
abbrev pub refuse_if : Bool → KelvinError → KelvinResult (Unit {0})
refuse_if true e = err e
refuse_if false e = ok tt

abbrev pub ok_or : {A : Type 0} → Option A → KelvinError → KelvinResult A
ok_or none e = err e
ok_or (some a) e = ok a

-- A property of the value that a call returns, where it returns one.
abbrev pub Returned {ℓ κ} : {A : Type ℓ} → (A → Type κ) → KelvinResult A → Type κ
Returned P (ok a) = P a
Returned P (err e) = Unit

pub Returned-bind {ℓ κ ι} :
    {A : Type ℓ} {B : Type κ} (P : B → Type ι) (m : KelvinResult A) (f : A → KelvinResult B)
    → ((a : A) → m ≡ ok a → Returned P (f a))
    → Returned P (m >>= f)
Returned-bind P (ok a) f h = h a refl
Returned-bind P (err e) f h = tt

pub Returned-elim {ℓ κ} :
    {A : Type ℓ} (P : A → Type κ) (m : KelvinResult A) (a : A) → Returned P m → m ≡ ok a → P a
Returned-elim P m a h e = rw e at h

-- What a chain that returned has passed.
pub then-ok {ℓ} :
    {B : Type ℓ} (m : KelvinResult (Unit {0})) (k : KelvinResult B) (b : B)
    → m >> k ≡ ok b
    → (m ≡ ok tt) × (k ≡ ok b)
then-ok (ok tt) k b h = (refl, h)
then-ok (err e) k b h = cc

pub refuse_if-ok : (b : Bool) (e : KelvinError) → refuse_if b e ≡ ok tt → b ≡ false
refuse_if-ok true e h = cc
refuse_if-ok false e h = refl

pub ok-injective {ℓ} : {A : Type ℓ} {a b : A} → ok a ≡ ok b → a ≡ b
ok-injective {a} h = ap (λ r. elim r [ ok x ↦ x | err e ↦ a ]) h

pub bind-ok {ℓ κ} :
    {A : Type ℓ} {B : Type κ} (m : KelvinResult A) (f : A → KelvinResult B) (b : B)
    → m >>= f ≡ ok b
    → (a : A) × (m ≡ ok a) × (f a ≡ ok b)
bind-ok (ok a) f b h = (a, refl, h)
bind-ok (err e) f b h = cc

pub ok_or-ok : {A : Type 0} (o : Option A) (e : KelvinError) (a : A) → ok_or o e ≡ ok a → o ≡ some a
ok_or-ok none e a h = cc
ok_or-ok (some x) e a h = ap some (ok-injective h)
