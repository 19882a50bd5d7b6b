-- ===== src/Prelude/Json.antt =====
-- The JSON values that the source builds with `json!`.
use Prim.Native.Nat.{ℕ}
use Prim.Native.String.{String}
use mathlib.Core.Bool.{Bool}
use mathlib.Core.Option.{Option, none, some}
use kelvinclaw.Prelude.Text.{Text}
use kelvinclaw.Prelude.Error.{Message}

mutual
  pub data Json : Type 0 where
    null : Json
    bool : Bool → Json
    number : ℕ → Json
    name : String → Json
    text : Text → Json
    message : Message → Json
    object : Fields → Json

  pub data Fields : Type 0 where
    nil : Fields
    field : String → Json → Fields → Fields

unfoldable pub option_text : Option Text → Json
option_text none = null
option_text (some t) = text t

unfoldable pub option_message : Option Message → Json
option_message none = null
option_message (some m) = message m
