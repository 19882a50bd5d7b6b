-- ===== src/Tools/Arguments.antt =====
-- The arguments of a tool and the approval among them: crates/kelvin-sdk/src/toolpack.rs. The JSON
-- values are those of the crate serde_json.
use kelvinclaw.Prelude.{ℕ, Bool, false, not, ◌||◌, Option, none, some, String, [], length, ltb, any}
use kelvinclaw.Prelude.Text.{Text, trim, is_empty, is_control}
use kelvinclaw.Prelude.Error.{
  KelvinResult, ok, invalid_input, literal, with_message, refuse_if, ok_or, ◌>>◌, ◌>>=◌,
}

-- `serde_json::Value`, by what the tools ask of it.
pub record JsonValues : Type 1 where
  pub Value : Type 0
  pub as_str : Value → Option Text
  pub as_bool : Value → Option Bool
  pub as_u64 : Value → Option ℕ
  pub as_object : Value → Option (String → Option Value)

abbrev pub max_approval_reason_len : ℕ
max_approval_reason_len = 256

abbrev pub and_then : {A B : Type 0} → Option A → (A → Option B) → Option B
and_then none f = none
and_then (some a) f = f a

-- `unwrap_or`
abbrev pub value_or : {A : Type 0} → Option A → A → A
value_or none d = d
value_or (some a) d = a

module _ (json : JsonValues) where
  -- `serde_json::Map`, by its lookup
  abbrev pub Object : Type 0
  Object = String → Option json.Value

  unfoldable pub args_object : json.Value → String → KelvinResult Object
  args_object args tool_name = ok_or (json.as_object args) (
      invalid_input
        (with_message (literal "{tool_name} expects JSON object arguments") (literal tool_name)))

  unfoldable pub required_string : Object → String → String → KelvinResult Text
  required_string args field tool_name =
      ok_or (and_then (args field) json.as_str) (
        invalid_input (
          with_message
            (with_message (literal "{tool_name} requires string argument '{field}'")
              (literal tool_name))
            (literal field)))
      >>= λ value.
          refuse_if (is_empty (trim value)) (
            invalid_input (
              with_message
                (with_message (literal "{tool_name} argument '{field}' must not be empty")
                  (literal tool_name))
                (literal field)))
          >> refuse_if (any is_control (trim value)) (
              invalid_input (
                with_message
                  (with_message
                    (literal "{tool_name} argument '{field}' must not contain control characters")
                    (literal tool_name))
                  (literal field)))
          >> ok (trim value)

  unfoldable pub required_string_content : Object → String → String → KelvinResult Text
  required_string_content args field tool_name =
      ok_or (and_then (args field) json.as_str) (
        invalid_input (
          with_message
            (with_message (literal "{tool_name} requires string argument '{field}'")
              (literal tool_name))
            (literal field)))
      >>= λ value.
          refuse_if (is_empty value) (
            invalid_input (
              with_message
                (with_message (literal "{tool_name} argument '{field}' must not be empty")
                  (literal tool_name))
                (literal field)))
          >> ok value

  unfoldable pub optional_string : Object → String → String → KelvinResult (Option Text)
  optional_string args field tool_name = elim (args field) [
    | none ↦ ok none
    | some value ↦
        ok_or (json.as_str value) (
          invalid_input (
            with_message
              (with_message (literal "{tool_name} argument '{field}' must be a string")
                (literal tool_name))
              (literal field)))
        >>= λ v. ok (some v)
  ]

  unfoldable pub optional_u64 : Object → String → String → KelvinResult (Option ℕ)
  optional_u64 args field tool_name = elim (args field) [
    | none ↦ ok none
    | some value ↦
        ok_or (json.as_u64 value) (
          invalid_input (
            with_message
              (with_message (literal "{tool_name} argument '{field}' must be a u64")
                (literal tool_name))
              (literal field)))
        >>= λ v. ok (some v)
  ]

  unfoldable pub approved_reason : Object → Text
  approved_reason approval = trim (value_or (and_then (approval "reason") json.as_str) [])

  unfoldable pub require_sensitive_approval : Object → String → KelvinResult Text
  unfolding approved_reason
  require_sensitive_approval args capability =
      ok_or (and_then (args "approval") json.as_object) (
        invalid_input (
          with_message
            (literal
              "sensitive operation '{capability}' denied by default; provide approval={{\"granted\":true,\"reason\":\"...\"}}")
            (literal capability)))
      >>= λ approval.
          refuse_if (not (value_or (and_then (approval "granted") json.as_bool) false)) (
            invalid_input (
              with_message
                (literal "sensitive operation '{capability}' requires approval.granted=true")
                (literal capability)))
          >> refuse_if (is_empty (approved_reason approval)) (
              invalid_input (
                with_message
                  (literal "sensitive operation '{capability}' requires non-empty approval.reason")
                  (literal capability)))
          >> refuse_if
              (ltb max_approval_reason_len (length (approved_reason approval))
                || any is_control (approved_reason approval))
              (invalid_input (
                with_message (literal "approval.reason for '{capability}' is invalid")
                  (literal capability)))
          >> ok (approved_reason approval)
