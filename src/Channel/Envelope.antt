-- ===== src/Channel/Envelope.antt =====
-- What `ingest` does to an envelope first, and `normalize_identifier` (both of
-- apps/kelvin-gateway/src/channels.rs).
use kelvinclaw.Prelude.{ℕ, ltb, String, if◌then◌else◌}
use kelvinclaw.Prelude.Text.{Text, trim, is_empty, byte_len, has_control}
use kelvinclaw.Prelude.Error.{
  KelvinResult, ok, err, invalid_input, literal, with_number, with_message, ◌>>=◌,
}
use kelvinclaw.Channel.Types.{ChannelEnvelope, ChannelPolicy}

abbrev pub max_channel_identifier_bytes : ℕ
max_channel_identifier_bytes = 256

unfoldable pub normalize_identifier : String → Text → ℕ → KelvinResult Text
normalize_identifier label value max_len =
    if is_empty (trim value)
    then err (invalid_input (with_message (literal "{} must not be empty") (literal label)))
    else if ltb max_len (byte_len (trim value))
    then err (
        invalid_input
          (with_number (with_message (literal "{} exceeds {} bytes") (literal label)) max_len))
    else if has_control (trim value)
    then err (
        invalid_input
          (with_message (literal "{} must not include control characters") (literal label)))
    else ok (trim value)

checked_text : ℕ → Text → KelvinResult Text
checked_text max_len t =
    if is_empty t
    then err (invalid_input (literal "message text must not be empty"))
    else if ltb max_len (byte_len t)
    then err (invalid_input (with_number (literal "message text exceeds {} bytes") max_len))
    else ok t

-- The envelope with its identifiers and its text normalized.
unfoldable pub normalize_envelope : ChannelPolicy → ChannelEnvelope → KelvinResult ChannelEnvelope
unfolding normalize_identifier checked_text
normalize_envelope policy e = do
  delivery ← normalize_identifier "delivery_id" e.delivery_id max_channel_identifier_bytes
  sender ← normalize_identifier "sender_id" e.sender_id max_channel_identifier_bytes
  account ← normalize_identifier "account_id" e.account_id max_channel_identifier_bytes
  body ← checked_text policy.max_text_bytes (trim e.text)
  ok (record e { delivery_id = delivery; sender_id = sender; account_id = account; text = body })
