-- ===== src/Brain/ToolCalls.antt =====
-- `execute_tool_calls` of crates/kelvin-brain/src/kelvin_brain.rs.
use kelvinclaw.Prelude.{
  ℕ, zero, suc, ◌-◌, String, true, Option, none, some, List, [], ◌∷◌, ◌++◌, if◌then◌else◌,
}
use kelvinclaw.Prelude.Text.{Text, lit, is_control}
use kelvinclaw.Prelude.Json.{object, nil, field, text, bool, message, option_text}
use kelvinclaw.Prelude.Error.{
  Message, literal, with_text, with_message, KelvinError, KelvinResult, ok, err, to_message,
}
use kelvinclaw.Prelude.Exec.{◌>>=◌, ◌>>◌, pure}
use kelvinclaw.Runtime.Types.{AgentRunRequest, AgentPayload}
use kelvinclaw.Brain.Services.{
  tool_started, tool_ended, tool_failed, tool_message, plain, ToolCall, ToolCallResult, Script,
  Brain, ToolReceipt, ReceiptLine, now_ms, emit_tool, append_message, call_tool, print_receipt,
}

abbrev pub receipt_reason_max_length : ℕ
receipt_reason_max_length = 512

-- `sanitize_receipt_reason`, from the character with this index on. The index counts the control
-- characters that are left out.
unfoldable pub sanitize_from : ℕ → Text → Text
sanitize_from room [] = []
sanitize_from zero (ch ∷ reason) = lit "..."
sanitize_from (suc room) (ch ∷ reason) =
    let rest = sanitize_from room reason in if is_control ch then rest else ch ∷ rest

unfoldable pub sanitize_receipt_reason : Text → Text
sanitize_receipt_reason reason = sanitize_from receipt_reason_max_length reason

-- A call and the payload that it leaves.
abbrev pub Executed : Type 0
Executed = ToolCall × AgentPayload

-- The printed line, from the receipt.
unfoldable pub receipt_line : Script → ToolReceipt → ReceiptLine
unfolding sanitize_receipt_reason
receipt_line script receipt = record {
  run_id = receipt.run_id;
  session_id = receipt.session_id;
  tool_name = receipt.tool_name;
  tool_call_id = receipt.tool_call_id;
  why = sanitize_receipt_reason (script.format receipt.reason);
  result_class = receipt.result_class;
  latency_ms = receipt.latency_ms;
}

unfoldable pub emit_tool_receipt : Script → ToolReceipt → Brain (Unit {0})
unfolding receipt_line
emit_tool_receipt script receipt = print_receipt (receipt_line script receipt)

module _ (script : Script) (req : AgentRunRequest) where
  -- The receipt of a call, with the latency since its start.
  unfoldable pub call_receipt : Text → ToolCall → String → Message → ℕ → Brain (Unit {0})
  call_receipt tool_name tool_call result_class reason started_tool_at = do
    now ← now_ms script
    emit_tool_receipt script (record {
      run_id = req.run_id;
      session_id = req.session_id;
      tool_name = tool_name;
      tool_call_id = tool_call.id;
      result_class = lit result_class;
      reason = reason;
      latency_ms = now - started_tool_at;
    })

  -- The call of a tool that is not registered.
  unfoldable pub unknown_tool : ToolCall → ℕ → Brain (List Executed)
  unknown_tool tool_call started_tool_at =
      let summary = with_text (literal "unknown tool: {}") tool_call.name in
      do
        emit_tool script req.run_id tool_call.name tool_failed (some summary) none
        call_receipt tool_call.name tool_call "denied" summary started_tool_at
        pure ((tool_call, record { text = summary; is_error = true }) ∷ [])

  -- The call of a tool that returned an error.
  unfoldable pub failed_tool : Text → ToolCall → KelvinError → ℕ → Brain (List Executed)
  failed_tool name tool_call e started_tool_at =
      let summary = with_message (with_text (literal "tool '{}' failed: {}") name) (to_message e) in
      do
        emit_tool script req.run_id name tool_failed (some summary) none
        append_message script (
            tool_message
              (with_message (with_message (literal "{}\n\nError:\n{}") summary) (to_message e))
              (object (
                field "tool" (text name)
                  (field "is_error" (bool true) (field "error" (message (to_message e)) nil)))))
        call_receipt name tool_call "error" summary started_tool_at
        pure ((tool_call, record { text = summary; is_error = true }) ∷ [])

  abbrev tool_content : ToolCallResult → Message
  tool_content result = elim result.output [
    | some output ↦ with_text (with_text (literal "{}\n\nOutput:\n{}") result.summary) output
    | none ↦ plain result.summary
  ]

  -- The payload that a tool leaves, if it has one for the user.
  abbrev pub visible : ToolCall → ToolCallResult → List Executed
  visible tool_call result = elim result.visible_text [
    | some visible_text ↦
        (tool_call, record { text = plain visible_text; is_error = result.is_error }) ∷ []
    | none ↦ []
  ]

  unfoldable pub returned_tool : Text → ToolCall → ToolCallResult → ℕ → Brain (List Executed)
  returned_tool name tool_call result started_tool_at = do
    emit_tool script req.run_id name (if result.is_error then tool_failed else tool_ended)
        (some (plain result.summary)) result.output
    append_message script (
        tool_message (tool_content result) (
          object (
            field "tool" (text name) (
              field "is_error" (bool result.is_error)
                (field "output" (option_text result.output) nil)))))
    call_receipt name tool_call (if result.is_error then "tool_error" else "success")
        (plain result.summary) started_tool_at
    pure (visible tool_call result)

  abbrev pub after_call : Text → ToolCall → ℕ → KelvinResult ToolCallResult → Brain (List Executed)
  after_call name tool_call started_tool_at (ok result) =
      returned_tool name tool_call result started_tool_at
  after_call name tool_call started_tool_at (err e) = failed_tool name tool_call e started_tool_at

  abbrev pub with_tool : ToolCall → ℕ → Option Text → Brain (List Executed)
  with_tool tool_call started_tool_at none = unknown_tool tool_call started_tool_at
  with_tool tool_call started_tool_at (some name) =
      call_tool script name (record {
        run_id = req.run_id;
        session_id = req.session_id;
        workspace_dir = req.workspace_dir;
        arguments = tool_call.arguments;
      })
      >>= after_call name tool_call started_tool_at

  -- One turn of the loop over the calls.
  unfoldable pub execute_tool_call : ToolCall → Brain (List Executed)
  execute_tool_call tool_call = do
    started_tool_at ← now_ms script
    emit_tool script req.run_id tool_call.name tool_started
        (some (literal "tool execution started")) none
    with_tool tool_call started_tool_at (script.tool_of tool_call.name)

  unfoldable pub execute_tool_calls : List ToolCall → Brain (List Executed)
  execute_tool_calls [] = pure []
  execute_tool_calls (tool_call ∷ tool_calls) = execute_tool_call tool_call >>= λ one.
      execute_tool_calls tool_calls >>= λ more. pure (one ++ more)
