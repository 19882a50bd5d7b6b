-- ===== src/Examples/Agents.antt =====
-- A run of crates/kelvin-brain/src/kelvin_brain.rs: the model calls an unknown tool for ever.
use kelvinclaw.Prelude.{false, ◌≡◌, refl, none, some, [], ◌∷◌, length}
use kelvinclaw.Prelude.Text.{lit, is_empty, trim, trim_start, is_whitespace, text_eq}
use kelvinclaw.Prelude.Json.{object, nil}
use kelvinclaw.Prelude.Error.{ok}
use kelvinclaw.Runtime.Types.{AgentRunRequest}
use kelvinclaw.Brain.Services.{
  Script, World, ModelOutput, now_ms, emit_lifecycle, emit, upsert_session, ask, history,
  append_message, search, infer, emit_assistant, emit_tool, print_receipt,
}
use kelvinclaw.Brain.LoopDetector.{record_call, is_same_as_last, same_calls, new_detector}
use kelvinclaw.Brain.Agent.{
  run_inner, agent_loop, turn, reply, is_reply, call_tools, conclude, finish,
}
use kelvinclaw.Brain.Calm.{inferences}
use kelvinclaw.Brain.Iterations.{RunEnds, run_inner-RunEnds}
use kelvinclaw.Brain.ToolCalls.{
  execute_tool_calls, execute_tool_call, unknown_tool, call_receipt, emit_tool_receipt,
  receipt_line,
}
use kelvinclaw.Brain.Calm.{Receipted}
use kelvinclaw.Brain.Printed.{run_inner-Receipted}

abbrev stubborn : ModelOutput
stubborn = record {
  assistant_text = lit " ok ";
  stop_reason = none;
  tool_calls = record { id = lit "1"; name = lit "t"; arguments = object nil } ∷ [];
}

abbrev script : Script
script = record {
  clock = λ n. n;
  emit_error = λ n. none;
  store_error = λ n. none;
  history = λ n. ok [];
  memory = λ n q. ok [];
  infer = λ n input. ok stubborn;
  tool_of = λ t. none;
  call_tool = λ n name input.
      ok (record { summary = []; output = none; visible_text = none; is_error = false });
  max_tool_iterations = 10;
  definitions = [];
  system_prompt = [];
  provider_name = lit "p";
  model_name = lit "m";
  canonical_args = λ j. lit "{}";
  format = λ m. lit "unknown\ntool";
}

abbrev agent_request : AgentRunRequest
agent_request = record {
  run_id = lit "r";
  session_id = lit "s";
  session_key = lit "s";
  workspace_dir = lit "/w";
  prompt = lit "hello";
  extra_system_prompt = none;
  timeout_ms = none;
  memory_query = none;
  max_tool_iterations = some 2;
}

abbrev start : World
start = record { asked = 0; seq = 0; events = []; messages = []; receipts = []; inputs = [] }

run_inner-RunEnds_example : RunEnds 0 2 (run_inner script agent_request start)
unfolding inferences
run_inner-RunEnds_example = run_inner-RunEnds script agent_request start

three_inferences : length (run_inner script agent_request start).1.inputs ≡ 3
unfolding run_inner is_empty trim trim_start is_whitespace now_ms emit_lifecycle emit upsert_session
    ask history append_message search agent_loop turn infer reply is_reply text_eq emit_assistant
    call_tools execute_tool_calls execute_tool_call emit_tool unknown_tool call_receipt
    emit_tool_receipt receipt_line print_receipt record_call is_same_as_last same_calls new_detector
    conclude finish
three_inferences = refl

run_inner-Receipted_example : Receipted (run_inner script agent_request start).1.receipts
unfolding Receipted
run_inner-Receipted_example = run_inner-Receipted script agent_request start tt
