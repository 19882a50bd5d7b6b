-- ===== src/Brain/Agent.antt =====
-- `run_inner` of crates/kelvin-brain/src/kelvin_brain.rs: the loop over model and tool calls.
use kelvinclaw.Prelude.{
  ℕ, zero, suc, ◌+◌, ◌-◌, max, Bool, true, false, not, ◌&&◌, Option, none, some, List, [], ◌∷◌,
  ◌++◌, map, leb, if◌then◌else◌,
}
use kelvinclaw.Prelude.Text.{Text, lit, text_eq, trim, is_empty}
use kelvinclaw.Prelude.Error.{Message, literal, with_text, with_number, with_message, invalid_input}
use kelvinclaw.Prelude.Exec.{◌>>=◌, ◌>>◌, pure, fail_if}
use kelvinclaw.Runtime.Types.{AgentRunRequest, AgentPayload, AgentRunResult}
use kelvinclaw.Brain.LoopDetector.{
  RecordedToolCall, LoopDetectionResult, no_issue, suspected_loop, ToolLoopDetector, new_detector,
  record_call,
}
use kelvinclaw.Brain.Services.{
  run_started, run_ended, run_warned, SessionMessage, user_message, assistant_message, plain,
  ToolCall, ToolDefinition, ModelInput, Script, Brain, now_ms, emit_lifecycle, emit_assistant,
  upsert_session, append_message, history, search, infer,
}
use kelvinclaw.Brain.ToolCalls.{Executed, execute_tool_calls}

abbrev pub or_else {ℓ} : {A : Type ℓ} → Option A → A → A
or_else none d = d
or_else (some a) d = a

-- What the loop carries from turn to turn.
pub record LoopState : Type 0 where
  pub iteration : ℕ
  pub payloads : List AgentPayload
  pub detector : ToolLoopDetector

-- What the loop leaves.
pub record LoopEnd : Type 0 where
  pub end_payloads : List AgentPayload
  pub stop_reason : Option Text
  pub tool_iterations : ℕ

-- A turn goes on, breaks, or the detector panics on an empty round.
pub data TurnResult : Type 0 where
  continues : LoopState → TurnResult
  breaks : LoopEnd → TurnResult
  panics : TurnResult

-- `!text.is_empty() && text != NO_REPLY_SIGNAL`
unfoldable pub is_reply : Text → Bool
is_reply text = not (is_empty text) && not (text_eq text (lit "NO_REPLY"))

-- The payload of a reply.
abbrev pub reply_payload : Text → List AgentPayload
reply_payload text =
    if is_reply text then record { text = plain text; is_error = false } ∷ [] else []

abbrev pub is_nil {ℓ} : {A : Type ℓ} → List A → Bool
is_nil [] = true
is_nil (x ∷ xs) = false

abbrev pub first_state : LoopState
first_state = record { iteration = 0; payloads = []; detector = new_detector }

abbrev follow_up : Text
follow_up =
    lit
      "Tool calls completed. Based on the results in the conversation history above, respond to the user's original request."

module _ (script : Script) (req : AgentRunRequest) where
  -- The text is emitted and stored if it is a reply.
  unfoldable pub reply : Text → Bool → Brain (Unit {0})
  reply text final_chunk =
      if is_reply text
      then (emit_assistant script req.run_id text final_chunk
          >> append_message script (assistant_message text))
      else pure tt

  abbrev pub model_input : Text → List Text → List SessionMessage → List ToolDefinition → ModelInput
  model_input user_prompt memory_snippets past tools = record {
    run_id = req.run_id;
    session_id = req.session_id;
    system_prompt = script.system_prompt;
    user_prompt = user_prompt;
    memory_snippets = memory_snippets;
    history = past;
    tools = tools;
  }

  -- The last inference, which is offered no tools.
  unfoldable pub conclude : Message → List Text → ℕ → List AgentPayload → Brain TurnResult
  conclude reason memory_snippets iteration payloads = do
    emit_lifecycle script req.run_id run_warned (some reason)
    final_history ← history script
    final_output ← infer script (model_input follow_up memory_snippets final_history [])
    let final_text = trim final_output.assistant_text
    reply final_text true
    pure (
        breaks (record {
          end_payloads = payloads ++ reply_payload final_text;
          stop_reason = final_output.stop_reason;
          tool_iterations = iteration;
        }))

  -- The calls as the loop detector is given them.
  abbrev pub recorded : ℕ → List Executed → List RecordedToolCall
  recorded now results =
      map
        (λ r. record {
          tool_name = r.0.name;
          input_hash = script.canonical_args r.0.arguments;
          is_error = r.1.is_error;
          timestamp = now;
        })
        results

  -- `force_reason`
  abbrev pub force_reason : ℕ → ℕ → LoopDetectionResult → Option Message
  force_reason max_iter iteration detection =
      if leb max_iter iteration
      then some (with_number (literal "max tool iterations ({max_iter}) reached") max_iter)
      else elim detection [
        | no_issue ↦ none
        | suspected_loop tool_name repeat_count is_all_errors ↦ some (
            with_message
              (with_number
                (with_text
                  (literal
                    "loop detector triggered with (name=\"{tool_name}\", repeat_count={repeat_count}, is_all_errors={is_all_errors})")
                  tool_name)
                repeat_count)
              (literal (if is_all_errors then "true" else "false")))
      ]

  -- After the verdict of the detector.
  abbrev pub after_verdict :
      ℕ
      → List Text
      → ℕ
      → List AgentPayload
      → ToolLoopDetector
      → Option LoopDetectionResult
      → Brain TurnResult
  after_verdict max_iter memory_snippets iteration payloads detector none = pure panics
  after_verdict max_iter memory_snippets iteration payloads detector (some detection) =
      elim (force_reason max_iter iteration detection) [
        | some reason ↦ conclude reason memory_snippets iteration payloads
        | none ↦
            pure (
              continues
                (record { iteration = iteration; payloads = payloads; detector = detector }))
      ]

  -- The round of tool calls of a turn. The source reads the clock for each call that it records, here
  -- once for the round: nothing depends on these times.
  unfoldable pub call_tools : ℕ → List Text → LoopState → List ToolCall → Brain TurnResult
  call_tools max_iter memory_snippets st tool_calls = do
    results ← execute_tool_calls script req tool_calls
    now ← now_ms script
    let verdict = record_call st.detector (recorded now results)
    after_verdict max_iter memory_snippets (st.iteration + 1)
        (st.payloads ++ map (λ r. r.1) results) verdict.1 verdict.0

  -- The history of a turn: the one from before the prompt was stored in the first.
  abbrev pub turn_history : List SessionMessage → LoopState → Brain (List SessionMessage)
  turn_history prior_history st = elim st.iteration [
    | zero ↦ pure prior_history
    | suc n ↦ history script
  ]

  abbrev pub turn_prompt : LoopState → Text
  turn_prompt st = elim st.iteration [ zero ↦ req.prompt | suc n ↦ follow_up ]

  -- One turn of the loop.
  unfoldable pub turn : ℕ → List Text → List SessionMessage → LoopState → Brain TurnResult
  turn max_iter memory_snippets prior_history st = do
    past ← turn_history prior_history st
    output ← infer script (model_input (turn_prompt st) memory_snippets past script.definitions)
    let text = trim output.assistant_text
    reply text (is_nil output.tool_calls)
    elim output.tool_calls [
      | [] ↦ pure (
          breaks (record {
            end_payloads = st.payloads ++ reply_payload text;
            stop_reason = output.stop_reason;
            tool_iterations = st.iteration;
          }))
      | call ∷ calls ↦ call_tools max_iter memory_snippets st (call ∷ calls)
    ]

  -- `none` is the end of the fuel or the panic of the detector.
  abbrev pub go_on : (LoopState → Brain (Option LoopEnd)) → TurnResult → Brain (Option LoopEnd)
  go_on rest (continues st) = rest st
  go_on rest (breaks e) = pure (some e)
  go_on rest panics = pure none

  unfoldable pub agent_loop :
      ℕ → ℕ → List Text → List SessionMessage → LoopState → Brain (Option LoopEnd)
  agent_loop zero max_iter memory_snippets prior_history st = pure none
  agent_loop (suc fuel) max_iter memory_snippets prior_history st =
      turn max_iter memory_snippets prior_history st
      >>= go_on (agent_loop fuel max_iter memory_snippets prior_history)

  -- The iterations that the request allows.
  abbrev pub max_iterations : ℕ
  max_iterations = or_else req.max_tool_iterations script.max_tool_iterations

  unfoldable pub finish : ℕ → Option LoopEnd → Brain (Option AgentRunResult)
  finish started_at none = pure none
  finish started_at (some e) = do
    emit_lifecycle script req.run_id run_ended none
    now ← now_ms script
    pure (
        some (record {
          payloads = e.end_payloads;
          meta = record {
            duration_ms = now - started_at;
            provider = script.provider_name;
            model = script.model_name;
            stop_reason = e.stop_reason;
            error = none;
            tool_iterations = e.tool_iterations;
          };
        }))

  -- The fuel is the number of the iterations allowed, and at least one.
  unfoldable pub run_inner : Brain (Option AgentRunResult)
  run_inner = do
    fail_if (is_empty (trim req.prompt)) (invalid_input (literal "prompt must not be empty"))
    started_at ← now_ms script
    emit_lifecycle script req.run_id run_started none
    upsert_session script (record {
      session_id = req.session_id;
      session_key = req.session_key;
      workspace_dir = req.workspace_dir;
    })
    prior_history ← history script
    append_message script (user_message req.prompt)
    memory_snippets ← search script (or_else req.memory_query req.prompt)
    e ← agent_loop (max 1 max_iterations) max_iterations memory_snippets prior_history first_state
    finish started_at e
