-- ===== src/Brain/Services.antt =====
-- What KelvinBrain of crates/kelvin-brain/src/kelvin_brain.rs calls: the clock, the events, the
-- session store, the memory, the model and the tools. Each question has a number, and a script
-- answers it; what was asked of the model, emitted and stored is kept.
use kelvinclaw.Prelude.{ℕ, suc, ◌+◌, ◌%◌, ◌^◌, Bool, Option, none, some, List, [], ◌∷◌, ◌++◌}
use kelvinclaw.Prelude.Text.{Text}
use kelvinclaw.Prelude.Json.{Json, object, nil}
use kelvinclaw.Prelude.Error.{Message, with_text, literal, KelvinError, KelvinResult, ok, err}
use kelvinclaw.Prelude.Exec.{Exec}

pub data LifecyclePhase : Type 0 where
  run_started : LifecyclePhase
  run_ended : LifecyclePhase
  run_failed : LifecyclePhase
  run_warned : LifecyclePhase

pub data ToolPhase : Type 0 where
  tool_started : ToolPhase
  tool_ended : ToolPhase
  tool_failed : ToolPhase

-- Without the times.
pub data AgentEventData : Type 0 where
  lifecycle : Text → LifecyclePhase → Option Message → AgentEventData
  assistant_delta : Text → Text → Bool → AgentEventData
  tool_event : Text → Text → ToolPhase → Option Message → Option Text → AgentEventData

pub record AgentEvent : Type 0 where
  pub seq : ℕ
  pub data_of : AgentEventData

pub data SessionRole : Type 0 where
  user : SessionRole
  assistant : SessionRole
  tool : SessionRole
  system : SessionRole

pub record SessionMessage : Type 0 where
  pub role : SessionRole
  pub content : Message
  pub metadata : Json

-- A text that is not formatted.
abbrev pub plain : Text → Message
plain t = with_text (literal "{}") t

abbrev pub user_message : Text → SessionMessage
user_message content = record { role = user; content = plain content; metadata = object nil }

abbrev pub assistant_message : Text → SessionMessage
assistant_message content = record {
  role = assistant;
  content = plain content;
  metadata = object nil;
}

abbrev pub tool_message : Message → Json → SessionMessage
tool_message content metadata = record { role = tool; content = content; metadata = metadata }

pub record SessionDescriptor : Type 0 where
  pub session_id : Text
  pub session_key : Text
  pub workspace_dir : Text

pub record ToolCall : Type 0 where
  pub id : Text
  pub name : Text
  pub arguments : Json

pub record ToolDefinition : Type 0 where
  pub name : Text
  pub description : Text
  pub input_schema : Json

pub record ModelInput : Type 0 where
  pub run_id : Text
  pub session_id : Text
  pub system_prompt : Text
  pub user_prompt : Text
  pub memory_snippets : List Text
  pub history : List SessionMessage
  pub tools : List ToolDefinition

-- Without the token usage, which the brain does not read.
pub record ModelOutput : Type 0 where
  pub assistant_text : Text
  pub stop_reason : Option Text
  pub tool_calls : List ToolCall

pub record ToolCallInput : Type 0 where
  pub run_id : Text
  pub session_id : Text
  pub workspace_dir : Text
  pub arguments : Json

pub record ToolCallResult : Type 0 where
  pub summary : Text
  pub output : Option Text
  pub visible_text : Option Text
  pub is_error : Bool

-- What `emit_tool_receipt` is given.
pub record ToolReceipt : Type 0 where
  pub run_id : Text
  pub session_id : Text
  pub tool_name : Text
  pub tool_call_id : Text
  pub result_class : Text
  pub reason : Message
  pub latency_ms : ℕ

-- The line that `emit_tool_receipt` prints.
pub record ReceiptLine : Type 0 where
  pub run_id : Text
  pub session_id : Text
  pub tool_name : Text
  pub tool_call_id : Text
  pub why : Text
  pub result_class : Text
  pub latency_ms : ℕ

-- The answers, by the number of the question. A tool is known by its name.
pub record Script : Type 0 where
  pub clock : ℕ → ℕ
  pub emit_error : ℕ → Option KelvinError
  pub store_error : ℕ → Option KelvinError
  pub history : ℕ → KelvinResult (List SessionMessage)
  -- the snippets of `memory.search`, as the source prints them
  pub memory : ℕ → Text → KelvinResult (List Text)
  pub infer : ℕ → ModelInput → KelvinResult ModelOutput
  pub tool_of : Text → Option Text
  pub call_tool : ℕ → Text → ToolCallInput → KelvinResult ToolCallResult
  -- `MAX_TOOL_ITERATIONS` or what `with_max_tool_iterations` was given
  pub max_tool_iterations : ℕ
  pub definitions : List ToolDefinition
  pub system_prompt : Text
  pub provider_name : Text
  pub model_name : Text
  -- `canonical_args` of the loop detector
  pub canonical_args : Json → Text
  -- the text of a formatted message
  pub format : Message → Text

pub record World : Type 0 where
  pub asked : ℕ
  pub seq : ℕ
  pub events : List AgentEvent
  pub messages : List SessionMessage
  pub receipts : List ReceiptLine
  pub inputs : List ModelInput

abbrev pub Brain : Type 0 → Type 0
Brain A = Exec World A

abbrev pub next_question : World → World
next_question w = record w { asked = suc w.asked }

-- A question whose answer changes nothing else.
unfoldable pub ask : {A : Type 0} → (ℕ → KelvinResult A) → Brain A
ask f w = (f w.asked, next_question w)

abbrev pub refused : Option KelvinError → KelvinResult (Unit {0})
refused none = ok tt
refused (some e) = err e

module _ (script : Script) where
  unfoldable pub now_ms : Brain ℕ
  now_ms w = (ok (script.clock w.asked), next_question w)

  -- `next_seq` and `events.emit`
  unfoldable pub emit : AgentEventData → Brain (Unit {0})
  emit d w =
      let seq = (w.seq + 1) % 2 ^ 64 in
      (
        refused (script.emit_error w.asked),
        record (next_question w) {
          seq = seq;
          events = w.events ++ record { seq = seq; data_of = d } ∷ [];
        },
      )

  unfoldable pub emit_lifecycle : Text → LifecyclePhase → Option Message → Brain (Unit {0})
  emit_lifecycle run_id phase message = emit (lifecycle run_id phase message)

  unfoldable pub emit_assistant : Text → Text → Bool → Brain (Unit {0})
  emit_assistant run_id text final_chunk = emit (assistant_delta run_id text final_chunk)

  unfoldable pub emit_tool :
      Text → Text → ToolPhase → Option Message → Option Text → Brain (Unit {0})
  emit_tool run_id tool_name phase summary output =
      emit (tool_event run_id tool_name phase summary output)

  unfoldable pub upsert_session : SessionDescriptor → Brain (Unit {0})
  upsert_session d = ask (λ n. refused (script.store_error n))

  unfoldable pub append_message : SessionMessage → Brain (Unit {0})
  append_message m w = (
    refused (script.store_error w.asked),
    record (next_question w) { messages = w.messages ++ m ∷ [] },
  )

  unfoldable pub history : Brain (List SessionMessage)
  history = ask script.history

  abbrev or_default : KelvinResult (List Text) → List Text
  or_default (ok hits) = hits
  or_default (err e) = []

  -- `memory.search(…).await.unwrap_or_default()`
  unfoldable pub search : Text → Brain (List Text)
  search query = ask (λ n. ok (or_default (script.memory n query)))

  unfoldable pub infer : ModelInput → Brain ModelOutput
  infer input w =
      (script.infer w.asked input, record (next_question w) { inputs = w.inputs ++ input ∷ [] })

  -- An error of a tool does not end the run.
  unfoldable pub call_tool : Text → ToolCallInput → Brain (KelvinResult ToolCallResult)
  call_tool name input = ask (λ n. ok (script.call_tool n name input))

unfoldable pub print_receipt : ReceiptLine → Brain (Unit {0})
print_receipt r w = (ok tt, record w { receipts = w.receipts ++ r ∷ [] })
