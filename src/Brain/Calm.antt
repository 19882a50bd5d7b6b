-- ===== src/Brain/Calm.antt =====
-- The calls in crates/kelvin-brain/src/kelvin_brain.rs that do not ask the model, with what they
-- print.
use kelvinclaw.Prelude.{
  ℕ, ◌≡◌, refl, ◌∙◌, Bool, true, false, String, Option, none, some, List, [], ◌∷◌, ◌++◌, length,
  if◌then◌else◌,
}
use kelvinclaw.Prelude.Text.{Text}
use kelvinclaw.Prelude.Error.{Message, KelvinError, KelvinResult, ok, err}
use kelvinclaw.Prelude.Exec.{fail_if, ◌>>=◌, ◌>>◌, and_then, pure}
use kelvinclaw.Runtime.Types.{AgentRunRequest}
use kelvinclaw.Brain.Services.{
  AgentEventData, LifecyclePhase, ToolPhase, SessionMessage, SessionDescriptor, ToolCall,
  ToolCallInput, ToolCallResult, ToolReceipt, ReceiptLine, Script, World, Brain, ask, now_ms, emit,
  emit_lifecycle, emit_assistant, emit_tool, upsert_session, append_message, history, search,
  call_tool, print_receipt, assistant_message,
}
use kelvinclaw.Brain.ToolCalls.{
  call_receipt, emit_tool_receipt, receipt_line, unknown_tool, failed_tool, returned_tool,
  execute_tool_call, execute_tool_calls, after_call, with_tool,
}
use kelvinclaw.Brain.Receipts.{IsShort, sanitize_receipt_reason-IsShort}
use kelvinclaw.Brain.Agent.{is_reply, reply}

-- How often the model was asked.
unfoldable pub inferences : World → ℕ
inferences w = length w.inputs

-- Every printed receipt has a short reason.
unfoldable pub Receipted : List ReceiptLine → Type 0
Receipted [] = Unit
Receipted (line ∷ lines) = IsShort 515 line.why × Receipted lines

Receipted-append_one :
    (lines : List ReceiptLine) (line : ReceiptLine)
    → Receipted lines
    → IsShort 515 line.why
    → Receipted (lines ++ line ∷ [])
unfolding Receipted
Receipted-append_one [] line h k = (k, tt)
Receipted-append_one (l ∷ lines) line h k = (h.0, Receipted-append_one lines line h.1 k)

-- A call that does not ask the model and prints only receipts with a short reason.
unfoldable pub Calm : {A : Type 0} → Brain A → Type 0
Calm m =
    (w : World)
    → (inferences (m w).1 ≡ inferences w) × (Receipted w.receipts → Receipted (m w).1.receipts)

Calm-bind :
    {A B : Type 0} (m : Brain A) (f : A → Brain B)
    → Calm m
    → ((a : A) → Calm (f a))
    → Calm (m >>= f)
unfolding Calm
Calm-bind {A = A} m f h k w = go (m w) (h w)
  where
    go :
        (r : KelvinResult A × World)
        → (inferences r.1 ≡ inferences w) × (Receipted w.receipts → Receipted r.1.receipts)
        → (inferences (and_then r f).1 ≡ inferences w)
          × (Receipted w.receipts → Receipted (and_then r f).1.receipts)
    go (ok a, v) e = ((k a v).0 ∙ e.0, λ h. (k a v).1 (e.1 h))
    go (err x, v) e = e

ask-Calm : {A : Type 0} (f : ℕ → KelvinResult A) → Calm (ask f)
unfolding Calm ask inferences
ask-Calm f w = (refl, λ h. h)

pub pure-Calm : {A : Type 0} (a : A) → Calm (pure a)
unfolding Calm
pure-Calm a w = (refl, λ h. h)

pub fail_if-Calm : (b : Bool) (e : KelvinError) → Calm (fail_if b e)
unfolding Calm
fail_if-Calm true e w = (refl, λ h. h)
fail_if-Calm false e w = (refl, λ h. h)

emit_tool_receipt-Calm : (script : Script) (r : ToolReceipt) → Calm (emit_tool_receipt script r)
unfolding Calm emit_tool_receipt receipt_line print_receipt inferences
emit_tool_receipt-Calm script r w =
    (refl, λ h. Receipted-append_one w.receipts _ h (sanitize_receipt_reason-IsShort _))

module _ (script : Script) where
  pub now_ms-Calm : Calm (now_ms script)
  unfolding Calm now_ms inferences
  now_ms-Calm w = (refl, λ h. h)

  emit-Calm : (d : AgentEventData) → Calm (emit script d)
  unfolding Calm emit inferences
  emit-Calm d w = (refl, λ h. h)

  pub emit_lifecycle-Calm :
      (run_id : Text) (p : LifecyclePhase) (m : Option Message)
      → Calm (emit_lifecycle script run_id p m)
  unfolding emit_lifecycle
  emit_lifecycle-Calm run_id p m = emit-Calm _

  emit_assistant-Calm : (run_id text : Text) (b : Bool) → Calm (emit_assistant script run_id text b)
  unfolding emit_assistant
  emit_assistant-Calm run_id text b = emit-Calm _

  emit_tool-Calm :
      (run_id name : Text) (p : ToolPhase) (m : Option Message) (o : Option Text)
      → Calm (emit_tool script run_id name p m o)
  unfolding emit_tool
  emit_tool-Calm run_id name p m o = emit-Calm _

  pub append_message-Calm : (m : SessionMessage) → Calm (append_message script m)
  unfolding Calm append_message inferences
  append_message-Calm m w = (refl, λ h. h)

  pub upsert_session-Calm : (d : SessionDescriptor) → Calm (upsert_session script d)
  unfolding upsert_session
  upsert_session-Calm d = ask-Calm _

  pub history-Calm : Calm (history script)
  unfolding history
  history-Calm = ask-Calm _

  pub search-Calm : (query : Text) → Calm (search script query)
  unfolding search
  search-Calm query = ask-Calm _

  call_tool-Calm : (name : Text) (input : ToolCallInput) → Calm (call_tool script name input)
  unfolding call_tool
  call_tool-Calm name input = ask-Calm _

module _ (script : Script) (req : AgentRunRequest) where
  call_receipt-Calm :
      (name : Text) (c : ToolCall) (class : String) (reason : Message) (started : ℕ)
      → Calm (call_receipt script req name c class reason started)
  unfolding call_receipt
  call_receipt-Calm name c class reason started =
      Calm-bind _ _ (now_ms-Calm script) (λ now. emit_tool_receipt-Calm script _)

  unknown_tool-Calm : (c : ToolCall) (started : ℕ) → Calm (unknown_tool script req c started)
  unfolding unknown_tool
  unknown_tool-Calm c started =
      Calm-bind _ _ (emit_tool-Calm script _ _ _ _ _)
        λ _. Calm-bind _ _ (call_receipt-Calm _ _ _ _ _) λ _. pure-Calm _

  failed_tool-Calm :
      (name : Text) (c : ToolCall) (e : KelvinError) (started : ℕ)
      → Calm (failed_tool script req name c e started)
  unfolding failed_tool
  failed_tool-Calm name c e started = Calm-bind _ _ (emit_tool-Calm script _ _ _ _ _) λ _.
      Calm-bind _ _ (append_message-Calm script _)
        λ _. Calm-bind _ _ (call_receipt-Calm _ _ _ _ _) λ _. pure-Calm _

  returned_tool-Calm :
      (name : Text) (c : ToolCall) (r : ToolCallResult) (started : ℕ)
      → Calm (returned_tool script req name c r started)
  unfolding returned_tool
  returned_tool-Calm name c r started = Calm-bind _ _ (emit_tool-Calm script _ _ _ _ _) λ _.
      Calm-bind _ _ (append_message-Calm script _)
        λ _. Calm-bind _ _ (call_receipt-Calm _ _ _ _ _) λ _. pure-Calm _

  after_call-Calm :
      (name : Text) (c : ToolCall) (started : ℕ) (r : KelvinResult ToolCallResult)
      → Calm (after_call script req name c started r)
  after_call-Calm name c started (ok r) = returned_tool-Calm name c r started
  after_call-Calm name c started (err e) = failed_tool-Calm name c e started

  with_tool-Calm :
      (c : ToolCall) (started : ℕ) (o : Option Text) → Calm (with_tool script req c started o)
  with_tool-Calm c started none = unknown_tool-Calm c started
  with_tool-Calm c started (some name) =
      Calm-bind _ _ (call_tool-Calm script _ _) (after_call-Calm name c started)

  execute_tool_call-Calm : (c : ToolCall) → Calm (execute_tool_call script req c)
  unfolding execute_tool_call
  execute_tool_call-Calm c = Calm-bind _ _ (now_ms-Calm script) λ started.
      Calm-bind _ _ (emit_tool-Calm script _ _ _ _ _)
        λ _. with_tool-Calm c started (script.tool_of c.name)

  pub execute_tool_calls-Calm : (cs : List ToolCall) → Calm (execute_tool_calls script req cs)
  unfolding execute_tool_calls
  execute_tool_calls-Calm [] = pure-Calm _
  execute_tool_calls-Calm (c ∷ cs) =
      Calm-bind _ _ (execute_tool_call-Calm c)
        λ one. Calm-bind _ _ (execute_tool_calls-Calm cs) λ more. pure-Calm _

  pub reply-Calm : (text : Text) (b : Bool) → Calm (reply script req text b)
  unfolding reply
  reply-Calm text b = go (is_reply text)
    where
      go :
          (c : Bool)
          → Calm (
              if c
              then (emit_assistant script req.run_id text b
                  >> append_message script (assistant_message text))
              else pure tt)
      go true = Calm-bind _ _ (emit_assistant-Calm script _ _ _) (λ _. append_message-Calm script _)
      go false = pure-Calm _
