-- ===== src/Brain/Printed.antt =====
-- The receipts that a run of crates/kelvin-brain/src/kelvin_brain.rs prints.
use kelvinclaw.Prelude.{ℕ, zero, suc, Option, none, some, List, [], ◌∷◌, ◌++◌}
use kelvinclaw.Prelude.Text.{Text, trim, is_empty}
use kelvinclaw.Prelude.Error.{Message, KelvinResult, ok, err, invalid_input, literal}
use kelvinclaw.Prelude.Exec.{◌>>=◌, and_then, pure, fail_if}
use kelvinclaw.Runtime.Types.{AgentRunRequest, AgentPayload}
use kelvinclaw.Brain.LoopDetector.{LoopDetectionResult, ToolLoopDetector}
use kelvinclaw.Brain.Services.{
  SessionMessage, ToolCall, ModelInput, ModelOutput, Script, World, Brain, history, infer,
}
use kelvinclaw.Brain.Calm.{
  Receipted, Calm, now_ms-Calm, emit_lifecycle-Calm, append_message-Calm, upsert_session-Calm,
  history-Calm, fail_if-Calm, search-Calm, execute_tool_calls-Calm, reply-Calm,
}
use kelvinclaw.Brain.Agent.{
  LoopState, LoopEnd, TurnResult, continues, breaks, panics, conclude, force_reason, after_verdict,
  call_tools, turn, go_on, agent_loop, finish, run_inner, reply_payload,
}

-- A call after which every printed receipt has a short reason if it was so before.
unfoldable pub KeepsReceipted : {A : Type 0} → Brain A → Type 0
KeepsReceipted m = (w : World) → Receipted w.receipts → Receipted (m w).1.receipts

KeepsReceipted-bind :
    {A B : Type 0} (m : Brain A) (f : A → Brain B)
    → KeepsReceipted m
    → ((a : A) → KeepsReceipted (f a))
    → KeepsReceipted (m >>= f)
unfolding KeepsReceipted
KeepsReceipted-bind {A = A} m f h k w p = go (m w) (h w p)
  where
    go : (r : KelvinResult A × World) → Receipted r.1.receipts → Receipted (and_then r f).1.receipts
    go (ok a, v) q = k a v q
    go (err e, v) q = q

of_Calm : {A : Type 0} (m : Brain A) → Calm m → KeepsReceipted m
unfolding KeepsReceipted Calm
of_Calm m h w = (h w).1

KeepsReceipted-Calm :
    {A B : Type 0} (m : Brain A) (f : A → Brain B)
    → Calm m
    → ((a : A) → KeepsReceipted (f a))
    → KeepsReceipted (m >>= f)
KeepsReceipted-Calm m f h k = KeepsReceipted-bind m f (of_Calm m h) k

KeepsReceipted-pure : {A : Type 0} (a : A) → KeepsReceipted (pure a)
unfolding KeepsReceipted
KeepsReceipted-pure a w h = h

module _ (script : Script) (req : AgentRunRequest) where
  infer-KeepsReceipted : (input : ModelInput) → KeepsReceipted (infer script input)
  unfolding KeepsReceipted infer
  infer-KeepsReceipted input w h = h

  conclude-KeepsReceipted :
      (reason : Message) (snippets : List Text) (iteration : ℕ) (payloads : List AgentPayload)
      → KeepsReceipted (conclude script req reason snippets iteration payloads)
  unfolding conclude
  conclude-KeepsReceipted reason snippets iteration payloads =
      KeepsReceipted-Calm _ _ (emit_lifecycle-Calm script _ _ _) λ _.
        KeepsReceipted-Calm _ _ (history-Calm script) λ past.
          KeepsReceipted-bind _ _ (infer-KeepsReceipted _)
            λ o. KeepsReceipted-Calm _ _ (reply-Calm script req _ _) λ _. KeepsReceipted-pure _

  after_verdict-KeepsReceipted :
      (max_iter : ℕ) (snippets : List Text) (iteration : ℕ) (payloads : List AgentPayload)
      (d : ToolLoopDetector) (o : Option LoopDetectionResult)
      → KeepsReceipted (after_verdict script req max_iter snippets iteration payloads d o)
  after_verdict-KeepsReceipted max_iter snippets iteration payloads d none = KeepsReceipted-pure _
  after_verdict-KeepsReceipted max_iter snippets iteration payloads d (some detection) =
      go (force_reason script req max_iter iteration detection)
    where
      go :
          (o : Option Message)
          → KeepsReceipted (elim o as (λ _. Brain TurnResult) [
            | some reason ↦ conclude script req reason snippets iteration payloads
            | none ↦
                pure
                  (continues (record { iteration = iteration; payloads = payloads; detector = d }))
          ])
      go (some reason) = conclude-KeepsReceipted reason snippets iteration payloads
      go none = KeepsReceipted-pure _

  call_tools-KeepsReceipted :
      (max_iter : ℕ) (snippets : List Text) (st : LoopState) (calls : List ToolCall)
      → KeepsReceipted (call_tools script req max_iter snippets st calls)
  unfolding call_tools
  call_tools-KeepsReceipted max_iter snippets st calls =
      KeepsReceipted-Calm _ _ (execute_tool_calls-Calm script req calls) λ results.
        KeepsReceipted-Calm _ _ (now_ms-Calm script)
          λ now. after_verdict-KeepsReceipted max_iter snippets _ _ _ _

  turn-KeepsReceipted :
      (max_iter : ℕ) (snippets : List Text) (prior_history : List SessionMessage) (st : LoopState)
      → KeepsReceipted (turn script req max_iter snippets prior_history st)
  unfolding turn
  turn-KeepsReceipted max_iter snippets prior_history st =
      KeepsReceipted-bind _ _ (past st.iteration) λ past.
        KeepsReceipted-bind _ _ (infer-KeepsReceipted _)
          λ o. KeepsReceipted-Calm _ _ (reply-Calm script req _ _) λ _. by_calls o o.tool_calls
    where
      past :
          (n : ℕ)
          → KeepsReceipted (elim n as (λ _. Brain (List SessionMessage)) [
            | zero ↦ pure prior_history
            | suc j ↦ history script
          ])
      past zero = KeepsReceipted-pure prior_history
      past (suc n) = of_Calm (history script) (history-Calm script)

      by_calls :
          (o : ModelOutput) (calls : List ToolCall)
          → KeepsReceipted (elim calls as (λ _. Brain TurnResult) [
            | [] ↦ pure (
                breaks (record {
                  end_payloads = st.payloads ++ reply_payload (trim o.assistant_text);
                  stop_reason = o.stop_reason;
                  tool_iterations = st.iteration;
                }))
            | call ∷ more ↦ call_tools script req max_iter snippets st (call ∷ more)
          ])
      by_calls o [] = KeepsReceipted-pure _
      by_calls o (call ∷ more) = call_tools-KeepsReceipted max_iter snippets st (call ∷ more)

  agent_loop-KeepsReceipted :
      (fuel max_iter : ℕ) (snippets : List Text) (prior_history : List SessionMessage)
      (st : LoopState)
      → KeepsReceipted (agent_loop script req fuel max_iter snippets prior_history st)
  unfolding agent_loop
  agent_loop-KeepsReceipted zero max_iter snippets prior_history st = KeepsReceipted-pure none
  agent_loop-KeepsReceipted (suc fuel) max_iter snippets prior_history st =
      KeepsReceipted-bind _ _ (turn-KeepsReceipted max_iter snippets prior_history st)
        (next (agent_loop-KeepsReceipted fuel max_iter snippets prior_history))
    where
      next :
          ((st : LoopState)
            → KeepsReceipted (agent_loop script req fuel max_iter snippets prior_history st))
          → (r : TurnResult)
          → KeepsReceipted
              (go_on script req (agent_loop script req fuel max_iter snippets prior_history) r)
      next rest (continues st) = rest st
      next rest (breaks e) = KeepsReceipted-pure (some e)
      next rest panics = KeepsReceipted-pure none

  finish-KeepsReceipted :
      (started_at : ℕ) (o : Option LoopEnd) → KeepsReceipted (finish script req started_at o)
  unfolding finish
  finish-KeepsReceipted started_at none = KeepsReceipted-pure none
  finish-KeepsReceipted started_at (some e) =
      KeepsReceipted-Calm _ _ (emit_lifecycle-Calm script _ _ _)
        λ _. KeepsReceipted-Calm _ _ (now_ms-Calm script) λ now. KeepsReceipted-pure _

  run_inner-KeepsReceipted : KeepsReceipted (run_inner script req)
  unfolding run_inner
  run_inner-KeepsReceipted =
      KeepsReceipted-Calm
        (fail_if (is_empty (trim req.prompt)) (invalid_input (literal "prompt must not be empty")))
        _
        (fail_if-Calm (is_empty (trim req.prompt))
          (invalid_input (literal "prompt must not be empty")))
        λ _. KeepsReceipted-Calm _ _ (now_ms-Calm script) λ started_at.
          KeepsReceipted-Calm _ _ (emit_lifecycle-Calm script _ _ _) λ _.
            KeepsReceipted-Calm _ _ (upsert_session-Calm script _) λ _.
              KeepsReceipted-Calm _ _ (history-Calm script) λ past.
                KeepsReceipted-Calm _ _ (append_message-Calm script _) λ _.
                  KeepsReceipted-Calm _ _ (search-Calm script _) λ hits.
                    KeepsReceipted-bind _ _ (agent_loop-KeepsReceipted _ _ hits past _)
                      (finish-KeepsReceipted started_at)

  -- Where the receipts printed before a run have reasons without control characters and of at most
  -- 512 characters and three dots, so have all receipts after it, however the run ends and whatever
  -- reasons the tools and the model have given.
  pub run_inner-Receipted :
      (w : World) → Receipted w.receipts → Receipted (run_inner script req w).1.receipts
  unfolding KeepsReceipted
  run_inner-Receipted w h = run_inner-KeepsReceipted w h
