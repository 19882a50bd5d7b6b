-- ===== src/Brain/Iterations.antt =====
-- That the loop of crates/kelvin-brain/src/kelvin_brain.rs ends, and after how many inferences.
use kelvinclaw.Prelude.{
  ℕ, zero, suc, ◌+◌, ◌≤◌, ◌<◌, ◌≡◌, ◌≢◌, refl, arith, max, Option, none, some, List, [], ◌∷◌, ◌++◌,
  length, length-append,
}
use kelvinclaw.Prelude.Text.{Text, trim, is_empty}
use kelvinclaw.Prelude.Error.{Message, KelvinResult, ok, err, invalid_input, literal}
use kelvinclaw.Prelude.Exec.{◌>>=◌, and_then, pure, fail_if}
use kelvinclaw.Runtime.Types.{AgentRunRequest, AgentPayload, AgentRunResult}
use kelvinclaw.Brain.LoopDetector.{LoopDetectionResult, ToolLoopDetector, new_detector}
use kelvinclaw.Brain.LoopDetector.Repeats.{record_call_answers}
use kelvinclaw.Brain.Services.{
  SessionMessage, ToolCall, ModelInput, ModelOutput, Script, World, Brain, history, infer,
}
use kelvinclaw.Brain.Calm.{
  inferences, Calm, now_ms-Calm, emit_lifecycle-Calm, append_message-Calm, upsert_session-Calm,
  history-Calm, pure-Calm, fail_if-Calm, search-Calm, execute_tool_calls-Calm, reply-Calm,
}
use kelvinclaw.Brain.Agent.{
  LoopState, LoopEnd, TurnResult, continues, breaks, panics, conclude, force_reason, after_verdict,
  call_tools, turn, go_on, agent_loop, first_state, max_iterations, finish, run_inner, recorded,
  reply_payload,
}

-- What holds of the value and the state after a call; after an error, only that the model was
-- asked at most so often.
abbrev Outcome : {A : Type 0} → (A → World → Type 0) → ℕ → KelvinResult A × World → Type 0
Outcome R k (ok a, v) = R a v
Outcome R k (err e, v) = inferences v ≤ k

unfoldable Ends : {A : Type 0} → (A → World → Type 0) → ℕ → Brain A → World → Type 0
Ends R k m w = Outcome R k (m w)

module _ {A B : Type 0} (R : B → World → Type 0) (k : ℕ) where
  Ends-bind :
      (Q : A → World → Type 0) (m : Brain A) (f : A → Brain B) (w : World)
      → Ends Q k m w
      → ((a : A) (v : World) → Q a v → Ends R k (f a) v)
      → Ends R k (m >>= f) w
  unfolding Ends
  Ends-bind Q m f w h c = go (m w) h
    where
      go : (r : KelvinResult A × World) → Outcome Q k r → Outcome R k (and_then r f)
      go (ok a, v) h = c a v h
      go (err e, v) h = h

  Ends-Calm :
      (n : ℕ) (m : Brain A) (f : A → Brain B) (w : World)
      → Calm m
      → n ≤ k
      → inferences w ≤ n
      → ((a : A) (v : World) → inferences v ≤ n → Ends R k (f a) v)
      → Ends R k (m >>= f) w
  unfolding Ends Calm
  Ends-Calm n m f w h l i c = go (m w) (h w).0
    where
      go : (r : KelvinResult A × World) → inferences r.1 ≡ inferences w → Outcome R k (and_then r f)
      go (ok a, v) e = c a v (omega arith)
      go (err x, v) e = omega arith

Ends-pure :
    {A : Type 0} (R : A → World → Type 0) (k : ℕ) (a : A) (w : World) → R a w → Ends R k (pure a) w
unfolding Ends
Ends-pure R k a w h = h

module _ (script : Script) {B : Type 0} (R : B → World → Type 0) (k : ℕ) where
  Ends-infer :
      (n : ℕ) (input : ModelInput) (f : ModelOutput → Brain B) (w : World)
      → suc n ≤ k
      → inferences w ≤ n
      → ((o : ModelOutput) (v : World) → inferences v ≤ suc n → Ends R k (f o) v)
      → Ends R k (infer script input >>= f) w
  unfolding Ends infer inferences
  Ends-infer n input f w l i c = go (script.infer w.asked input)
    where
      v : World
      v = record w { asked = suc w.asked; inputs = w.inputs ++ input ∷ [] }

      asked_once : length v.inputs ≤ suc n
      asked_once = ground (arith, length-append w.inputs (input ∷ []))

      go : (r : KelvinResult ModelOutput) → Outcome R k (and_then (r, v) f)
      go (ok o) = c o v asked_once
      go (err e) = omega (arith, asked_once)

module _ (script : Script) (req : AgentRunRequest) (max_iter : ℕ) where
  -- What a turn leaves that began with so many inferences at most, in this state.
  abbrev TurnEnds : ℕ → LoopState → TurnResult → World → Type 0
  TurnEnds n st (continues next) v =
      (inferences v ≤ suc n)
      × (next.iteration ≡ suc st.iteration)
      × (next.iteration < max_iter)
      × (1 < next.detector.repeat_threshold)
  TurnEnds n st (breaks e) v = (inferences v ≤ suc (suc n)) × (e.tool_iterations ≤ suc st.iteration)
  TurnEnds n st panics v = ⊥

  module _ (n k : ℕ) (st : LoopState) (room : suc (suc n) ≤ k) (memory_snippets : List Text) where
    conclude-Ends :
        (reason : Message) (payloads : List AgentPayload) (w : World)
        → inferences w ≤ suc n
        → Ends
            (TurnEnds n st)
            k
            (conclude script req reason memory_snippets (st.iteration + 1) payloads)
            w
    unfolding conclude
    conclude-Ends reason payloads w i =
        Ends-Calm _ k (suc n) _ _ w (emit_lifecycle-Calm script _ _ _) (omega arith) i λ _ w1 i1.
          Ends-Calm _ k (suc n) _ _ w1 (history-Calm script) (omega arith) i1 λ past w2 i2.
            Ends-infer script _ k (suc n) _ _ w2 room i2 λ o w3 i3.
              Ends-Calm _ k (suc (suc n)) _ _ w3 (reply-Calm script req _ _) room i3
                λ _ w4 i4. Ends-pure _ k _ w4 (i4, omega arith)

    after_verdict-Ends :
        (payloads : List AgentPayload) (d : ToolLoopDetector) (o : Option LoopDetectionResult)
        (w : World)
        → o ≢ none
        → 1 < d.repeat_threshold
        → inferences w ≤ suc n
        → Ends
            (TurnEnds n st)
            k
            (after_verdict script req max_iter memory_snippets (st.iteration + 1) payloads d o)
            w
    after_verdict-Ends payloads d none w t h i = absurd (t refl)
    after_verdict-Ends payloads d (some detection) w t h i =
        go (force_reason script req max_iter (st.iteration + 1) detection) (unforced detection)
      where
        unforced :
            (r : LoopDetectionResult)
            → force_reason script req max_iter (st.iteration + 1) r ≡ none
            → st.iteration + 1 < max_iter
        unforced r e = ground arith

        go :
            (o : Option Message)
            → (o ≡ none → st.iteration + 1 < max_iter)
            → Ends
                (TurnEnds n st)
                k
                (elim o as (λ _. Brain TurnResult) [
                  | some reason ↦
                      conclude script req reason memory_snippets (st.iteration + 1) payloads
                  | none ↦ pure (
                      continues (record {
                        iteration = st.iteration + 1;
                        payloads = payloads;
                        detector = d;
                      }))
                ])
                w
        go (some reason) u = conclude-Ends reason payloads w i
        go none u = Ends-pure _ k _ w (i, omega arith, u refl, h)

    call_tools-Ends :
        (calls : List ToolCall) (w : World)
        → 1 < st.detector.repeat_threshold
        → inferences w ≤ suc n
        → Ends (TurnEnds n st) k (call_tools script req max_iter memory_snippets st calls) w
    unfolding call_tools
    call_tools-Ends calls w h i =
        Ends-Calm _ k (suc n) _ _ w (execute_tool_calls-Calm script req calls) (omega arith) i
          λ results w1 i1.
            Ends-Calm _ k (suc n) _ _ w1 (now_ms-Calm script) (omega arith) i1 λ now w2 i2.
              let p = record_call_answers st.detector (recorded script req now results) h in
              after_verdict-Ends _ _ _ w2 p.0 (omega (arith, p.1)) i2

    turn-Ends :
        (prior_history : List SessionMessage) (w : World)
        → 1 < st.detector.repeat_threshold
        → inferences w ≤ n
        → Ends (TurnEnds n st) k (turn script req max_iter memory_snippets prior_history st) w
    unfolding turn
    turn-Ends prior_history w h i =
        Ends-Calm _ k n _ _ w (turn_history-Calm st.iteration) (omega arith) i λ past w1 i1.
          Ends-infer script _ k n _ _ w1 (omega arith) i1 λ o w2 i2.
            Ends-Calm _ k (suc n) _ _ w2 (reply-Calm script req _ _) (omega arith) i2
              λ _ w3 i3. by_calls o o.tool_calls w3 i3
      where
        turn_history-Calm :
            (m : ℕ)
            → Calm (elim m as (λ _. Brain (List SessionMessage)) [
              | zero ↦ pure prior_history
              | suc j ↦ history script
            ])
        turn_history-Calm zero = pure-Calm prior_history
        turn_history-Calm (suc m) = history-Calm script

        by_calls :
            (o : ModelOutput) (calls : List ToolCall) (v : World)
            → inferences v ≤ suc n
            → Ends
                (TurnEnds n st)
                k
                (elim calls as (λ _. Brain TurnResult) [
                  | [] ↦ pure (
                      breaks (record {
                        end_payloads = st.payloads ++ reply_payload (trim o.assistant_text);
                        stop_reason = o.stop_reason;
                        tool_iterations = st.iteration;
                      }))
                  | call ∷ more ↦ call_tools script req max_iter memory_snippets st (call ∷ more)
                ])
                v
        by_calls o [] v j = Ends-pure _ k _ v (omega arith, omega arith)
        by_calls o (call ∷ more) v j = call_tools-Ends (call ∷ more) v h j

  -- What the loop leaves that began with so many inferences.
  abbrev LoopEnds : ℕ → Option LoopEnd → World → Type 0
  LoopEnds k none v = ⊥
  LoopEnds k (some e) v = (inferences v ≤ k) × (e.tool_iterations ≤ max 1 max_iter)

  agent_loop-Ends :
      (start fuel : ℕ) (memory_snippets : List Text) (prior_history : List SessionMessage)
      (st : LoopState) (w : World)
      → fuel + st.iteration ≡ max 1 max_iter
      → st.iteration < max 1 max_iter
      → 1 < st.detector.repeat_threshold
      → inferences w ≤ start + st.iteration
      → Ends
          (LoopEnds (start + max 1 max_iter + 1))
          (start + max 1 max_iter + 1)
          (agent_loop script req fuel max_iter memory_snippets prior_history st)
          w
  unfolding agent_loop
  agent_loop-Ends start zero memory_snippets prior_history st w f l h i = absurd (omega arith)
  agent_loop-Ends start (suc fuel) memory_snippets prior_history st w f l h i =
      Ends-bind _ _ (TurnEnds (start + st.iteration) st)
        (turn script req max_iter memory_snippets prior_history st)
        (go_on script req (agent_loop script req fuel max_iter memory_snippets prior_history)) w
        (turn-Ends (start + st.iteration) (start + max 1 max_iter + 1) st (omega arith)
          memory_snippets prior_history w h i)
        (next (λ more v. agent_loop-Ends start fuel memory_snippets prior_history more v))
    where
      again : LoopState → World → Type 0
      again more v =
          fuel + more.iteration ≡ max 1 max_iter
          → more.iteration < max 1 max_iter
          → 1 < more.detector.repeat_threshold
          → inferences v ≤ start + more.iteration
          → Ends (LoopEnds (start + max 1 max_iter + 1)) (start + max 1 max_iter + 1)
              (agent_loop script req fuel max_iter memory_snippets prior_history more) v

      next :
          ((more : LoopState) (v : World) → again more v)
          → (r : TurnResult) (v : World) → TurnEnds (start + st.iteration) st r v
          → Ends
              (LoopEnds (start + max 1 max_iter + 1))
              (start + max 1 max_iter + 1)
              (go_on script req
                (agent_loop script req fuel max_iter memory_snippets prior_history)
                r)
              v
      next rec (continues more) v q =
          rec more v (omega (arith, q)) (omega (arith, q)) q.3 (omega (arith, q))
      next rec (breaks e) v q = Ends-pure _ _ (some e) v (omega (arith, q), omega (arith, q))
      next rec panics v q = absurd q

-- What is said of the end of a run, from the number of inferences before it and the iterations that
-- are allowed.
abbrev pub RunEnds : ℕ → ℕ → KelvinResult (Option AgentRunResult) × World → Type 0
RunEnds asked allowed (ok none, v) = ⊥
RunEnds asked allowed (ok (some result), v) =
    (inferences v ≤ asked + allowed + 1) × (result.meta.tool_iterations ≤ allowed)
RunEnds asked allowed (err e, v) = inferences v ≤ asked + allowed + 1

module _ (script : Script) (req : AgentRunRequest) (w : World) where
  abbrev allowed : ℕ
  allowed = max 1 (max_iterations script req)

  abbrev bound : ℕ
  bound = inferences w + allowed + 1

  abbrev Finished : Option AgentRunResult → World → Type 0
  Finished none v = ⊥
  Finished (some result) v = (inferences v ≤ bound) × (result.meta.tool_iterations ≤ allowed)

  finish-Ends :
      (started_at : ℕ) (o : Option LoopEnd) (v : World)
      → LoopEnds script req (max_iterations script req) bound o v
      → Ends Finished bound (finish script req started_at o) v
  unfolding finish
  finish-Ends started_at none v h = absurd h
  finish-Ends started_at (some e) v h =
      Ends-Calm _ bound bound _ _ v (emit_lifecycle-Calm script _ _ _) (omega arith) h.0 λ _ v1 i1.
        Ends-Calm _ bound bound _ _ v1 (now_ms-Calm script) (omega arith) i1
          λ now v2 i2. Ends-pure _ bound _ v2 (i2, h.1)

  threshold : 1 < new_detector.repeat_threshold
  unfolding new_detector
  threshold = omega arith

  run_inner-Ends : Ends Finished bound (run_inner script req) w
  unfolding run_inner
  run_inner-Ends =
      let n = inferences w in
      Ends-Calm _ bound n
        (fail_if (is_empty (trim req.prompt)) (invalid_input (literal "prompt must not be empty")))
        _ w
        (fail_if-Calm (is_empty (trim req.prompt))
          (invalid_input (literal "prompt must not be empty")))
        (omega arith) (omega arith)
        λ _ w0 i0.
          Ends-Calm _ bound n _ _ w0 (now_ms-Calm script) (omega arith) i0 λ started_at w1 i1.
            Ends-Calm _ bound n _ _ w1 (emit_lifecycle-Calm script _ _ _) (omega arith) i1
              λ _ w2 i2.
                Ends-Calm _ bound n _ _ w2 (upsert_session-Calm script _) (omega arith) i2
                  λ _ w3 i3.
                    Ends-Calm _ bound n _ _ w3 (history-Calm script) (omega arith) i3 λ past w4 i4.
                      Ends-Calm _ bound n _ _ w4 (append_message-Calm script _) (omega arith) i4
                        λ _ w5 i5.
                          Ends-Calm _ bound n _ _ w5 (search-Calm script _) (omega arith) i5
                            λ hits w6 i6.
                              Ends-bind _ bound
                                (LoopEnds script req (max_iterations script req) bound) _ _ w6
                                (agent_loop-Ends script req (max_iterations script req) n allowed
                                  hits past first_state w6 (omega arith) (omega arith) threshold
                                  (omega arith))
                                (finish-Ends started_at)

  -- A run always ends, whatever the model, the tools and the stores answer: it returns a result or
  -- an error, the loop neither runs out of the fuel of one turn for each iteration allowed nor stops
  -- in the detector, the model is asked at most once more than there are iterations allowed, and
  -- the result counts no more iterations than that. At least one is always allowed.
  pub run_inner-RunEnds : RunEnds (inferences w) allowed (run_inner script req w)
  unfolding Ends
  run_inner-RunEnds = go (run_inner script req w) run_inner-Ends
    where
      go :
          (r : KelvinResult (Option AgentRunResult) × World)
          → Outcome Finished bound r
          → RunEnds (inferences w) allowed r
      go (ok none, v) h = h
      go (ok (some result), v) h = h
      go (err e, v) h = h
