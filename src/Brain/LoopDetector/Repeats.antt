-- ===== src/Brain/LoopDetector/Repeats.antt =====
-- What the detector finds in a run of an agent.
use kelvinclaw.Prelude.{
  ◌<◌, Bool, true, false, ◌&&◌, ◌≡◌, ◌≢◌, ◌↔◌, refl, arith, Option, none, some, List, [], ◌∷◌,
  and-true,
}
use kelvinclaw.Prelude.Text.{Text, text_eq_iff}
use kelvinclaw.Brain.LoopDetector.{
  RecordedToolCall, LoopDetectionResult, no_issue, suspected_loop, ToolLoopDetector, new_detector,
  same_calls, is_same_as_last, record_call, verdict,
}

-- The detector of a run, after the rounds of calls listed, the newest first.
unfoldable pub after : List (List RecordedToolCall) → ToolLoopDetector
unfolding new_detector record_call
after [] = new_detector
after (calls ∷ rounds) = (record_call (after rounds) calls).1

-- The answer of the newest round.
unfoldable pub answer :
    List RecordedToolCall → List (List RecordedToolCall) → Option LoopDetectionResult
unfolding after record_call
answer calls rounds = (record_call (after rounds) calls).0

unfoldable pub is_suspected : Option LoopDetectionResult → Bool
is_suspected none = false
is_suspected (some no_issue) = false
is_suspected (some (suspected_loop _ _ _)) = true

-- What two rounds are compared by.
abbrev pub keys : List RecordedToolCall → List (Text × Text)
keys [] = []
keys (c ∷ cs) = (c.tool_name, c.input_hash) ∷ keys cs

same_calls_iff : (xs ys : List RecordedToolCall) → (same_calls xs ys ≡ true) ↔ (keys xs ≡ keys ys)
unfolding same_calls
same_calls_iff [] [] = ground arith
same_calls_iff [] (y ∷ ys) = ground arith
same_calls_iff (x ∷ xs) [] = ground arith
same_calls_iff (x ∷ xs) (y ∷ ys) = ground (
  arith,
  same_calls_iff xs ys,
  text_eq_iff x.tool_name y.tool_name,
  text_eq_iff x.input_hash y.input_hash,
)

is_same_iff :
    (xs ys : List RecordedToolCall)
    → (is_same_as_last xs ys ≡ true) ↔ ((xs ≢ []) × (keys xs ≡ keys ys))
unfolding is_same_as_last
is_same_iff [] ys = (λ h. cc, λ h. absurd (h.0 refl))
is_same_iff (x ∷ xs) ys =
    (λ h. (λ e. cc, (same_calls_iff (x ∷ xs) ys).0 h), λ h. (same_calls_iff (x ∷ xs) ys).1 h.1)

-- after a round, the next one is never equal to it if it is empty
same-empty : (xs : List RecordedToolCall) → is_same_as_last xs [] ≡ false
unfolding is_same_as_last same_calls
same-empty [] = refl
same-empty (x ∷ xs) = refl

threshold-after : (rounds : List (List RecordedToolCall)) → (after rounds).repeat_threshold ≡ 3
unfolding after
threshold-after [] = refl
threshold-after (calls ∷ rounds) = threshold-after rounds

suspected-same :
    (x y z : List RecordedToolCall) (rounds : List (List RecordedToolCall))
    → is_suspected (answer z (y ∷ x ∷ rounds)) ≡ (is_same_as_last x y && is_same_as_last y z)
unfolding answer is_suspected verdict
suspected-same x y [] rounds = ground (arith, same-empty y, threshold-after rounds)
suspected-same x y (c ∷ z) rounds = ground (arith, threshold-after rounds)

nonempty : (x y : List RecordedToolCall) → x ≢ [] → keys x ≡ keys y → y ≢ []
nonempty [] y h e = absurd (h refl)
nonempty (c ∷ x) [] h e = cc
nonempty (c ∷ x) (d ∷ y) h e = λ q. cc

-- After three recorded rounds or more the detector answers that it suspects a loop exactly where the
-- last three recorded rounds have at least one call each, and the same tool names with the same
-- input hashes in the same order.
pub detects_loop :
    (x y z : List RecordedToolCall) (rounds : List (List RecordedToolCall))
    → (is_suspected (answer z (y ∷ x ∷ rounds)) ≡ true)
      ↔ ((x ≢ []) × (keys x ≡ keys y) × (keys y ≡ keys z))
detects_loop x y z rounds =
    let xy = is_same_iff x y in
    let yz = is_same_iff y z in
    rw suspected-same (
      λ h.
          let p = and-true (is_same_as_last x y) (is_same_as_last y z) h in
          ((xy.0 p.0).0, (xy.0 p.0).1, (yz.0 p.1).1),
      λ h.
          let p : is_same_as_last x y ≡ true = xy.1 (h.0, h.1) in
          let q : is_same_as_last y z ≡ true = yz.1 (nonempty x y h.0 h.1, h.2) in ground arith,
    )

-- No run of an agent makes the detector read the first call of an empty round.
pub answer-total :
    (calls : List RecordedToolCall) (rounds : List (List RecordedToolCall))
    → answer calls rounds ≢ none
unfolding answer verdict
answer-total [] rounds =
    ground (arith, same-empty (after rounds).recent_calls, threshold-after rounds)
answer-total (c ∷ calls) rounds = ground arith

empty_round_is_new : (recent : List RecordedToolCall) → is_same_as_last recent [] ≡ false
unfolding is_same_as_last same_calls
empty_round_is_new [] = refl
empty_round_is_new (c ∷ calls) = refl

-- A detector with a threshold above one answers every round, the empty one too, and keeps its
-- threshold.
pub record_call_answers :
    (d : ToolLoopDetector) (calls : List RecordedToolCall)
    → 1 < d.repeat_threshold
    → ((record_call d calls).0 ≢ none)
      × ((record_call d calls).1.repeat_threshold ≡ d.repeat_threshold)
unfolding record_call verdict
record_call_answers d [] h = (λ e. ground (arith, empty_round_is_new d.recent_calls), refl)
record_call_answers d (c ∷ calls) h = (λ e. ground arith, refl)
