-- ===== src/Brain/LoopDetector.antt =====
-- crates/kelvin-brain/src/tool_loop_detector.rs: whether the last rounds of an agent called the
-- same tools with the same arguments. The canonical print of the arguments (`canonical_args`) and
-- the clock are given with each call.
pub mod Repeats
use kelvinclaw.Prelude.{
  ℕ, suc, ◌+◌, Bool, true, false, ◌&&◌, Option, none, some, List, [], ◌∷◌, leb, ◌==◌, if◌then◌else◌,
  length, map, all,
}
use kelvinclaw.Prelude.Text.{Text, text_eq}

pub record RecordedToolCall : Type 0 where
  pub tool_name : Text
  pub input_hash : Text
  pub is_error : Bool
  pub timestamp : ℕ

pub data LoopDetectionResult : Type 0 where
  no_issue : LoopDetectionResult
  -- the name of the first tool, the count, and whether all the calls were errors
  suspected_loop : Text → ℕ → Bool → LoopDetectionResult

pub record ToolLoopDetector : Type 0 where
  pub recent_calls : List RecordedToolCall
  pub consecutive_repeats : ℕ
  pub repeat_threshold : ℕ

abbrev pub tool_loop_detector_threshold : ℕ
tool_loop_detector_threshold = 3

unfoldable pub new_detector : ToolLoopDetector
new_detector = record {
  recent_calls = [];
  consecutive_repeats = 0;
  repeat_threshold = tool_loop_detector_threshold;
}

-- equal length, and the names and the hashes pair by pair
unfoldable pub same_calls : List RecordedToolCall → List RecordedToolCall → Bool
same_calls [] [] = true
same_calls [] (_ ∷ _) = false
same_calls (_ ∷ _) [] = false
same_calls (x ∷ xs) (y ∷ ys) =
    text_eq x.tool_name y.tool_name && text_eq x.input_hash y.input_hash && same_calls xs ys

unfoldable pub is_same_as_last : List RecordedToolCall → List RecordedToolCall → Bool
unfolding same_calls
is_same_as_last [] new_calls = false
is_same_as_last (c ∷ calls) new_calls = same_calls (c ∷ calls) new_calls

-- `recent_calls[0]` is read where the count reached the threshold, and none is the panic where
-- there is no such call.
verdict : ToolLoopDetector → List RecordedToolCall → Option LoopDetectionResult
verdict d calls =
    if leb d.repeat_threshold d.consecutive_repeats
    then elim calls [
      | [] ↦ none
      | c ∷ cs ↦
          some (suspected_loop c.tool_name d.consecutive_repeats (all (λ x. x.is_error) (c ∷ cs)))
    ]
    else some no_issue

unfoldable pub record_call :
    ToolLoopDetector → List RecordedToolCall → Option LoopDetectionResult × ToolLoopDetector
unfolding is_same_as_last verdict
record_call d new_calls =
    let repeats = d.consecutive_repeats + 1 in
    let next = record d {
      recent_calls = new_calls;
      consecutive_repeats = if is_same_as_last d.recent_calls new_calls then repeats else 1;
    } in
    (verdict next new_calls, next)
