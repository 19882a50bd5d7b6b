-- ===== src/Examples/Rounds.antt =====
-- The loop detector (crates/kelvin-brain/src/tool_loop_detector.rs) on concrete rounds.
use kelvinclaw.Prelude.{
  ℕ, Bool, true, false, ◌≡◌, ◌≢◌, ◌↔◌, refl, Option, none, some, List, [], ◌∷◌,
}
use kelvinclaw.Prelude.Text.{lit, text_eq}
use kelvinclaw.Brain.LoopDetector.{RecordedToolCall, suspected_loop}
use kelvinclaw.Brain.LoopDetector.Repeats.{answer, is_suspected, keys, detects_loop, answer-total}

abbrev read_file : List RecordedToolCall
read_file =
    record {
      tool_name = lit "read";
      input_hash = lit "{\"path\":\"a\"}";
      is_error = true;
      timestamp = 5;
    }
    ∷ []

abbrev list_files : List RecordedToolCall
list_files =
    record { tool_name = lit "list"; input_hash = lit "{}"; is_error = false; timestamp = 6 } ∷ []

third_repeat_is_suspected :
    answer read_file (read_file ∷ read_file ∷ []) ≡ some (suspected_loop (lit "read") 3 true)
unfolding answer text_eq kelvinclaw.Prelude.all
third_repeat_is_suspected = refl

detects_loop_example :
    (is_suspected (answer read_file (read_file ∷ read_file ∷ list_files ∷ [])) ≡ true)
    ↔ ((read_file ≢ []) × (keys read_file ≡ keys read_file) × (keys read_file ≡ keys read_file))
detects_loop_example = detects_loop read_file read_file read_file (list_files ∷ [])

answer-total_example : answer [] (read_file ∷ read_file ∷ []) ≢ none
answer-total_example = answer-total [] (read_file ∷ read_file ∷ [])
