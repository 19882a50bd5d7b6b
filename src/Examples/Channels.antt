-- ===== src/Examples/Channels.antt =====
-- A channel (apps/kelvin-gateway/src/channels.rs) with concrete messages.
use kelvinclaw.Prelude.{
  ℕ, zero, suc, ◌+◌, ◌≤◌, ◌<◌, Bool, true, false, ◌≡◌, ◌≢◌, refl, arith, Option, none, some, List,
  [], ◌∷◌, ◌++◌, ◌-◌, length, drop,
}
use kelvinclaw.Prelude.Text.{Text, lit, trim, text_eq}
use kelvinclaw.Prelude.Error.{KelvinResult, ok, err, literal}
use kelvinclaw.Prelude.Json.{Json}
use kelvinclaw.Channel.Types.{trusted, TextChannelAdapter, tier_eq}
use kelvinclaw.Channel.World.{Script, World, completed, persist_state}
use kelvinclaw.Channel.World.Counts.{Counted}
use kelvinclaw.Channel.Routing.{RouteRule, RouteInput, routing_table, decide}
use kelvinclaw.Channel.Routing.Priority.{Decides, routing_table-Decides}
use kelvinclaw.Channel.Delivery.{is_duplicate_delivery, tracked}
use kelvinclaw.Channel.Delivery.Seen.{SeenWindow, tracked-SeenWindow}
use kelvinclaw.Channel.Policy.{
  admit, tier_from_policy, account_refused, sender_refused, enforce_policy,
}
use kelvinclaw.Channel.Policy.RateWindow.{answers, admit_by_log, admit-refines_log}
use kelvinclaw.Channel.Policy.Admission.{In, AccountAdmitted, SenderAdmitted, enforce_policy-admits}
use kelvinclaw.Channel.Outbound.{attempts}
use kelvinclaw.Channel.Outbound.Retries.{Tried, attempts-Tried}
use kelvinclaw.Channel.Inbox.{process_inbox, execute_entry}
use kelvinclaw.Channel.Inbox.Handled.{Handled, process_inbox-Handled}
use kelvinclaw.Channel.Inbox.Counts.{execute_entry-OnlyCounts}
use kelvinclaw.Channel.Ingest.{enqueue, ingest}
use kelvinclaw.Channel.Ingest.Queue.{WithinDepth, enqueue-WithinDepth, Untouched, ingest-once}
use kelvinclaw.Prelude.Map.{lookup, contains}
use kelvinclaw.Channel.World.{snapshot_state}
use kelvinclaw.Channel.Restore.{restored}
use kelvinclaw.Channel.Restore.Resumes.{Resumes, restored-Resumes}
use kelvinclaw.Channel.Pairing.{approve_pairing}
use kelvinclaw.Channel.Pairing.Atomic.{Outcome, approve_pairing-Outcome}
use kelvinclaw.Examples.Adapter.{
  a_policy, an_envelope, an_entry, an_adapter, a_world, full_world, a_script,
}

ingest-once_example : Untouched a_world (ingest a_script [] [] an_envelope a_world).1
unfolding kelvinclaw.Channel.Envelope.normalize_envelope kelvinclaw.Prelude.Text.is_empty trim
    kelvinclaw.Prelude.Text.byte_len kelvinclaw.Prelude.Text.has_control is_duplicate_delivery
    kelvinclaw.Prelude.Map.contains text_eq
ingest-once_example = ingest-once a_script [] [] a_world an_envelope an_envelope (refl, refl)

enqueue-WithinDepth_example : WithinDepth (enqueue a_script [] [] an_entry full_world).1
enqueue-WithinDepth_example = enqueue-WithinDepth a_script [] [] an_entry full_world (omega arith)

abbrev response_of : KelvinResult Json → Json
response_of (ok j) = j
response_of (err e) = Json.null

process_inbox-Handled_example :
    Handled a_script
      (lit "d1")
      (an_entry ∷ [])
      full_world
      (process_inbox a_script (lit "d1") full_world).1
    × ((process_inbox a_script (lit "d1") full_world).1.adapter.inbox ≡ [])
unfolding process_inbox persist_state text_eq execute_entry
    kelvinclaw.Channel.Outbound.send_message_with_retry kelvinclaw.Channel.World.count
process_inbox-Handled_example =
    process_inbox-Handled a_script (lit "d1") full_world
      (response_of (process_inbox a_script (lit "d1") full_world).0) refl

execute_entry-OnlyCounts_example : Counted full_world (execute_entry a_script an_entry full_world).1
execute_entry-OnlyCounts_example = execute_entry-OnlyCounts a_script an_entry full_world

attempts-Tried_example :
    Tried a_script 2 a_world (attempts a_script 2 (lit "chat") (literal "done") a_world)
attempts-Tried_example = attempts-Tried a_script (lit "chat") (literal "done") 2 a_world

two_requests_are_sent : (attempts a_script 2 (lit "chat") (literal "done") a_world).1.sends ≡ 2
unfolding attempts kelvinclaw.Channel.World.count
two_requests_are_sent = refl

enforce_policy-admits_example :
    (trusted ≡ tier_from_policy a_policy (lit "ann"))
    × (¬ In (lit "ann") (lit "eve" ∷ []))
    × AccountAdmitted a_policy an_envelope
    × SenderAdmitted a_policy an_envelope
unfolding enforce_policy tier_eq kelvinclaw.Prelude.Map.contains text_eq
    kelvinclaw.Channel.Policy.enforce_rate_limit kelvinclaw.Channel.World.now_ms
    kelvinclaw.Channel.Policy.expire kelvinclaw.Prelude.Map.lookup
    kelvinclaw.Channel.Policy.enforce_cooldown persist_state
enforce_policy-admits_example = enforce_policy-admits a_script an_envelope a_world trusted refl

admit-refines_log_example :
    answers (admit 2) [] (5 ∷ 6 ∷ 7 ∷ 60006 ∷ [])
    ≡ answers (admit_by_log 2) [] (5 ∷ 6 ∷ 7 ∷ 60006 ∷ [])
admit-refines_log_example =
    admit-refines_log 2 (5 ∷ 6 ∷ 7 ∷ 60006 ∷ [])
      (omega arith, (omega arith, (omega arith, (omega arith, tt))))

one_known : SeenWindow an_adapter
unfolding kelvinclaw.Prelude.Map.contains
one_known = record { agree = λ t. refl; nodup = (refl, tt); bounded = omega arith }

tracked-SeenWindow_example :
    SeenWindow (tracked (lit "d2") 7 an_adapter)
    × (is_duplicate_delivery (tracked (lit "d2") 7 an_adapter) (lit "d2") ≡ true)
    × (is_duplicate_delivery an_adapter (lit "d2") ≡ false
        → (tracked (lit "d2") 7 an_adapter).seen_delivery_order
          ≡ drop (length (lit "d1" ∷ []) + 1 - 2) (lit "d1" ∷ lit "d2" ∷ []))
tracked-SeenWindow_example = tracked-SeenWindow (lit "d2") 7 an_adapter one_known (omega arith)

abbrev a_rule : Text → ℕ → RouteRule
a_rule id priority = record {
  id = id;
  priority = priority;
  channel = some (lit "telegram");
  account_id = none;
  sender_tier = none;
  session_id = none;
  workspace_dir = none;
  route_session_id = some id;
  route_workspace_dir = none;
  route_system_prompt = none;
}

abbrev an_input : RouteInput
an_input = record {
  channel = lit "telegram";
  account_id = lit "chat";
  requested_session_id = none;
  requested_workspace_dir = none;
  sender_tier = trusted;
}

routing_table-Decides_example :
    Decides
      (a_rule (lit "low") 1 ∷ a_rule (lit "high") 2 ∷ [])
      an_input
      (decide (a_rule (lit "high") 2 ∷ a_rule (lit "low") 1 ∷ []) an_input)
unfolding routing_table kelvinclaw.Prelude.Text.is_empty trim kelvinclaw.Prelude.Map.contains
    kelvinclaw.Prelude.Map.add text_eq kelvinclaw.Prelude.Sort.sort_by
    kelvinclaw.Channel.Routing.rule_le
routing_table-Decides_example =
    routing_table-Decides (a_rule (lit "low") 1 ∷ a_rule (lit "high") 2 ∷ [])
      (a_rule (lit "high") 2 ∷ a_rule (lit "low") 1 ∷ []) an_input refl

-- the adapter as it was when it was saved, with a sender who wrote at 1000 and 50000
abbrev saved_adapter : TextChannelAdapter
saved_adapter = record an_adapter {
  rate_windows = (lit "ann", 1000 ∷ 50000 ∷ []) ∷ [];
  pending_pair_codes = (lit "123456", lit "chat") ∷ [];
}

restored-Resumes_example :
    Resumes 70000 saved_adapter (restored 70000 (snapshot_state saved_adapter) an_adapter)
unfolding contains lookup
restored-Resumes_example =
    restored-Resumes 70000 saved_adapter an_adapter refl
      (record { agree = λ t. refl; nodup = (refl, tt); bounded = omega arith }) (omega arith)
      (refl, tt)

-- a channel that asks for pairing
abbrev pairing_world : World
pairing_world = record a_world {
  adapter = record saved_adapter {
    config = record (saved_adapter.config) { pairing_enabled = true };
  };
}

not_paired :
    (account : Text)
    → lookup (trim (lit " 123456")) pairing_world.adapter.pending_pair_codes ≡ some account
    → contains pairing_world.adapter.paired_accounts account ≡ false
unfolding contains
not_paired account h = refl

approve_pairing-Outcome_example :
    Outcome
      (trim (lit " 123456"))
      pairing_world
      (approve_pairing a_script (lit " 123456") pairing_world)
approve_pairing-Outcome_example =
    approve_pairing-Outcome a_script (lit " 123456") pairing_world not_paired
