-- ===== src/Lib.antt =====
-- A model of the core of KelvinClaw, a host for agents: the scheduler of runs, the text channels of
-- the gateway, the runtime that runs agents in lanes, the loop of an agent over its model and tools,
-- and the registry of plugins.
--
-- The scheduler (crates/kelvin-sdk/src/scheduler) keeps cron schedules, the slots that were claimed
-- and an audit in one state file. The gateway claims the due slots, submits a run for each and marks
-- what became of it. A channel (apps/kelvin-gateway/src/channels.rs) takes messages from a chat
-- service: `ingest` checks a message, asks the pairing, the policy and the routing, and queues it;
-- the inbox is worked through one message after the other, each of them a run or a slash command
-- whose result is sent back. The detector (crates/kelvin-brain/src/tool_loop_detector.rs) compares
-- the rounds of tool calls of one run, and the agent (kelvin_brain.rs beside it) asks the model and
-- calls the tools until the model is content, the detector warns or the iterations are used up. The runtime (crates/kelvin-core/src/runtime.rs) registers each
-- run under its id and spawns a task for it, which waits for the lane of its session, and for the
-- global lane if there is one, asks the brain, and marks the outcome for the clients that wait. The
-- registry of plugins (crates/kelvin-core/src/sdk.rs) takes the plugins whose manifests suit the core
-- and the policy, and hands the tools and models that they provide to the runtime.
--
-- Files, by the code that they are about:
--   Scheduler/Cron        scheduler/cron.rs: `parse`, `parse_field`, `parse_value`
--   Scheduler/Slot        scheduler/cron.rs: `matches`, `first_slot_at_or_after`, `next_slot_after`
--   Scheduler/State       scheduler/mod.rs: the records, `normalize`, `into_task`
--   Scheduler/Persistence scheduler/persistence.rs: `load_state`, `save_state`
--   Scheduler/Store       scheduler/store.rs: SchedulerStore; Store/Claim `claim_due_slots`,
--                         Store/Updates the marks of a slot, Store/Reports the reports
--   Channel/Types         the structs of channels.rs and the tiers of crates/kelvin-core/src/sdk.rs
--   Channel/World         the effects of a channel and `persist_state`
--   Channel/Routing       ChannelRoutingTable, RouteRule and RouteDecision
--   Channel/Delivery      `is_duplicate_delivery`, `track_delivery_id`
--   Channel/Policy        `tier_from_policy`, `verify_ingress_auth`, `enforce_policy`,
--                         `enforce_rate_limit`
--   Channel/Pairing       `enforce_pairing_policy`, `approve_pairing`
--   Channel/Outbound      `send_message_with_retry`, `deliver_outbound_message`
--   Channel/Slash         `parse_slash_input` and `lookup_meta` of crates/kelvin-commands/src/lib.rs
--   Channel/Inbox         `process_inbox`, `execute_entry`
--   Channel/Envelope      `normalize_identifier` and the normalization in `ingest`
--   Channel/Ingest        `ingest`
--   Channel/Restore       `load_persisted_state`, `apply_persisted_state`, the webhook metrics
--   Brain/LoopDetector    ToolLoopDetector
--   Brain/Services        what KelvinBrain calls, with the events of crates/kelvin-core/src/events.rs
--                         and the structs of model.rs, tools.rs and sessions.rs beside it
--   Brain/ToolCalls       `execute_tool_calls`, `emit_tool_receipt`, `sanitize_receipt_reason`
--   Brain/Agent           `run_inner` of crates/kelvin-brain/src/kelvin_brain.rs
--   Runtime/Types         the structs of runtime.rs and of crates/kelvin-core/src/brain.rs
--   Runtime/Registry      RunRegistry
--   Runtime/Lanes         LaneScheduler
--   Runtime/Tasks         CoreRuntime: `submit`, the spawned task, `wait_for_outcome`
--   Plugins/Manifest      PluginManifest and its `validate`
--   Plugins/Compatibility `check_plugin_compatibility`
--   Plugins/Registry      PluginFactory, InMemoryPluginRegistry
--   Plugins/Tools         SdkToolRegistry
--   Plugins/Models        SdkModelProviderRegistry
--   Tools/Paths           the tests on a path in crates/kelvin-sdk/src/toolpack.rs
--   Tools/Arguments       the arguments of a tool and `require_sensitive_approval`
--   Tools/Files           `fs_safe_read` and `fs_safe_write` up to the calls of the file system
-- The other modules below these hold the proofs, Prelude what the parts share, and Examples concrete
-- inputs.
--
-- State: a method on `&mut self` is a function from a state to a result and a state; what it wrote
-- before an error stays written. The scheduler's state is the state file. A channel's state is its
-- adapter, the state file beside it and what was sent. An error is KelvinError, and a formatted
-- message is its format string with the arguments behind it.
--
-- The runtime is a step relation: a client submits a run, or one task goes on to its next await, in any
-- order. A task is where it stands between two awaits; a mutex is whether it is held, and any task at
-- its lock may be the next. `wait` is given the registry as it is at each of its reads.
--
-- Numbers are natural numbers; additions that saturate do so at the bounds of u64 and u128. A text is
-- the list of its code points, a hash map or set a list that is searched from the front. A route's
-- priority, an i64, is given by its place in the order.
--
-- What is not under the repository's control is a parameter: the calendar of chrono is a function from
-- milliseconds to the fields of a time; the clock, the file system, the chat service, the runs and the
-- commands answer by a script that says, for each question by its number, what the answer is; a policy
-- module is a function; the text of a formatted message in a receipt is a function of it; the crate semver is a record of functions, and so are the traits of the tools
-- and the models of a plugin, and the values of the crate serde_json that a tool is called with.
--
-- Loops: the search for a slot runs on the number of minutes that the source itself scans; the marking
-- of a cron field on the length of the field; the inbox on its length, which is enough since no entry
-- adds to it; the loop of an agent on the iterations allowed and at least one; all other loops on the lists that they walk.
--
-- Not modelled: the environment variables and the HTTP servers, the migration of a legacy scheduler
-- file and the atomic write, the lock of the scheduler's store, a panic of the brain, the timeout around a run of an agent and
-- the text of its system prompt, the calls of the file system in the file tools and
-- the other tools beside them, the hosts of modules and the memory services, which are later parts of this library or outside its aim.
pub mod Prelude
pub mod Scheduler
pub mod Channel
pub mod Brain
pub mod Runtime
pub mod Plugins
pub mod Tools
pub mod Examples
