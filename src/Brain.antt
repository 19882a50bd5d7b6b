-- ===== src/Brain.antt =====
-- crates/kelvin-brain/src: the agent loop's parts.
pub mod LoopDetector
pub mod Services
pub mod ToolCalls
pub mod Agent
pub mod Calm
pub mod Iterations
pub mod Receipts
pub mod Printed
