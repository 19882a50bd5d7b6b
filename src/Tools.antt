-- ===== src/Tools.antt =====
-- The file tools of crates/kelvin-sdk/src/toolpack.rs: what they test before they touch a file.
pub mod Paths
pub mod Arguments
pub mod Files
pub mod Confined
pub mod Approved
