-- ===== src/Plugins.antt =====
-- crates/kelvin-core/src/sdk.rs: the manifest of a plugin, whether it may be registered, the
-- registry, and the registries of tools and of models that are made from it.
pub mod Manifest
pub mod Compatibility
pub mod Registry
pub mod Tools
pub mod Models
pub mod WellFormed
pub mod Admission
pub mod Held
pub mod Exposed
pub mod Indexed
pub mod Offered
