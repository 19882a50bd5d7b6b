-- ===== src/Channel.antt =====
-- apps/kelvin-gateway/src/channels.rs: the text channels of the gateway. Its parts are the data
-- (Types), the effects (World), routing, policy, pairing, deliveries, outbound messages, slash
-- commands, the inbox and the whole of `ingest`.
pub mod Types
pub mod World
pub mod Routing
pub mod Delivery
pub mod Policy
pub mod Pairing
pub mod Outbound
pub mod Slash
pub mod Inbox
pub mod Envelope
pub mod Ingest
pub mod Restore
