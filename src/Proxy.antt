-- ===== src/Proxy.antt =====
-- crates/hamsy-proxy: the handling of one exchange, from config.rs and http.rs.
pub mod Streams
pub mod Error
pub mod Config
pub mod Net
pub mod Headers
pub mod Target
pub mod Outbound
pub mod Dispatch
pub mod Payload
pub mod Exchange
pub mod Request
pub mod Response
pub mod Handle
pub mod Entry
pub mod Event
pub mod Run
pub mod Stored
pub mod Endings
pub mod Settles
pub mod Hosts
pub mod Authority
pub mod Samples
pub mod Tests
