-- ===== src/Ws/Wasm/Streaming.antt =====
-- ws/tightbeam-ws-wasm/src/streaming.rs: handles of progressive bodies for JavaScript. The sinks,
-- the bodies and the responses are those of the tightbeam crate: an interface. An asynchronous
-- method is what it does before its first suspension and what it does when that ends, so that calls
-- that are not awaited interleave.
pub mod Slots
pub mod Request
pub mod Session
pub mod Duplex
pub mod Readers
pub mod Reading
pub mod Sequential
pub mod Keeping
pub mod Exclusion
