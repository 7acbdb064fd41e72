-- ===== src/Ws/Wasm/Mux.antt =====
-- ws/tightbeam-ws-wasm/src/mux.rs: the multiplexed client: who serves the peer's streams, with
-- what status, and the reasons of a shutdown.
pub mod Statuses
pub mod Serving
pub mod Reasons
pub mod Handlers
pub mod Refusals
