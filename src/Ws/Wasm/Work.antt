-- ===== src/Ws/Wasm/Work.antt =====
-- ws/tightbeam-ws-wasm/src/work.rs, and the submission of mux.rs: work that a cluster gateway
-- routes to a servlet.
pub mod Envelope
pub mod Reply
pub mod Submit
