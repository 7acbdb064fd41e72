-- ===== src/Ws/Wasm.antt =====
-- ws/tightbeam-ws-wasm: the browser client.
pub mod Errors
pub mod Approver
pub mod Bindings
pub mod Build
pub mod Faults
pub mod Mux
pub mod Socket
pub mod Stream
pub mod Streaming
pub mod Work
pub mod Tests
