-- ===== src/Ws.antt =====
-- ws: the WebSocket transport, and the WebAssembly client over it.
pub mod Io
pub mod Tests
pub mod Wasm
