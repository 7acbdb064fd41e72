-- ===== src/Ws/Wasm/Tests.antt =====
-- Concrete inputs for the theorems about ws/tightbeam-ws-wasm/src.
mod Codec
mod Frames
mod Splices
mod Bodies
mod Signatures
mod Streams
mod Muxing
mod Submissions
mod Browser
