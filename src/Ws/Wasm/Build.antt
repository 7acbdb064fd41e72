-- ===== src/Ws/Wasm/Build.antt =====
-- ws/tightbeam-ws-wasm/src/build.rs: the assembly of frames and the splices that install what a
-- caller has digested, sealed or signed.
pub mod Der
pub mod Sequence
pub mod RoundTrip
pub mod Tagged
pub mod Fields
pub mod Placing
pub mod Wire
pub mod Splice
pub mod Splicing
pub mod Installing
pub mod Installed
pub mod Config
pub mod Preimage
pub mod Building
pub mod Signature
pub mod Signing
pub mod Seal
pub mod Inspect
pub mod Inspecting
