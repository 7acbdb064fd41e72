-- ===== src/Asn.antt =====
-- asn/: the tooling that exposes ASN.1 types to TypeScript.
pub mod Emit
pub mod Js
pub mod Tests
