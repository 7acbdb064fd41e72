-- ===== src/Ws/Wasm/Faults.antt =====
-- ws/tightbeam-ws-wasm/src/fault.rs: the errors that cross to JavaScript. Each is an `Error` with
-- a code and a message; those of the transport are kept as what they were made from.
use tightbeam_ext.Prelude.{String}

pub data JsFault (Transport : Type 0) : Type 0 where
  coded : String → String → JsFault Transport
  transport_error : Transport → JsFault Transport

module _ {Transport : Type 0} where
  abbrev pub validation : String → String → JsFault Transport
  validation code message = coded code message

  abbrev pub connection_closed : String → JsFault Transport
  connection_closed message = coded "ConnectionClosed" message

  abbrev pub transport_to_js : Transport → JsFault Transport
  transport_to_js error = transport_error error
