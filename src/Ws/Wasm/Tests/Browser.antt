-- ===== src/Ws/Wasm/Tests/Browser.antt =====
-- Concrete inputs for the theorems about ws/tightbeam-ws-wasm/src/socket.rs, approver.rs and
-- bindings.rs.
use tightbeam_ext.Prelude.{
  ◌≡◌, ℕ, none, some, true, false, map, List, [], ◌∷◌, is_nil, Bytes, String,
}
use tightbeam_ext.Prelude.Result.{ok, is_ok}
use tightbeam_ext.Ws.Wasm.Socket.{
  CloseInfo, SocketEvent, open_event, close_event, observe_opening, observe_closing, open_promise,
  close_promise,
}
use tightbeam_ext.Ws.Wasm.Socket.Lifecycle.{first_outcome, first_close, observe-first}
use tightbeam_ext.Ws.Wasm.Approver.{ApproverHost, plain, approve}
use tightbeam_ext.Ws.Wasm.Approver.Checks.{Settles, approve-Settles}
use tightbeam_ext.Ws.Wasm.Bindings.{
  Parsers, new, Setting, with_version, with_order, with_previous_hash, with_matrix, compose,
  FrameComposer,
}
use tightbeam_ext.Ws.Wasm.Bindings.Ordinals.{shown, settings_of, compose-settings_of}

-- It opens, and then closes twice.
abbrev away : CloseInfo
away = record { code = 1001; reason = "away"; was_clean = true }

abbrev events : List SocketEvent
events = open_event ∷ close_event away ∷ close_event away ∷ []

abbrev decimal : ℕ → String
decimal n = "1001"

observe-first_example :
    ((observe_opening {Transport = Unit {0}} decimal events open_promise).promise
      ≡ first_outcome decimal events)
    × ((observe_opening {Transport = Unit {0}} decimal events open_promise).watch ≡ is_nil events)
    × ((observe_opening {Transport = Unit {0}} decimal events open_promise).on_open ≡ is_nil events)
    × ((observe_opening {Transport = Unit {0}} decimal events open_promise).on_close
        ≡ is_nil events)
    × ((observe_closing events close_promise).closed ≡ first_close events)
observe-first_example = observe-first decimal events

-- Values are octets, a callback is its answer, and a receipt its encoding.
abbrev host : ApproverHost Bytes Bytes Bytes
host = record {
  is_nullish = λ value. is_nil value;
  as_f64 = λ value. none;
  as_function = λ value. some value;
  get = λ value name. ok value;
  to_bytes = λ value. ok value;
  new_octets = λ octets. some octets;
  settle = λ value. plain;
  call = λ function input. ok function;
  receipt_to_der = λ receipt. some receipt;
  ancillary = λ receipt. none;
  input = λ receipt_der challenge. ok receipt_der;
}

new_octets_kept : (bytes answer : Bytes) → host.new_octets bytes ≡ some answer → answer ≡ bytes
new_octets_kept bytes answer h = cc

approve-Settles_example : Settles host (1 ∷ 2 ∷ []) (approve host (1 ∷ 2 ∷ []) (9 ∷ []))
approve-Settles_example = approve-Settles host new_octets_kept (1 ∷ 2 ∷ []) (9 ∷ [])

-- Every identifier parses, and a matrix has its rows.
abbrev parsers : Parsers ℕ Bytes (Unit {0})
parsers = record {
  parse_oid = λ dotted. some 7;
  new_octets = λ octets. ok octets;
  from_row_major = λ n octets. none;
}

-- The second version and the matrix throw.
abbrev settings : List Setting
settings =
    with_version 2
    ∷ with_version 4
    ∷ with_order 9
    ∷ with_previous_hash "2.16" (1 ∷ [])
    ∷ with_matrix 2 (1 ∷ [])
    ∷ []

abbrev composer : FrameComposer ℕ Bytes
composer = new

compose-settings_of_example :
    (shown (compose (Unit {0}) parsers settings composer).0
      ≡ settings_of parsers settings (shown composer))
    × (map is_ok (compose (Unit {0}) parsers settings composer).1
        ≡ true ∷ false ∷ true ∷ true ∷ false ∷ [])
compose-settings_of_example = compose-settings_of (Unit {0}) parsers settings composer
