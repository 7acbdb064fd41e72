-- ===== src/Ws/Wasm/Mux/Handlers.antt =====
-- ws/tightbeam-ws-wasm/src/mux.rs and streaming.rs: a stream of the peer driven through a
-- JavaScript handler. The values of JavaScript and the codec of `Frame` are interfaces; a handler
-- is what its call gives for its arguments.
use tightbeam_ext.Prelude.{Option, none, some, Bool, List, [], ◌∷◌, if◌then◌else◌, String, Bytes}
use tightbeam_ext.Prelude.Result.{Result, ok, err, ◌>>=◌, ok_or}
use tightbeam_ext.Ws.Wasm.Errors.{TransitStatus, ok_status, unknown}
use tightbeam_ext.Ws.Wasm.Faults.{JsFault, validation}
use text.Mathlib.Text.{◌==◌ as str_eq}
use tightbeam_ext.Ws.Wasm.Mux.Statuses.{status_from_code}

-- `settle` is `dyn_into::<Promise>` with the outcome of the promise, and `get` is `Reflect::get`.
-- `fault_value` makes the `Error` object, and `frame_fault` the value of a codec error.
pub record Host (Value Frame Transport : Type 0) : Type 0 where
  pub settle : Value → Option (Result Value Value)
  pub is_nullish : Value → Bool
  pub as_string : Value → Option String
  pub get : Value → String → Result Value Value
  pub to_bytes : Value → Bytes
  pub from_bytes : Bytes → Value
  pub fault_value : JsFault Transport → Value
  pub frame_to_der : Frame → Result Bytes Value
  pub frame_from_der : Bytes → Result Frame Value

pub record ResponsePackage (Frame : Type 0) : Type 0 where
  pub status : TransitStatus
  pub message : Option Frame

module _ {Value Frame Transport : Type 0} (host : Host Value Frame Transport) where
  abbrev pub Handler : Type 0
  Handler = List Value → Result Value Value

  -- A promise is awaited, and any other value is the outcome itself.
  abbrev pub awaited : Value → Option (Result Value Value) → Result Value Value
  awaited value none = ok value
  awaited value (some outcome) = outcome

  abbrev pub settled : Value → Result Value Value
  settled returned = awaited returned (host.settle returned)

  -- `undefined` or `null` accepts without a body, and bytes are the response.
  abbrev pub response_package : Value → Result (ResponsePackage Frame) Value
  response_package value =
      if host.is_nullish value
      then ok (record { status = ok_status; message = none })
      else (host.frame_from_der (host.to_bytes value) >>= λ response.
          ok (record { status = ok_status; message = some response }))

  unfoldable pub call_handler : Handler → Frame → Result (ResponsePackage Frame) Value
  call_handler handler frame = do
    request_der ← host.frame_to_der frame
    returned ← handler (host.from_bytes request_der ∷ [])
    outcome ← settled returned
    response_package outcome

  abbrev pub code_text : Result Value Value → Option String
  code_text (ok value) = host.as_string value
  code_text (err thrown) = none

  abbrev pub status_of : Option String → TransitStatus
  status_of none = unknown
  status_of (some name) = status_from_code name

  unfoldable pub refusal_for : Value → TransitStatus
  refusal_for rejection = status_of (code_text (host.get rejection "code"))

  abbrev pub answered : Result (ResponsePackage Frame) Value → ResponsePackage Frame
  answered (ok response) = response
  answered (err rejection) = record { status = refusal_for rejection; message = none }

  unfoldable pub respond_via_js : Handler → Frame → ResponsePackage Frame
  unfolding call_handler refusal_for
  respond_via_js handler frame = answered (call_handler handler frame)

  -- The body and the route are values of their own.
  unfoldable pub call_streaming_handler :
      Handler → Value → Value → Result (ResponsePackage Frame) Value
  call_streaming_handler handler body route = do
    returned ← handler (body ∷ route ∷ [])
    outcome ← settled returned
    response_package outcome

  abbrev pub streamed : Result (ResponsePackage Frame) Value → ResponsePackage Frame
  streamed (ok response) = response
  streamed (err rejection) = record { status = unknown; message = none }

  unfoldable pub respond_streaming_via_js : Handler → Value → Value → ResponsePackage Frame
  unfolding call_streaming_handler
  respond_streaming_via_js handler body route = streamed (call_streaming_handler handler body route)

  abbrev pub label_status : String → TransitStatus
  label_status label = if str_eq label "Ok" then ok_status else status_from_code label

  abbrev pub duplex_status : Value → Result TransitStatus Value
  duplex_status value =
      if host.is_nullish value
      then ok ok_status
      else (ok_or
            (host.fault_value (
              validation "InvalidDuplexStatus"
                "serveDuplex handler must resolve with a status name or undefined"))
            (host.as_string value)
          >>= λ label. ok (label_status label))

  unfoldable pub call_duplex_handler : Handler → Value → Value → Value → Result TransitStatus Value
  call_duplex_handler handler body reply route = do
    returned ← handler (body ∷ reply ∷ route ∷ [])
    outcome ← settled returned
    duplex_status outcome

  -- The same in streaming.rs.
  unfoldable pub refusal_status : Value → TransitStatus
  refusal_status rejection = status_of (code_text (host.get rejection "code"))

  abbrev pub duplexed : Result TransitStatus Value → TransitStatus
  duplexed (ok status) = status
  duplexed (err rejection) = refusal_status rejection

  unfoldable pub respond_duplex_via_js : Handler → Value → Value → Value → TransitStatus
  unfolding call_duplex_handler refusal_status
  respond_duplex_via_js handler body reply route =
      duplexed (call_duplex_handler handler body reply route)
