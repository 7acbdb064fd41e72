-- ===== src/Ws/Io.antt =====
-- ws/tightbeam-ws/src/io.rs: tightbeam frames over a WebSocket. The socket is that of
-- tokio-tungstenite: what it will yield is the list of items still to come, and how it sends is an
-- interface. A list that has ended is a stream that has ended.
pub mod Frames
use tightbeam_ext.Prelude.{ℕ, Bool, true, false, List, [], ◌∷◌, length, ltb, if◌then◌else◌, Bytes}
use tightbeam_ext.Prelude.Result.{Result, ok, err, map_err, is_ok}

-- tungstenite's `Error`; `other` is any variant that the code does not name.
pub data WsError (IoError : Type 0) : Type 0 where
  connection_closed already_closed capacity other : WsError IoError
  io : IoError → WsError IoError

-- tightbeam's `TransportError`, as far as the code makes one; `size_exceeded` is an
-- `OperationFailed`.
pub data TransportError (IoError : Type 0) : Type 0 where
  connection_closed size_exceeded invalid_message : TransportError IoError
  io_error : IoError → TransportError IoError

-- tungstenite's `Message`; `other` is a text or control frame.
pub data Message : Type 0 where
  binary : Bytes → Message
  close other : Message

unfoldable pub map_ws_error : {IoError : Type 0} → WsError IoError → TransportError IoError
map_ws_error WsError.connection_closed = TransportError.connection_closed
map_ws_error already_closed = TransportError.connection_closed
map_ws_error (io cause) = io_error cause
map_ws_error capacity = size_exceeded
map_ws_error WsError.other = invalid_message

abbrev pub Source : Type 0 → Type 0
Source IoError = List (Result Message (WsError IoError))

pub record MessageSink (Sink IoError : Type 0) : Type 0 where
  pub send : Sink → Message → Sink × Result (Unit {0}) (WsError IoError)

module _ {IoError : Type 0} where
  unfoldable pub read_binary_frame :
      ℕ → Source IoError → Source IoError × Result Bytes (TransportError IoError)
  unfolding map_ws_error
  read_binary_frame cap [] = ([], err TransportError.connection_closed)
  read_binary_frame cap (err cause ∷ source) = (source, err (map_ws_error cause))
  read_binary_frame cap (ok (binary payload) ∷ source) =
      if ltb cap (length payload) then (source, err size_exceeded) else (source, ok payload)
  read_binary_frame cap (ok close ∷ source) = (source, err TransportError.connection_closed)
  read_binary_frame cap (ok Message.other ∷ source) = read_binary_frame cap source

  module _ {Sink : Type 0} (sinks : MessageSink Sink IoError) where
    unfoldable pub write_binary_frame :
        Sink → Bytes → Sink × Result (Unit {0}) (TransportError IoError)
    write_binary_frame sink buffer =
        let (sink', sent) = sinks.send sink (binary buffer) in (sink', map_err map_ws_error sent)

-- `WsStream`: the socket, as its two directions.
pub record WsStream (Sink IoError : Type 0) : Type 0 where
  pub source : Source IoError
  pub sink : Sink
  pub alive : Bool

module _ {Sink IoError : Type 0} where
  abbrev pub new : Source IoError → Sink → WsStream Sink IoError
  new source sink = record { source = source; sink = sink; alive = true }

  unfoldable pub settle :
      {A : Type 0}
      → Result A (TransportError IoError)
      → WsStream Sink IoError
      → WsStream Sink IoError
  settle outcome stream = if is_ok outcome then stream else record stream { alive = false }

  unfoldable pub read_frame :
      ℕ → WsStream Sink IoError → WsStream Sink IoError × Result Bytes (TransportError IoError)
  unfolding settle
  read_frame cap stream =
      let (source', outcome) = read_binary_frame cap stream.source in
      (settle outcome (record stream { source = source' }), outcome)

  unfoldable pub write_frame :
      MessageSink Sink IoError
      → Bytes
      → WsStream Sink IoError
      → WsStream Sink IoError × Result (Unit {0}) (TransportError IoError)
  unfolding settle
  write_frame sinks buffer stream =
      let (sink', outcome) = write_binary_frame sinks stream.sink buffer in
      (settle outcome (record stream { sink = sink' }), outcome)

  abbrev pub is_alive : WsStream Sink IoError → Bool
  is_alive stream = stream.alive

  -- The halves: each has its direction of the socket.
  abbrev pub into_split : WsStream Sink IoError → Source IoError × Sink
  into_split stream = (stream.source, stream.sink)
