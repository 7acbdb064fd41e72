-- ===== src/Ws/Wasm/Stream.antt =====
-- ws/tightbeam-ws-wasm/src/stream.rs: tightbeam frames over a WebSocket of a browser. The socket is
-- that of gloo-net, taken the way ws/tightbeam-ws/src/io.rs is: the items still to come, and how
-- it sends as an interface.
pub mod Agreement
use tightbeam_ext.Prelude.{
  ℕ, Bool, true, false, List, [], ◌∷◌, length, ltb, if◌then◌else◌, Bytes, String,
}
use tightbeam_ext.Prelude.Result.{Result, ok, err, map_err, is_ok}
use tightbeam_ext.Ws.Io.{TransportError, connection_closed, size_exceeded, invalid_message}

-- gloo's `WebSocketError`; `other_error` is any variant that the code does not name.
pub data WebSocketError : Type 0 where
  connection_close other_error : WebSocketError

-- gloo's `Message`.
pub data Message : Type 0 where
  bytes : Bytes → Message
  text : String → Message

abbrev pub Source : Type 0
Source = List (Result Message WebSocketError)

pub record MessageSink (Sink : Type 0) : Type 0 where
  pub send : Sink → Message → Sink × Result (Unit {0}) WebSocketError

module _ {IoError : Type 0} where
  unfoldable pub map_ws_error : WebSocketError → TransportError IoError
  map_ws_error connection_close = connection_closed
  map_ws_error other_error = invalid_message

  unfoldable pub read_binary_frame : ℕ → Source → Source × Result Bytes (TransportError IoError)
  unfolding map_ws_error
  read_binary_frame cap [] = ([], err connection_closed)
  read_binary_frame cap (err error ∷ source) = (source, err (map_ws_error error))
  read_binary_frame cap (ok (bytes payload) ∷ source) =
      if ltb cap (length payload) then (source, err size_exceeded) else (source, ok payload)
  read_binary_frame cap (ok (text content) ∷ source) = read_binary_frame cap source

  unfoldable pub write_binary_frame :
      {Sink : Type 0}
      → MessageSink Sink
      → Sink
      → Bytes
      → Sink × Result (Unit {0}) (TransportError IoError)
  write_binary_frame sinks sink buffer =
      let (sink', sent) = sinks.send sink (bytes buffer) in (sink', map_err map_ws_error sent)

-- `GlooStream`: the socket, as its two directions.
pub record GlooStream (Sink : Type 0) : Type 0 where
  pub source : Source
  pub sink : Sink
  pub alive : Bool

module _ {Sink : Type 0} where
  abbrev pub from : Source → Sink → GlooStream Sink
  from source sink = record { source = source; sink = sink; alive = true }

  abbrev pub is_alive : GlooStream Sink → Bool
  is_alive stream = stream.alive

  -- The halves: each has its direction of the socket.
  abbrev pub into_split : GlooStream Sink → Source × Sink
  into_split stream = (stream.source, stream.sink)

module _ {Sink IoError : Type 0} where
  unfoldable pub settle :
      {A : Type 0} → Result A (TransportError IoError) → GlooStream Sink → GlooStream Sink
  settle outcome stream = if is_ok outcome then stream else record stream { alive = false }

  unfoldable pub read_frame :
      ℕ → GlooStream Sink → GlooStream Sink × Result Bytes (TransportError IoError)
  unfolding settle
  read_frame cap stream =
      let (source', outcome) = read_binary_frame cap stream.source in
      (settle outcome (record stream { source = source' }), outcome)

  unfoldable pub write_frame :
      MessageSink Sink
      → Bytes
      → GlooStream Sink
      → GlooStream Sink × Result (Unit {0}) (TransportError IoError)
  unfolding settle
  write_frame sinks buffer stream =
      let (sink', outcome) = write_binary_frame sinks stream.sink buffer in
      (settle outcome (record stream { sink = sink' }), outcome)
