-- ===== src/Ws/Wasm/Stream/Agreement.antt =====
-- ws/tightbeam-ws-wasm/src/stream.rs and ws/tightbeam-ws/src/io.rs: the browser's stream beside the
-- native one.
use tightbeam_ext.Prelude.{
  ◌≡◌, refl, ap, inl, inr, ℕ, List, [], ◌∷◌, map, length, ltb, Bool-cases, Bytes, Option, some,
  none,
}
use tightbeam_ext.Prelude.Result.{Result, ok, err, map_err}
use tightbeam_ext.Ws.Io
use tightbeam_ext.Ws.Io.{WsError, TransportError, WsStream}
use tightbeam_ext.Ws.Io.Frames.{Operation, reads, writes}
use tightbeam_ext.Ws.Wasm.Stream
use tightbeam_ext.Ws.Wasm.Stream.{
  WebSocketError, connection_close, other_error, bytes, text, GlooStream,
}

-- A text is a frame that a native socket skips.
abbrev native_message : Stream.Message → Io.Message
native_message (bytes payload) = Io.binary payload
native_message (text content) = Io.Message.other

-- What an operation yields: the envelope that a read returns, nothing from a write, or the error.
abbrev pub Yield : Type 0 → Type 0
Yield IoError = Result (Option Bytes) (TransportError IoError)

abbrev envelope : {IoError : Type 0} → Result Bytes (TransportError IoError) → Yield IoError
envelope (ok payload) = ok (some payload)
envelope (err error) = err error

abbrev written : {IoError : Type 0} → Result (Unit {0}) (TransportError IoError) → Yield IoError
written (ok done) = ok none
written (err error) = err error

-- The stream after the operations, and what each yielded.
abbrev pub perform : {S Y : Type 0} → (Operation → S → S × Y) → List Operation → S → S × List Y
perform operation [] stream = (stream, [])
perform operation (op ∷ ops) stream =
    let (stream', yielded) = operation op stream in
    let (end, rest) = perform operation ops stream' in (end, yielded ∷ rest)

module _ {IoError : Type 0} where
  -- What a native socket would report in place of what the browser reports.
  abbrev pub native_error : WebSocketError → WsError IoError
  native_error connection_close = WsError.connection_closed
  native_error other_error = WsError.other

  abbrev native_item : Result Stream.Message WebSocketError → Result Io.Message (WsError IoError)
  native_item (ok message) = ok (native_message message)
  native_item (err error) = err (native_error error)

  abbrev pub native_source : Stream.Source → Io.Source IoError
  native_source source = map native_item source

  map_ws_error-native_error :
      (error : WebSocketError)
      → Io.map_ws_error (native_error error) ≡ Stream.map_ws_error {IoError = IoError} error
  unfolding Io.map_ws_error Stream.map_ws_error
  map_ws_error-native_error connection_close = refl
  map_ws_error-native_error other_error = refl

  read_binary_frame-native_source :
      (cap : ℕ) (source : Stream.Source)
      → Io.read_binary_frame cap (native_source source) ≡ (
        native_source (Stream.read_binary_frame {IoError = IoError} cap source).0,
        (Stream.read_binary_frame {IoError = IoError} cap source).1,
      )
  unfolding Io.read_binary_frame Stream.read_binary_frame
  read_binary_frame-native_source cap [] = refl
  read_binary_frame-native_source cap (err connection_close ∷ source) = refl
  read_binary_frame-native_source cap (err other_error ∷ source) = refl
  read_binary_frame-native_source cap (ok (text content) ∷ source) =
      read_binary_frame-native_source cap source
  read_binary_frame-native_source cap (ok (bytes payload) ∷ source) =
      elim (Bool-cases (ltb cap (length payload))) [ inl e ↦ rw e refl | inr e ↦ rw e refl ]

  abbrev native_sent : Result (Unit {0}) WebSocketError → Result (Unit {0}) (WsError IoError)
  native_sent (ok done) = ok done
  native_sent (err error) = err (native_error error)

  map_err-native_sent :
      (sent : Result (Unit {0}) WebSocketError)
      → map_err Io.map_ws_error (native_sent sent)
        ≡ map_err (Stream.map_ws_error {IoError = IoError}) sent
  map_err-native_sent (ok done) = refl
  map_err-native_sent (err error) = ap err (map_ws_error-native_error error)

module _ {Sink IoError : Type 0} where
  -- A native sink that sends what the browser's sends; the code sends binary messages alone.
  abbrev sent_natively :
      Stream.MessageSink Sink → Sink → Io.Message → Sink × Result (Unit {0}) (WsError IoError)
  sent_natively sinks sink (Io.binary payload) =
      let (sink', sent) = sinks.send sink (bytes payload) in (sink', native_sent sent)
  sent_natively sinks sink Io.close = (sink, ok tt)
  sent_natively sinks sink Io.Message.other = (sink, ok tt)

  abbrev pub native_sinks : Stream.MessageSink Sink → Io.MessageSink Sink IoError
  native_sinks sinks = record { send = sent_natively sinks }

  abbrev pub native : GlooStream Sink → WsStream Sink IoError
  native stream = record {
    source = native_source stream.source;
    sink = stream.sink;
    alive = stream.alive;
  }

  settle-native :
      {A : Type 0} (outcome : Result A (TransportError IoError)) (stream : GlooStream Sink)
      → Io.settle outcome (native stream) ≡ native (Stream.settle outcome stream)
  unfolding Io.settle Stream.settle
  settle-native (ok a) stream = refl
  settle-native (err error) stream = refl

  read_frame-native :
      (cap : ℕ) (stream : GlooStream Sink)
      → Io.read_frame cap (native stream) ≡ (
        native (Stream.read_frame {IoError = IoError} cap stream).0,
        (Stream.read_frame cap stream).1,
      )
  unfolding Io.read_frame Stream.read_frame
  read_frame-native cap stream =
      let read = read_binary_frame-native_source {IoError = IoError} cap stream.source in
      let (source', outcome) = Stream.read_binary_frame {IoError = IoError} cap stream.source in
      rw read (ap (λ s. (s, outcome)) (settle-native outcome (record stream { source = source' })))

  write_frame-native :
      (sinks : Stream.MessageSink Sink) (buffer : Bytes) (stream : GlooStream Sink)
      → Io.write_frame (native_sinks sinks) buffer (native stream) ≡ (
        native (Stream.write_frame {IoError = IoError} sinks buffer stream).0,
        (Stream.write_frame sinks buffer stream).1,
      )
  unfolding Io.write_frame Stream.write_frame Io.write_binary_frame Stream.write_binary_frame
  write_frame-native sinks buffer stream =
      let (sink', sent) = sinks.send stream.sink (bytes buffer) in
      let outcome = map_err (Stream.map_ws_error {IoError = IoError}) sent in
      rw (map_err-native_sent {IoError = IoError} sent)
        (ap (λ s. (s, outcome)) (settle-native outcome (record stream { sink = sink' })))

  abbrev pub browser_operation :
      Stream.MessageSink Sink → Operation → GlooStream Sink → GlooStream Sink × Yield IoError
  browser_operation sinks (reads cap) stream =
      let (stream', outcome) = Stream.read_frame cap stream in (stream', envelope outcome)
  browser_operation sinks (writes buffer) stream =
      let (stream', outcome) = Stream.write_frame sinks buffer stream in (stream', written outcome)

  abbrev pub native_operation :
      Io.MessageSink Sink IoError
      → Operation
      → WsStream Sink IoError
      → WsStream Sink IoError × Yield IoError
  native_operation sinks (reads cap) stream =
      let (stream', outcome) = Io.read_frame cap stream in (stream', envelope outcome)
  native_operation sinks (writes buffer) stream =
      let (stream', outcome) = Io.write_frame sinks buffer stream in (stream', written outcome)

  operation-native :
      (sinks : Stream.MessageSink Sink) (op : Operation) (stream : GlooStream Sink)
      → native_operation (native_sinks sinks) op (native stream)
        ≡ (native (browser_operation sinks op stream).0, (browser_operation sinks op stream).1)
  operation-native sinks (reads cap) stream =
      ap (λ r. (r.0, envelope r.1)) (read_frame-native cap stream)
  operation-native sinks (writes buffer) stream =
      ap (λ r. (r.0, written r.1)) (write_frame-native sinks buffer stream)

  -- The browser's stream refines the native one: any reads and writes yield what they yield on the
  -- native stream over what its socket reports in their place, errors included, and leave the
  -- streams in step, what is still to come and the alive flag included.
  pub perform-native :
      (sinks : Stream.MessageSink Sink) (ops : List Operation) (stream : GlooStream Sink)
      → perform (native_operation (native_sinks sinks)) ops (native stream) ≡ (
        native (perform (browser_operation sinks) ops stream).0,
        (perform (browser_operation sinks) ops stream).1,
      )
  perform-native sinks [] stream = refl
  perform-native sinks (op ∷ ops) stream =
      let (stream', yielded) = browser_operation sinks op stream in
      rw (operation-native sinks op stream)
        (ap (λ r. (r.0, yielded ∷ r.1)) (perform-native sinks ops stream'))
