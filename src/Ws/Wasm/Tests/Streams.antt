-- ===== src/Ws/Wasm/Tests/Streams.antt =====
-- Concrete inputs for the theorems about ws/tightbeam-ws-wasm/src/streaming.rs and stream.rs.
use tightbeam_ext.Prelude.{◌≡◌, ℕ, suc, some, List, [], ◌∷◌, ◌++◌, Bytes}
use tightbeam_ext.Prelude.Result.{ok, err}
use tightbeam_ext.Ws.Io.Frames.{Operation, reads, writes}
use tightbeam_ext.Ws.Wasm.Stream
use tightbeam_ext.Ws.Wasm.Stream.{GlooStream, bytes, text, connection_close}
use tightbeam_ext.Ws.Wasm.Stream.Agreement.{
  perform, native_operation, browser_operation, native, native_sinks, perform-native,
}
use tightbeam_ext.Ws.Wasm.Streaming.Slots.{MuxStreams}
use tightbeam_ext.Ws.Wasm.Streaming.Request
use tightbeam_ext.Ws.Wasm.Streaming.Request.{start, settled, rejected, resolve_response, resume}
use tightbeam_ext.Ws.Wasm.Streaming.Session
use tightbeam_ext.Ws.Wasm.Streaming.Exclusion.{Kept, run-Kept_opened}
use tightbeam_ext.Ws.Wasm.Streaming.Duplex

-- A sink is what it was given, a body counts its chunks, and a response is its frame.
abbrev streams : MuxStreams Bytes ℕ Bytes Bytes (Unit {0})
streams = record {
  push = λ sink chunk. (sink ++ chunk, ok tt);
  close = λ sink. ok tt;
  close_with = λ sink chunk. ok tt;
  chunk = λ body. (suc body, ok (some (body ∷ [])));
  response = λ frame. ok (some frame);
  frame_to_der = λ frame. ok frame;
}

-- A push that is not awaited, a close that finds the sink taken, and a close in its turn.
abbrev hurried : List Session.Event
hurried =
    Session.call (Request.push (1 ∷ []))
    ∷ Session.call Request.close
    ∷ Session.wake 0
    ∷ Session.call (Request.close_with (2 ∷ []))
    ∷ Session.wake 0
    ∷ Session.wake 0
    ∷ []

run-Kept_opened_example :
    Kept streams [] (8 ∷ []) (Session.run streams hurried (Session.opened [] (8 ∷ [])))
run-Kept_opened_example = run-Kept_opened streams [] (8 ∷ []) hurried

-- Two reads that are not awaited, of which one finds the body taken, and another.
abbrev eager : List Duplex.Event
eager =
    Duplex.call Duplex.next_chunk
    ∷ Duplex.call Duplex.next_chunk
    ∷ Duplex.call (Duplex.push (1 ∷ []))
    ∷ Duplex.wake 1
    ∷ Duplex.wake 0
    ∷ Duplex.call Duplex.next_chunk
    ∷ Duplex.wake 0
    ∷ []

-- A sink counts the messages.
abbrev sinks : Stream.MessageSink ℕ
sinks = record { send = λ sink message. (suc sink, ok tt) }

abbrev browser : GlooStream ℕ
browser =
    Stream.from
      (ok (text "hello")
        ∷ ok (bytes (1 ∷ 2 ∷ []))
        ∷ ok (bytes (3 ∷ 4 ∷ []))
        ∷ err connection_close
        ∷ [])
      0

abbrev operations : List Operation
operations = reads 2 ∷ writes (5 ∷ []) ∷ reads 1 ∷ reads 2 ∷ []

perform-native_example :
    perform (native_operation {IoError = Unit {0}} (native_sinks sinks)) operations (native browser)
    ≡ (
      native (perform (browser_operation {IoError = Unit {0}} sinks) operations browser).0,
      (perform (browser_operation sinks) operations browser).1,
    )
perform-native_example = perform-native sinks operations browser
