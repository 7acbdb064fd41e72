-- ===== src/Ws/Wasm/Streaming/Session.antt =====
-- ws/tightbeam-ws-wasm/src/streaming.rs: the calls on one `MuxRequestStream` over time. A call may
-- be made while others are suspended, and they are resumed in any order.
use tightbeam_ext.Prelude.{ℕ, zero, suc, Option, none, some, List, [], ◌∷◌, ◌++◌, get_elem?, Bytes}
use tightbeam_ext.Ws.Wasm.Streaming.Slots.{MuxStreams}
use tightbeam_ext.Ws.Wasm.Streaming.Request.{
  RequestInner, Call, push, close, close_with, Flight, Settled, Progress, suspended, settled,
  from_parts, start, resume,
}

-- What a sink is given: a chunk, or the end, with a chunk or without.
pub data Record : Type 0 where
  chunk : Bytes → Record
  last : Option Bytes → Record

-- Beside the handle and its suspended calls: `accepted` is what the calls that found the sink were
-- called with, in the order of the calls, and `answers` how the promises of those calls settled, in
-- the order of their settling.
pub record Session (Sink Response Transport : Type 0) : Type 0 where
  pub inner : RequestInner Sink Response
  pub flights : List (Flight Sink Response)
  pub accepted : List Record
  pub answers : List (Settled Transport)

pub data Event : Type 0 where
  call : Call → Event
  wake : ℕ → Event

abbrev pub remove_at : {A : Type 0} → ℕ → List A → List A
remove_at i [] = []
remove_at zero (x ∷ xs) = xs
remove_at (suc i) (x ∷ xs) = x ∷ remove_at i xs

-- What a method has for the sink.
abbrev pub record_of : Call → Record
record_of (push bytes) = chunk bytes
record_of close = last none
record_of (close_with bytes) = last (some bytes)

module _ {Sink Response Transport : Type 0} where
  abbrev pub opened : Sink → Response → Session Sink Response Transport
  opened sink response = record {
    inner = from_parts sink response;
    flights = [];
    accepted = [];
    answers = [];
  }

  abbrev pub added : Progress Sink Response Transport → List (Flight Sink Response)
  added (suspended flight) = flight ∷ []
  added (settled outcome) = []

  abbrev pub taken : Call → Progress Sink Response Transport → List Record
  taken method (suspended flight) = record_of method ∷ []
  taken method (settled outcome) = []

  abbrev pub answered : Progress Sink Response Transport → List (Settled Transport)
  answered (suspended flight) = []
  answered (settled outcome) = outcome ∷ []

  abbrev pub begin :
      Call
      → RequestInner Sink Response × Progress Sink Response Transport
      → Session Sink Response Transport
      → Session Sink Response Transport
  begin method (inner, progress) s = record s {
    inner = inner;
    flights = s.flights ++ added progress;
    accepted = s.accepted ++ taken method progress;
  }

  -- Where a method goes from its suspension.
  abbrev pub land :
      ℕ
      → RequestInner Sink Response × Progress Sink Response Transport
      → Session Sink Response Transport
      → Session Sink Response Transport
  land i (inner, progress) s = record s {
    inner = inner;
    flights = remove_at i s.flights ++ added progress;
    answers = s.answers ++ answered progress;
  }

module _ {Sink Body Response Frame Transport : Type 0}
    (streams : MuxStreams Sink Body Response Frame Transport) where
  abbrev pub woken :
      ℕ
      → Option (Flight Sink Response)
      → Session Sink Response Transport
      → Session Sink Response Transport
  woken i none s = s
  woken i (some flight) s = land i (resume streams flight s.inner) s

  unfoldable pub step : Event → Session Sink Response Transport → Session Sink Response Transport
  unfolding start resume
  step (call method) s = begin method (start method s.inner) s
  step (wake i) s = woken i (get_elem? s.flights i) s

  unfoldable pub run :
      List Event → Session Sink Response Transport → Session Sink Response Transport
  unfolding step
  run [] s = s
  run (e ∷ es) s = run es (step e s)
