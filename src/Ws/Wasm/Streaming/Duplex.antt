-- ===== src/Ws/Wasm/Streaming/Duplex.antt =====
-- ws/tightbeam-ws-wasm/src/streaming.rs: `MuxDuplexStream`, and the calls on one handle over time.
-- `MuxStreamBody` is the body of one alone, and `MuxReplySink` its sink with `push` alone: their
-- methods are the ones here.
use tightbeam_ext.Prelude.{ℕ, Option, none, some, List, [], ◌∷◌, ◌++◌, get_elem?, Bytes}
use tightbeam_ext.Prelude.Result.{Result, ok, err, map_err}
use tightbeam_ext.Ws.Wasm.Faults.{JsFault, transport_to_js}
use tightbeam_ext.Ws.Wasm.Streaming.Slots.{MuxStreams, take, finish_push, finish_chunk}
use tightbeam_ext.Ws.Wasm.Streaming.Session.{remove_at}

pub record DuplexInner (Sink Body : Type 0) : Type 0 where
  pub sink : Option Sink
  pub body : Option Body

-- The methods.
pub data Call : Type 0 where
  push : Bytes → Call
  close : Call
  close_with : Bytes → Call
  next_chunk : Call

-- Where a method is suspended, with what it holds.
pub data Flight (Sink Body : Type 0) : Type 0 where
  pushing : Sink → Bytes → Flight Sink Body
  closing : Sink → Flight Sink Body
  closing_with : Sink → Bytes → Flight Sink Body
  reading : Body → Flight Sink Body

-- How a promise settles: with nothing, or with what `next_chunk` read, or rejected.
pub data Settled (Transport : Type 0) : Type 0 where
  sent : Result (Unit {0}) (JsFault Transport) → Settled Transport
  read : Result (Option Bytes) (JsFault Transport) → Settled Transport
  refused : JsFault Transport → Settled Transport

-- A session: the handle, the calls that are suspended, and how the others settled, in order.
pub record Session (Sink Body Transport : Type 0) : Type 0 where
  pub inner : DuplexInner Sink Body
  pub flights : List (Flight Sink Body)
  pub settled : List (Settled Transport)

pub data Event : Type 0 where
  call : Call → Event
  wake : ℕ → Event

module _ {Sink Body : Type 0} where
  abbrev pub from_parts : Sink → Body → DuplexInner Sink Body
  from_parts sink body = record { sink = some sink; body = some body }

module _ {Sink Body Transport : Type 0} where
  abbrev pub opened : Sink → Body → Session Sink Body Transport
  opened sink body = record { inner = from_parts sink body; flights = []; settled = [] }

  abbrev refuse : JsFault Transport → Session Sink Body Transport → Session Sink Body Transport
  refuse fault s = record s { settled = s.settled ++ refused fault ∷ [] }

  -- A method of the sink that took it, or found it taken.
  abbrev pub with_sink :
      (Sink → Flight Sink Body)
      → Result Sink (JsFault Transport)
      → Session Sink Body Transport
      → Session Sink Body Transport
  with_sink flight (ok held) s = record s {
    inner = record s.inner { sink = none };
    flights = s.flights ++ flight held ∷ [];
  }
  with_sink flight (err fault) s = refuse fault s

  abbrev pub with_body :
      Result Body (JsFault Transport) → Session Sink Body Transport → Session Sink Body Transport
  with_body (ok held) s = record s {
    inner = record s.inner { body = none };
    flights = s.flights ++ reading held ∷ [];
  }
  with_body (err fault) s = refuse fault s

  -- The first poll of a method.
  unfoldable pub start : Call → Session Sink Body Transport → Session Sink Body Transport
  start (push chunk) s = with_sink (λ held. pushing held chunk) (take s.inner.sink) s
  start close s = with_sink closing (take s.inner.sink) s
  start (close_with chunk) s = with_sink (λ held. closing_with held chunk) (take s.inner.sink) s
  start next_chunk s = with_body (take s.inner.body) s

  abbrev pub land :
      ℕ
      → DuplexInner Sink Body × Settled Transport
      → Session Sink Body Transport
      → Session Sink Body Transport
  land i (inner, outcome) s = record {
    inner = inner;
    flights = remove_at i s.flights;
    settled = s.settled ++ outcome ∷ [];
  }

module _ {Sink Body Response Frame Transport : Type 0}
    (streams : MuxStreams Sink Body Response Frame Transport) where
  -- What a method does when its suspension ends.
  unfoldable pub resume :
      Flight Sink Body → DuplexInner Sink Body → DuplexInner Sink Body × Settled Transport
  unfolding finish_push finish_chunk
  resume (pushing held chunk) inner =
      let (slot, outcome) = finish_push streams held chunk in
      (record inner { sink = slot }, sent outcome)
  resume (closing held) inner = (inner, sent (map_err transport_to_js (streams.close held)))
  resume (closing_with held chunk) inner =
      (inner, sent (map_err transport_to_js (streams.close_with held chunk)))
  resume (reading held) inner =
      let (slot, outcome) = finish_chunk streams held in
      (record inner { body = slot }, read outcome)

  abbrev pub woken :
      ℕ → Option (Flight Sink Body) → Session Sink Body Transport → Session Sink Body Transport
  woken i none s = s
  woken i (some flight) s = land i (resume flight s.inner) s

  unfoldable pub step : Event → Session Sink Body Transport → Session Sink Body Transport
  unfolding start resume
  step (call method) s = start method s
  step (wake i) s = woken i (get_elem? s.flights i) s

  unfoldable pub run : List Event → Session Sink Body Transport → Session Sink Body Transport
  unfolding step
  run [] s = s
  run (e ∷ es) s = run es (step e s)
