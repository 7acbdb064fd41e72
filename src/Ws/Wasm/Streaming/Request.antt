-- ===== src/Ws/Wasm/Streaming/Request.antt =====
-- ws/tightbeam-ws-wasm/src/streaming.rs: `MuxRequestStream`, and the calls on one handle.
use tightbeam_ext.Prelude.{Option, none, some, Bytes}
use tightbeam_ext.Prelude.Result.{Result, ok, err, ◌>>=◌, map_err}
use tightbeam_ext.Ws.Wasm.Faults.{JsFault, transport_to_js}
use tightbeam_ext.Ws.Wasm.Streaming.Slots.{MuxStreams, take, finish_push, response_der}

pub record RequestInner (Sink Response : Type 0) : Type 0 where
  pub sink : Option Sink
  pub response : Option Response

-- The methods.
pub data Call : Type 0 where
  push : Bytes → Call
  close : Call
  close_with : Bytes → Call

-- Where a method is suspended, with what it holds.
pub data Flight (Sink Response : Type 0) : Type 0 where
  pushing : Sink → Bytes → Flight Sink Response
  closing : Sink → Flight Sink Response
  closing_with : Sink → Bytes → Flight Sink Response
  resolving : Response → Flight Sink Response

-- How a promise settles: with nothing, or with the DER of a response.
pub data Settled (Transport : Type 0) : Type 0 where
  pushed : Settled Transport
  resolved : Option Bytes → Settled Transport
  rejected : JsFault Transport → Settled Transport

-- A method runs to its suspension or to its end.
pub data Progress (Sink Response Transport : Type 0) : Type 0 where
  suspended : Flight Sink Response → Progress Sink Response Transport
  settled : Settled Transport → Progress Sink Response Transport

module _ {Sink Response : Type 0} where
  abbrev pub from_parts : Sink → Response → RequestInner Sink Response
  from_parts sink response = record { sink = some sink; response = some response }

  abbrev pub suspend_with : Call → Sink → Flight Sink Response
  suspend_with (push chunk) held = pushing held chunk
  suspend_with close held = closing held
  suspend_with (close_with chunk) held = closing_with held chunk

module _ {Transport : Type 0} where
  abbrev pub push_outcome : Result (Unit {0}) (JsFault Transport) → Settled Transport
  push_outcome (ok done) = pushed
  push_outcome (err fault) = rejected fault

  abbrev pub response_outcome : Result (Option Bytes) (JsFault Transport) → Settled Transport
  response_outcome (ok der) = resolved der
  response_outcome (err fault) = rejected fault

module _ {Sink Response Transport : Type 0} where
  abbrev pub started :
      Call
      → Result Sink (JsFault Transport)
      → RequestInner Sink Response
      → RequestInner Sink Response × Progress Sink Response Transport
  started call (ok held) inner = (record inner { sink = none }, suspended (suspend_with call held))
  started call (err fault) inner = (inner, settled (rejected fault))

  -- The first poll of a method.
  unfoldable pub start :
      Call
      → RequestInner Sink Response
      → RequestInner Sink Response × Progress Sink Response Transport
  start call inner = started call (take inner.sink) inner

  abbrev pub awaited :
      Result Response (JsFault Transport)
      → RequestInner Sink Response
      → RequestInner Sink Response × Progress Sink Response Transport
  awaited (ok future) inner = (record inner { response = none }, suspended (resolving future))
  awaited (err fault) inner = (inner, settled (rejected fault))

  -- `resolve_response`, up to its suspension.
  unfoldable pub resolve_response :
      RequestInner Sink Response → RequestInner Sink Response × Progress Sink Response Transport
  resolve_response inner = awaited (take inner.response) inner

  -- What follows a close of the sink.
  abbrev pub closed :
      Result (Unit {0}) Transport
      → RequestInner Sink Response
      → RequestInner Sink Response × Progress Sink Response Transport
  closed (ok done) inner = resolve_response inner
  closed (err error) inner = (inner, settled (rejected (transport_to_js error)))

module _ {Sink Body Response Frame Transport : Type 0}
    (streams : MuxStreams Sink Body Response Frame Transport) where
  -- What a method does when its suspension ends.
  unfoldable pub resume :
      Flight Sink Response
      → RequestInner Sink Response
      → RequestInner Sink Response × Progress Sink Response Transport
  unfolding finish_push
  resume (pushing held chunk) inner =
      let (slot, outcome) = finish_push streams held chunk in
      (record inner { sink = slot }, settled (push_outcome outcome))
  resume (closing held) inner = closed (streams.close held) inner
  resume (closing_with held chunk) inner = closed (streams.close_with held chunk) inner
  resume (resolving future) inner = (
    inner,
    settled (
        response_outcome (do
          frame ← map_err transport_to_js (streams.response future)
          response_der streams frame)),
  )
