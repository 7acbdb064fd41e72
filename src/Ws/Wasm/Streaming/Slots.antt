-- ===== src/Ws/Wasm/Streaming/Slots.antt =====
-- ws/tightbeam-ws-wasm/src/streaming.rs: the halves of the four handles, which a method takes from
-- its slot across a suspension.
use tightbeam_ext.Prelude.{Option, none, some, Bytes}
use tightbeam_ext.Prelude.Result.{Result, ok, ◌>>=◌, ok_or, map_err}
use tightbeam_ext.Ws.Wasm.Faults.{JsFault, validation, transport_to_js}

-- `RequestSink` (`ReplySink` has the push alone), `StreamBody`, and the future of a response.
pub record MuxStreams (Sink Body Response Frame Transport : Type 0) : Type 0 where
  pub push : Sink → Bytes → Sink × Result (Unit {0}) Transport
  pub close : Sink → Result (Unit {0}) Transport
  pub close_with : Sink → Bytes → Result (Unit {0}) Transport
  pub chunk : Body → Body × Result (Option Bytes) Transport
  pub response : Response → Result (Option Frame) Transport
  pub frame_to_der : Frame → Result Bytes (JsFault Transport)

module _ {Transport : Type 0} where
  abbrev pub stream_closed : JsFault Transport
  stream_closed = validation "StreamClosed" "the streaming handle is closed"

  -- `take().ok_or_else(stream_closed)?`; the slot is left empty.
  abbrev pub take : {A : Type 0} → Option A → Result A (JsFault Transport)
  take slot = ok_or stream_closed slot

module _ {Sink Body Response Frame Transport : Type 0}
    (streams : MuxStreams Sink Body Response Frame Transport) where
  -- What `push` does once it is resumed: the sink goes back to its slot, whatever came of it.
  unfoldable pub finish_push : Sink → Bytes → Option Sink × Result (Unit {0}) (JsFault Transport)
  finish_push held chunk =
      let (held', outcome) = streams.push held chunk in
      (some held', map_err transport_to_js outcome)

  -- What `next_chunk` does once it is resumed.
  unfoldable pub finish_chunk : Body → Option Body × Result (Option Bytes) (JsFault Transport)
  finish_chunk held =
      let (held', outcome) = streams.chunk held in (some held', map_err transport_to_js outcome)

  -- `response_der` of secure.rs.
  abbrev pub response_der : Option Frame → Result (Option Bytes) (JsFault Transport)
  response_der none = ok none
  response_der (some frame) = do der ← streams.frame_to_der frame; ok (some der)
