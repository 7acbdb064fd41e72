-- ===== src/Ws/Wasm/Streaming/Reading.antt =====
-- ws/tightbeam-ws-wasm/src/streaming.rs: the reads of a duplex handle, whatever calls are made on it
-- and in whatever order they are resumed.
use tightbeam_ext.Prelude.{◌≡◌, ℕ, zero, suc, Option, List, [], ◌∷◌, ◌++◌}
use tightbeam_ext.Ws.Wasm.Streaming.Slots.{MuxStreams, finish_chunk}
use tightbeam_ext.Ws.Wasm.Streaming.Duplex.{Flight, Settled, Session}
use tightbeam_ext.Ws.Wasm.Streaming.Readers.{Chunk, chunks, bodies}

module _ {Sink Body Response Frame Transport : Type 0}
    (streams : MuxStreams Sink Body Response Frame Transport) where
  -- The abstract body: one read after another.
  unfoldable pub read_in_order : ℕ → Body → Body × List (Chunk Transport)
  unfolding finish_chunk
  read_in_order zero body = (body, [])
  read_in_order (suc n) body =
      let (held, outcomes) = read_in_order n body in
      let (slot, outcome) = finish_chunk streams held in
      ((streams.chunk held).0, outcomes ++ outcome ∷ [])

  -- The handle holds the body that so many reads leave, in its slot or in one call, and its reads
  -- were answered what they yield.
  pub record InOrder (body : Body) (s : Session Sink Body Transport) : Type 0 where
    pub count : ℕ
    pub held : bodies s.inner.body s.flights ≡ (read_in_order count body).0 ∷ []
    pub answered : chunks s.settled ≡ (read_in_order count body).1

  abbrev session :
      Option Sink
      → Option Body
      → List (Flight Sink Body)
      → List (Settled Transport)
      → Session Sink Body Transport
  session sink body flights settled = record {
    inner = record { sink = sink; body = body };
    flights = flights;
    settled = settled;
  }
