-- ===== src/Ws/Wasm/Streaming/Sequential.antt =====
-- ws/tightbeam-ws-wasm/src/streaming.rs: what the calls on a `MuxRequestStream` come to when each
-- of them is awaited before the next.
use tightbeam_ext.Prelude.{
  ◌≡◌, refl, ap, Option, none, some, Bool, true, false, List, [], ◌∷◌, ◌++◌, any, Bytes,
}
use tightbeam_ext.Prelude.Result.{Result, ok, err}
use tightbeam_ext.Ws.Wasm.Faults.{transport_to_js}
use tightbeam_ext.Ws.Wasm.Streaming.Slots.{MuxStreams}
use tightbeam_ext.Ws.Wasm.Streaming.Request.{Settled, pushed, resolved, rejected}
use tightbeam_ext.Ws.Wasm.Streaming.Session.{Record, chunk, last}

abbrev pub is_last : Record → Bool
is_last (chunk bytes) = false
is_last (last bytes) = true

-- Nothing follows the end of a body.
abbrev pub IsBody : List Record → Type 0
IsBody [] = Unit
IsBody (chunk bytes ∷ rest) = IsBody rest
IsBody (last bytes ∷ rest) = rest ≡ []

-- The body has not ended.
abbrev pub IsOpen : List Record → Type 0
IsOpen [] = Unit
IsOpen (chunk bytes ∷ rest) = IsOpen rest
IsOpen (last bytes ∷ rest) = ⊥

pub IsOpen-IsBody : (rs : List Record) → IsOpen rs → IsBody rs
IsOpen-IsBody [] o = tt
IsOpen-IsBody (chunk bytes ∷ rs) o = IsOpen-IsBody rs o
IsOpen-IsBody (last bytes ∷ rs) o = absurd o

pub IsBody-append : (rs : List Record) (r : Record) → IsOpen rs → IsBody (rs ++ r ∷ [])
IsBody-append [] (chunk bytes) o = tt
IsBody-append [] (last bytes) o = refl
IsBody-append (chunk bytes ∷ rs) r o = IsBody-append rs r o
IsBody-append (last bytes ∷ rs) r o = absurd o

pub IsOpen-append : (rs : List Record) (bytes : Bytes) → IsOpen rs → IsOpen (rs ++ chunk bytes ∷ [])
IsOpen-append [] bytes o = tt
IsOpen-append (chunk own ∷ rs) bytes o = IsOpen-append rs bytes o
IsOpen-append (last own ∷ rs) bytes o = absurd o

pub ended-append :
    (rs : List Record) (bytes : Option Bytes) → any is_last (rs ++ last bytes ∷ []) ≡ true
ended-append [] bytes = refl
ended-append (chunk own ∷ rs) bytes = ended-append rs bytes
ended-append (last own ∷ rs) bytes = refl

module _ {Sink Body Response Frame Transport : Type 0}
    (streams : MuxStreams Sink Body Response Frame Transport) where
  -- The sink after the chunks are pushed one after another.
  abbrev pub sink_after : Sink → List Record → Sink
  sink_after sink [] = sink
  sink_after sink (chunk bytes ∷ rs) = sink_after (streams.push sink bytes).0 rs
  sink_after sink (last bytes ∷ rs) = sink

  abbrev pub push_answer : Result (Unit {0}) Transport → Settled Transport
  push_answer (ok done) = pushed
  push_answer (err error) = rejected (transport_to_js error)

  -- The end of the body, with a chunk or without.
  abbrev pub ended_by : Sink → Option Bytes → Result (Unit {0}) Transport
  ended_by sink none = streams.close sink
  ended_by sink (some bytes) = streams.close_with sink bytes

  abbrev pub frame_answer : Result (Option Frame) Transport → Settled Transport
  frame_answer (err error) = rejected (transport_to_js error)
  frame_answer (ok none) = resolved none
  frame_answer (ok (some frame)) = elim (streams.frame_to_der frame) [
    | ok der ↦ resolved (some der)
    | err fault ↦ rejected fault
  ]

  -- A close that succeeds is answered by the response of the stream.
  abbrev pub end_answer : Response → Result (Unit {0}) Transport → Settled Transport
  end_answer response (ok done) = frame_answer (streams.response response)
  end_answer response (err error) = rejected (transport_to_js error)

  -- The answers to calls with the records, on a sink, one after another.
  abbrev pub answers_to : Response → Sink → List Record → List (Settled Transport)
  answers_to response sink [] = []
  answers_to response sink (chunk bytes ∷ rs) =
      push_answer (streams.push sink bytes).1 ∷ answers_to response (streams.push sink bytes).0 rs
  answers_to response sink (last bytes ∷ rs) = end_answer response (ended_by sink bytes) ∷ []

  pub sink_after-append :
      (sink : Sink) (rs : List Record) (bytes : Bytes)
      → IsOpen rs
      → sink_after sink (rs ++ chunk bytes ∷ []) ≡ (streams.push (sink_after sink rs) bytes).0
  sink_after-append sink [] bytes o = refl
  sink_after-append sink (chunk own ∷ rs) bytes o =
      sink_after-append (streams.push sink own).0 rs bytes o
  sink_after-append sink (last own ∷ rs) bytes o = absurd o

  pub answers_to-append :
      (response : Response) (sink : Sink) (rs : List Record) (r : Record)
      → IsOpen rs
      → answers_to response sink (rs ++ r ∷ [])
        ≡ answers_to response sink rs ++ answers_to response (sink_after sink rs) (r ∷ [])
  answers_to-append response sink [] r o = refl
  answers_to-append response sink (chunk own ∷ rs) r o =
      ap (λ (l : List (Settled Transport)). push_answer (streams.push sink own).1 ∷ l)
        (answers_to-append response (streams.push sink own).0 rs r o)
  answers_to-append response sink (last own ∷ rs) r o = absurd o
