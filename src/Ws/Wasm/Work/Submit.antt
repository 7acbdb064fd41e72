-- ===== src/Ws/Wasm/Work/Submit.antt =====
-- ws/tightbeam-ws-wasm/src/mux.rs: `run_submit_work`, a submission from the target and the frame to
-- the servlet's reply. The URN parser and the stream of the mux are those of the tightbeam crate:
-- interfaces.
use tightbeam_ext.Prelude.{◌≡◌, ◌≢◌, ◌↔◌, refl, ap, Option, some, Bytes}
use tightbeam_ext.Prelude.Result.{Result, ok, err, ◌>>=◌, ok_or, map_err, ok-injective}
use tightbeam_ext.Ws.Wasm.Errors.{
  TransitStatus, ok_status, TightBeamError, missing_response, work_refused,
}
use tightbeam_ext.Ws.Wasm.Build.Der.{Any, Der}
use tightbeam_ext.Ws.Wasm.Build.Wire.{Codecs}
use tightbeam_ext.Ws.Wasm.Build.Config.{FrameBuilder}
use tightbeam_ext.Ws.Wasm.Work.Envelope.{from_encoded, into_transport_frame}
use tightbeam_ext.Ws.Wasm.Work.Reply.{
  WorkReply, try_from, served_der, served_der-ok_iff, served_der-refused,
}

-- What the promise of a submission rejects with: a target that is no URN, bytes that are no frame,
-- an error of the work plane, or one of the transport.
pub data SubmitFault (Fault Transport : Type 0) : Type 0 where
  invalid_stream_route : SubmitFault Fault Transport
  not_a_frame : TightBeamError Fault → SubmitFault Fault Transport
  work_error : TightBeamError Fault → SubmitFault Fault Transport
  transport_fault : Transport → SubmitFault Fault Transport

-- `emit` is `emit_on_stream`, `parse_urn` is `Urn::from_str`, and `frame_id` and `message` are
-- getters of a frame.
pub record Gateway (Target Urn Frame Transport : Type 0) : Type 0 where
  pub parse_urn : Target → Option Urn
  pub frame_id : Frame → Bytes
  pub emit : Frame → Result (Option Frame) Transport
  pub message : Frame → Bytes

module _ {Target Urn Builder Frame Body Envelope Oid Priority Hash Matrix Fault Transport : Type 0}
    (der : Der (TightBeamError Fault)) (codecs : Codecs Frame Envelope Oid (TightBeamError Fault))
    (builders : FrameBuilder Builder Frame Body Priority Hash Matrix (TightBeamError Fault))
    (urn_to_der : Urn → Result Bytes (TightBeamError Fault))
    (status_from : Any → Result TransitStatus (TightBeamError Fault))
    (gateway : Gateway Target Urn Frame Transport) where
  abbrev Outcome : Type 0 → Type 0
  Outcome A = Result A (SubmitFault Fault Transport)

  unfoldable pub parse_stream_target : Target → Outcome Urn
  parse_stream_target target = ok_or invalid_stream_route (gateway.parse_urn target)

  -- The part before the stream: the transport frame.
  unfoldable pub work_transport : Target → Bytes → Outcome Frame
  unfolding parse_stream_target
  work_transport target work_frame_der = do
    servlet_type ← parse_stream_target target
    work ← map_err not_a_frame (codecs.frame_from_der work_frame_der)
    map_err work_error (
        into_transport_frame der codecs builders urn_to_der
          (from_encoded gateway.frame_id servlet_type work_frame_der work))

  -- The part after it: what the reply's frame is worth.
  unfoldable pub resolve_reply : Frame → Outcome Bytes
  resolve_reply reply = map_err work_error (
      try_from der status_from (gateway.message reply) >>= λ work_reply.
      served_der codecs.frame_from_der work_reply)

  unfoldable pub run_submit_work : Target → Bytes → Outcome Bytes
  unfolding work_transport resolve_reply
  run_submit_work target work_frame_der = do
    transport ← work_transport target work_frame_der
    answer ← map_err transport_fault (gateway.emit transport)
    reply ← ok_or (work_error missing_response) answer
    resolve_reply reply

  -- A submission that reaches the gateway, and whose reply decodes, resolves with bytes exactly if
  -- the reply is `Ok` with these bytes as its payload and they decode as a frame.
  pub run_submit_work-ok_iff :
      (target : Target) (work_frame_der bytes : Bytes) (transport reply : Frame)
      (answer : WorkReply)
      → work_transport target work_frame_der ≡ ok transport
      → gateway.emit transport ≡ ok (some reply)
      → try_from der status_from (gateway.message reply) ≡ ok answer
      → (run_submit_work target work_frame_der ≡ ok bytes) ↔ (
          (frame : Frame) × (answer.status ≡ ok_status)
          × (answer.payload ≡ some bytes)
          × (codecs.frame_from_der bytes ≡ ok frame))
  unfolding run_submit_work
  run_submit_work-ok_iff target work_frame_der bytes transport reply answer t e d = rw t (
      rw e (
        rw d (
          lifted (served_der codecs.frame_from_der answer)
            (served_der-ok_iff codecs.frame_from_der answer bytes))))
    where
      lifted :
          {P : Type 0} (served : Result Bytes (TightBeamError Fault))
          → (served ≡ ok bytes) ↔ P
          → (map_err {F = SubmitFault Fault Transport} work_error served ≡ ok bytes) ↔ P
      lifted (ok b) iff = (λ h. iff.0 (ap ok (ok-injective h)), λ p. ap ok (ok-injective (iff.1 p)))
      lifted (err f) iff = (λ h. cc, λ p. cc (iff.1 p))

  -- A refusal by the gateway rejects with its status, whatever payload the reply has.
  pub run_submit_work-refused :
      (target : Target) (work_frame_der : Bytes) (transport reply : Frame) (answer : WorkReply)
      → work_transport target work_frame_der ≡ ok transport
      → gateway.emit transport ≡ ok (some reply)
      → try_from der status_from (gateway.message reply) ≡ ok answer
      → answer.status ≢ ok_status
      → run_submit_work target work_frame_der ≡ err (work_error (work_refused answer.status))
  unfolding run_submit_work
  run_submit_work-refused target work_frame_der transport reply answer t e d refused =
      rw t (rw e (rw d (rw ((served_der-refused codecs.frame_from_der answer).0 refused) refl)))
