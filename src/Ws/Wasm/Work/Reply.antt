-- ===== src/Ws/Wasm/Work/Reply.antt =====
-- ws/tightbeam-ws-wasm/src/work.rs: the reply of the gateway.
use tightbeam_ext.Prelude.{
  ◌≡◌, ◌≢◌, ◌↔◌, refl, sym, ap, ◌∙◌, Option, none, some, ◌&&◌, [], ◌∷◌, is_nil, if◌then◌else◌,
  Bytes,
}
use tightbeam_ext.Prelude.Result.{Result, ok, err, ◌>>=◌, ok_or, bind-ok, ok-injective}
use tightbeam_ext.Ws.Wasm.Errors.{
  TransitStatus, ok_status, TightBeamError, missing_response, work_refused,
}
use tightbeam_ext.Ws.Wasm.Build.Der.{Any, Der, other, tag_eq}

pub record WorkReply : Type 0 where
  pub status : TransitStatus
  pub payload : Option Bytes

module _ {Fault : Type 0} (der : Der (TightBeamError Fault))
    (status_from : Any → Result TransitStatus (TightBeamError Fault)) where
  -- The optional payload, and the end of the nested reader.
  unfoldable pub reply_payload : Bytes → Result (Option Bytes) (TightBeamError Fault)
  unfolding tag_eq
  reply_payload [] = ok none
  reply_payload (b ∷ bytes) = do
    (a, rest) ← der.decode (b ∷ bytes)
    if tag_eq a.tag (other 4) && is_nil rest then ok (some a.value) else err der.trailing

  -- `decode_value` over the contents of the SEQUENCE.
  unfoldable pub decode_value : Bytes → Result WorkReply (TightBeamError Fault)
  unfolding reply_payload
  decode_value contents = do
    (a, rest) ← der.decode contents
    status ← status_from a
    payload ← reply_payload rest
    ok (record { status = status; payload = payload })

  -- `TryFrom<&Frame>`, from the message of the frame: the header, the contents, and nothing after
  -- them.
  unfoldable pub try_from : Bytes → Result WorkReply (TightBeamError Fault)
  unfolding decode_value
  try_from message = do
    (contents, rest) ← der.open_header message
    reply ← decode_value contents
    if is_nil rest then ok reply else err der.trailing

module _ {Fault : Type 0} where
  abbrev pub checked : TransitStatus → Option Bytes → Result Bytes (TightBeamError Fault)
  checked ok_status payload = ok_or missing_response payload
  checked refused payload = err (work_refused refused)

  unfoldable pub refusal_checked : WorkReply → Result Bytes (TightBeamError Fault)
  refusal_checked reply = checked reply.status reply.payload

module _ {Frame Fault : Type 0} (frame_from_der : Bytes → Result Frame (TightBeamError Fault)) where
  unfoldable pub served : WorkReply → Result Frame (TightBeamError Fault)
  unfolding refusal_checked
  served reply = do payload ← refusal_checked reply; frame_from_der payload

  unfoldable pub served_der : WorkReply → Result Bytes (TightBeamError Fault)
  unfolding refusal_checked
  served_der reply = do payload ← refusal_checked reply; frame ← frame_from_der payload; ok payload

  -- A reply is served exactly if its status is `Ok` and its payload decodes as a frame, and what is
  -- served is the payload to the octet.
  pub served_der-ok_iff :
      (reply : WorkReply) (bytes : Bytes)
      → (served_der reply ≡ ok bytes) ↔ (
          (frame : Frame) × (reply.status ≡ ok_status)
          × (reply.payload ≡ some bytes)
          × (frame_from_der bytes ≡ ok frame))
  unfolding served_der
  served_der-ok_iff reply bytes = (
    forward reply.status reply.payload,
    λ found. backward reply.status reply.payload found.0 found.1 found.2 found.3,
  )
    where
      forward :
          (s : TransitStatus) (p : Option Bytes)
          → served_der (record { status = s; payload = p }) ≡ ok bytes
          → (frame : Frame) × (s ≡ ok_status) × (p ≡ some bytes) × (frame_from_der bytes ≡ ok frame)
      forward ok_status none h = cc
      forward ok_status (some b) h =
          let (f, a, c) = bind-ok (frame_from_der b) _ bytes h in
          let same = ok-injective c in (f, refl, ap some same, ap frame_from_der (sym same) ∙ a)
      forward _ p h = cc

      backward :
          (s : TransitStatus) (p : Option Bytes) (frame : Frame)
          → s ≡ ok_status
          → p ≡ some bytes
          → frame_from_der bytes ≡ ok frame
          → served_der (record { status = s; payload = p }) ≡ ok bytes
      backward s p frame hs hp e = rw hs (rw hp (rw e refl))

  -- A refusal wins over any payload, and an `Ok` without one is a missing response.
  pub served_der-refused :
      (reply : WorkReply)
      → (reply.status ≢ ok_status → served_der reply ≡ err (work_refused reply.status))
        × (reply.status ≡ ok_status
            → reply.payload ≡ none
            → served_der reply ≡ err missing_response)
  unfolding served_der
  served_der-refused reply =
      (refused reply.status reply.payload, missing reply.status reply.payload)
    where
      refused :
          (s : TransitStatus) (p : Option Bytes)
          → s ≢ ok_status
          → served_der (record { status = s; payload = p }) ≡ err (work_refused s)
      refused ok_status p h = absurd (h refl)
      refused _ p h = refl

      missing :
          (s : TransitStatus) (p : Option Bytes)
          → s ≡ ok_status
          → p ≡ none
          → served_der (record { status = s; payload = p }) ≡ err missing_response
      missing s p hs hp = rw hs (rw hp refl)
