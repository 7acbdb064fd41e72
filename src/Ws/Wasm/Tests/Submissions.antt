-- ===== src/Ws/Wasm/Tests/Submissions.antt =====
-- Concrete inputs for the theorems about ws/tightbeam-ws-wasm/src/work.rs and the submission of
-- mux.rs.
use tightbeam_ext.Prelude.{
  ◌≡◌, ◌↔◌, refl, ℕ, ◌+◌, length, if◌then◌else◌, true, none, some, [], ◌∷◌, Bytes,
}
use tightbeam_ext.Prelude.Result.{Result, ok, err}
use tightbeam_ext.Prelude.Keys.{nat_eq, list_beq}
use tightbeam_ext.Ws.Wasm.Errors.{TransitStatus, ok_status}
use tightbeam_ext.Ws.Wasm.Build.Der.{context_specific, other, Any, tag_eq}
use tightbeam_ext.Ws.Wasm.Build.Sequence.{
  from_der, to_der, any_from_der, value_len, encode_value, put_first, loop_result,
  decode_components, decode_value,
}
use tightbeam_ext.Ws.Wasm.Build.Fields.{field}
use tightbeam_ext.Ws.Wasm.Build.Wire
use tightbeam_ext.Ws.Wasm.Build.Config.{v1, build}
use tightbeam_ext.Ws.Wasm.Work.Envelope.{
  work_body, work_message, into_transport_frame, work_message-nests,
}
use tightbeam_ext.Ws.Wasm.Work.Reply
use tightbeam_ext.Ws.Wasm.Work.Reply.{WorkReply, reply_payload, try_from}
use tightbeam_ext.Ws.Wasm.Work.Submit.{
  Gateway, parse_stream_target, work_transport, run_submit_work, run_submit_work-ok_iff,
}
use tightbeam_ext.Ws.Wasm.Tests.Codec.{Fault, der, laws}
use tightbeam_ext.Ws.Wasm.Tests.Frames.{ExampleFrame, codecs, frame_from_der}
use tightbeam_ext.Ws.Wasm.Tests.Bodies.{builders, built}

-- A URN is one octet.
abbrev urn_to_der : ℕ → Result Bytes Fault
urn_to_der urn = ok (12 ∷ 1 ∷ urn ∷ [])

urn_encodes :
    (urn : ℕ) (bytes : Bytes) → urn_to_der urn ≡ ok bytes → (a : Any) × (der.encode a ≡ ok bytes)
urn_encodes urn bytes h = (record { tag = other 3; value = urn ∷ [] }, h)

abbrev nested : Bytes
nested = 8 ∷ 9 ∷ 0 ∷ 7 ∷ 12 ∷ 1 ∷ 6 ∷ 15 ∷ 2 ∷ 4 ∷ 4 ∷ []

nests : work_message der urn_to_der 6 (4 ∷ 4 ∷ []) ≡ ok nested
unfolding work_message work_body
nests = refl

work_message-nests_example :
    (body : Bytes) × (urn : Any) × (any_from_der der nested
      ≡ ok (record { tag = context_specific true 2; value = body }))
    × (from_der der body ≡ ok (urn ∷ record { tag = other 4; value = 4 ∷ 4 ∷ [] } ∷ []))
    × (der.encode urn ≡ urn_to_der 6)
work_message-nests_example =
    work_message-nests der laws urn_to_der urn_encodes 6 (4 ∷ 4 ∷ []) nested nests

abbrev sent : ExampleFrame
sent = record {
  version = v1;
  metadata = record {
    id = [];
    order = 0;
    compactness = none;
    integrity = none;
    confidentiality = none;
    priority = none;
    lifetime = none;
    previous_frame = none;
    matrix = none;
  };
  message = [];
  integrity = none;
  nonrepudiation = none;
}

-- The status of a reply is one octet.
abbrev status_from : Any → Result TransitStatus Fault
status_from a = if list_beq a.value (0 ∷ []) then ok ok_status else err der.incomplete

-- It answers every frame with the frame itself, and every frame carries the reply.
abbrev answering : Bytes → Gateway ℕ ℕ ExampleFrame (Unit {0})
answering reply = record {
  parse_urn = λ target. some target;
  frame_id = λ frame. [];
  emit = λ frame. ok (some frame);
  message = λ frame. reply;
}

submitted :
    (reply : Bytes)
    → work_transport der codecs builders urn_to_der status_from (answering reply) 6 built ≡ ok sent
unfolding work_transport parse_stream_target into_transport_frame work_message work_body build
    Wire.parse Wire.finish Wire.set_message frame_from_der from_der to_der any_from_der decode_value
    decode_components put_first loop_result value_len encode_value tag_eq field
submitted reply = refl

abbrev served : WorkReply
served = record { status = ok_status; payload = some built }

abbrev served_message : Bytes
served_message = 0 ∷ (5 + length built) ∷ 12 ∷ 1 ∷ 0 ∷ 15 ∷ length built ∷ built

replied : try_from der status_from served_message ≡ ok served
unfolding try_from Reply.decode_value reply_payload
replied = refl

run_submit_work-ok_iff_example :
    (run_submit_work der codecs builders urn_to_der status_from (answering served_message) 6 built
      ≡ ok built)
    ↔ ((frame : ExampleFrame) × (served.status ≡ ok_status)
        × (served.payload ≡ some built)
        × (codecs.frame_from_der built ≡ ok frame))
run_submit_work-ok_iff_example =
    run_submit_work-ok_iff der codecs builders urn_to_der status_from (answering served_message) 6
      built built sent sent served (submitted served_message) refl replied
