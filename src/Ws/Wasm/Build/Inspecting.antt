-- ===== src/Ws/Wasm/Build/Inspecting.antt =====
-- ws/tightbeam-ws-wasm/src/build.rs: what a summary tells of a frame that was spliced.
use mathlib.Core.Option
use tightbeam_ext.Prelude.{◌≡◌, sym, ap, ◌∙◌, Option, some, String, Bytes}
use tightbeam_ext.Prelude.Result.{ok, bind-ok, ok-injective}
use tightbeam_ext.Ws.Wasm.Errors.{TightBeamError}
use tightbeam_ext.Ws.Wasm.Build.Der.{Der, DerLaws}
use tightbeam_ext.Ws.Wasm.Build.Fields.{field}
use tightbeam_ext.Ws.Wasm.Build.Wire
use tightbeam_ext.Ws.Wasm.Build.Wire.{Codecs, WireFrame, DigestInfo, algorithm, integrity_field}
use tightbeam_ext.Ws.Wasm.Build.Splice.{set_message_integrity}
use tightbeam_ext.Ws.Wasm.Build.Installing.{FrameLaws, set_message_integrity-opens}
use tightbeam_ext.Ws.Wasm.Build.Installed.{set_message_integrity-MetadataField}
use tightbeam_ext.Ws.Wasm.Build.Inspect.{
  Frame, FrameSummary, summary, transpose, compression_parameters, inspect_frame,
}

module _ {Envelope Oid Fault : Type 0} (der : Der (TightBeamError Fault)) (laws : DerLaws der)
    (codecs : Codecs (Frame Envelope Oid) Envelope Oid (TightBeamError Fault))
    (frames : FrameLaws der codecs) (to_string : Oid → String) (content_enc_alg : Envelope → Oid)
    (commitment : (frame_der value : Bytes) (frame : Frame Envelope Oid) (wire : WireFrame)
        (info : DigestInfo Oid)
      → codecs.frame_from_der frame_der ≡ ok frame
      → Wire.parse der codecs frame_der ≡ ok wire
      → field integrity_field wire.metadata ≡ some value
      → codecs.digest_to_der info ≡ ok value
      → frame.metadata.integrity ≡ some info) where
  inspect_frame-parts :
      (frame_der : Bytes) (seen : FrameSummary)
      → inspect_frame der codecs to_string content_enc_alg frame_der ≡ ok seen
      → (frame : Frame Envelope Oid) × (parameters envelope : Option Bytes) × (codecs.frame_from_der
            frame_der
          ≡ ok frame)
        × (summary der codecs to_string content_enc_alg frame parameters envelope ≡ seen)
  unfolding inspect_frame
  inspect_frame-parts frame_der seen h =
      let (frame, a1, a2) = bind-ok (codecs.frame_from_der frame_der) _ seen h in
      let (parameters, b1, b2) =
        bind-ok (transpose der.encode (compression_parameters frame.metadata.compactness)) _ seen
          a2 in
      let (envelope, c1, c2) =
        bind-ok (transpose codecs.envelope_to_der frame.metadata.confidentiality) _ seen b2 in
      (frame, parameters, envelope, a1, ok-injective c2)

  summary-commitment :
      (frame : Frame Envelope Oid) (parameters envelope : Option Bytes) (info : DigestInfo Oid)
      → frame.metadata.integrity ≡ some info
      → let seen = summary der codecs to_string content_enc_alg frame parameters envelope in
        (seen.message_integrity_algorithm_oid ≡ some (to_string info.algorithm.oid))
        × (seen.message_integrity_digest ≡ some info.digest)
  unfolding summary
  summary-commitment frame parameters envelope info h = (
    ap (Option.map (λ (i : DigestInfo Oid). to_string i.algorithm.oid)) h,
    ap (Option.map (λ (i : DigestInfo Oid). i.digest)) h,
  )

  -- Under a DER codec and a decoder of frames that keep their laws, and a decoder that reads a
  -- commitment back from its field, a summary of a frame whose commitment was accepted shows its
  -- digest and its algorithm.
  pub set_message_integrity-inspect_frame :
      (frame_der spliced : Bytes) (oid : Oid) (digest : Bytes) (seen : FrameSummary)
      → set_message_integrity der codecs frame_der oid digest ≡ ok spliced
      → inspect_frame der codecs to_string content_enc_alg spliced ≡ ok seen
      → (seen.message_integrity_algorithm_oid ≡ some (to_string oid))
        × (seen.message_integrity_digest ≡ some digest)
  set_message_integrity-inspect_frame frame_der spliced oid digest seen h k =
      let (wire, p) =
        set_message_integrity-opens der laws codecs frames frame_der spliced oid digest h in
      let (value, after, v1, v2, set, kept) =
        set_message_integrity-MetadataField der laws codecs frames frame_der spliced oid digest wire
          p h in
      let (frame, parameters, envelope, f1, f2) = inspect_frame-parts spliced seen k in
      let info : DigestInfo Oid = record { algorithm = algorithm oid; digest = digest } in
      let shown =
        summary-commitment frame parameters envelope info
          (commitment spliced value frame after info f1 v2 (set.fields 0) v1) in
      (
        sym (ap (λ (s : FrameSummary). s.message_integrity_algorithm_oid) f2) ∙ shown.0,
        sym (ap (λ (s : FrameSummary). s.message_integrity_digest) f2) ∙ shown.1,
      )
