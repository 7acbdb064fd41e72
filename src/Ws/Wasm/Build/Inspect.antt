-- ===== src/Ws/Wasm/Build/Inspect.antt =====
-- ws/tightbeam-ws-wasm/src/build.rs: the decoded view of a frame. The types of a decoded `Frame`
-- are tightbeam's, with the accessors that the code calls as fields.
use mathlib.Core.Option
use tightbeam_ext.Prelude.{ℕ, String, Option, none, some, Bytes}
use tightbeam_ext.Prelude.Result.{Result, ok, ◌>>=◌}
use tightbeam_ext.Ws.Wasm.Errors.{TightBeamError}
use tightbeam_ext.Ws.Wasm.Build.Der.{Any, Der}
use tightbeam_ext.Ws.Wasm.Build.Wire.{Codecs, DigestInfo, CompressedData}
use tightbeam_ext.Ws.Wasm.Build.Config.{Version}
use tightbeam_ext.Ws.Wasm.Build.Building.{rank}

pub record Matrix : Type 0 where
  pub n : ℕ
  pub bytes : Bytes

pub record Metadata (Envelope Oid : Type 0) : Type 0 where
  pub id : Bytes
  pub order : ℕ
  pub compactness : Option (CompressedData Oid)
  pub integrity : Option (DigestInfo Oid)
  pub confidentiality : Option Envelope
  pub priority : Option ℕ
  pub lifetime : Option ℕ
  pub previous_frame : Option (DigestInfo Oid)
  pub matrix : Option Matrix

pub record SignerInfo (Oid : Type 0) : Type 0 where
  pub signature_algorithm : Oid
  pub digest_alg : Oid
  pub signature : Bytes

pub record Frame (Envelope Oid : Type 0) : Type 0 where
  pub version : Version
  pub metadata : Metadata Envelope Oid
  pub message : Bytes
  pub integrity : Option (DigestInfo Oid)
  pub nonrepudiation : Option (SignerInfo Oid)

pub record FrameSummary : Type 0 where
  pub version : ℕ
  pub id : Bytes
  pub order : ℕ
  pub body_der : Bytes
  pub priority : Option ℕ
  pub lifetime : Option ℕ
  pub previous_hash_algorithm_oid : Option String
  pub previous_hash_digest : Option Bytes
  pub matrix_n : Option ℕ
  pub matrix_data : Option Bytes
  pub compactness_algorithm_oid : Option String
  pub compactness_parameters_der : Option Bytes
  pub compactness_content_oid : Option String
  pub message_integrity_algorithm_oid : Option String
  pub message_integrity_digest : Option Bytes
  pub frame_integrity_algorithm_oid : Option String
  pub frame_integrity_digest : Option Bytes
  pub confidentiality_algorithm_oid : Option String
  pub confidentiality_envelope_der : Option Bytes
  pub signature_algorithm_oid : Option String
  pub signature_digest_algorithm_oid : Option String
  pub signature : Option Bytes

-- `Option::transpose` after a `map` of a fallible call.
abbrev pub transpose : {A B E : Type 0} → (A → Result B E) → Option A → Result (Option B) E
transpose f none = ok none
transpose f (some a) = f a >>= λ b. ok (some b)

-- The `and_then` to the parameters of the compression.
abbrev pub compression_parameters : {Oid : Type 0} → Option (CompressedData Oid) → Option Any
compression_parameters none = none
compression_parameters (some compactness) = compactness.compression_alg.parameters

module _ {Envelope Oid Fault : Type 0} (der : Der (TightBeamError Fault))
    (codecs : Codecs (Frame Envelope Oid) Envelope Oid (TightBeamError Fault))
    (to_string : Oid → String) (content_enc_alg : Envelope → Oid) where
  unfoldable pub digest_fields : Option (DigestInfo Oid) → Option String × Option Bytes
  digest_fields info = (
    Option.map (λ (i : DigestInfo Oid). to_string i.algorithm.oid) info,
    Option.map (λ (i : DigestInfo Oid). i.digest) info,
  )

  unfoldable pub summary : Frame Envelope Oid → Option Bytes → Option Bytes → FrameSummary
  unfolding digest_fields
  summary frame parameters_der envelope_der =
      let metadata = frame.metadata in
      let (previous_oid, previous_digest) = digest_fields metadata.previous_frame in
      let (message_oid, message_digest) = digest_fields metadata.integrity in
      let (frame_oid, frame_digest) = digest_fields frame.integrity in
      record {
        version = rank frame.version;
        id = metadata.id;
        order = metadata.order;
        body_der = frame.message;
        priority = metadata.priority;
        lifetime = metadata.lifetime;
        previous_hash_algorithm_oid = previous_oid;
        previous_hash_digest = previous_digest;
        matrix_n = Option.map (λ (m : Matrix). m.n) metadata.matrix;
        matrix_data = Option.map (λ (m : Matrix). m.bytes) metadata.matrix;
        compactness_algorithm_oid =
            Option.map (λ (c : CompressedData Oid). to_string c.compression_alg.oid)
              metadata.compactness;
        compactness_parameters_der = parameters_der;
        compactness_content_oid =
            Option.map (λ (c : CompressedData Oid). to_string c.encap_content_info.econtent_type)
              metadata.compactness;
        message_integrity_algorithm_oid = message_oid;
        message_integrity_digest = message_digest;
        frame_integrity_algorithm_oid = frame_oid;
        frame_integrity_digest = frame_digest;
        confidentiality_algorithm_oid =
            Option.map (λ (e : Envelope). to_string (content_enc_alg e)) metadata.confidentiality;
        confidentiality_envelope_der = envelope_der;
        signature_algorithm_oid =
            Option.map (λ (s : SignerInfo Oid). to_string s.signature_algorithm)
              frame.nonrepudiation;
        signature_digest_algorithm_oid =
            Option.map (λ (s : SignerInfo Oid). to_string s.digest_alg) frame.nonrepudiation;
        signature = Option.map (λ (s : SignerInfo Oid). s.signature) frame.nonrepudiation;
      }

  unfoldable pub inspect_frame : Bytes → Result FrameSummary (TightBeamError Fault)
  unfolding summary
  inspect_frame frame_der = do
    frame ← codecs.frame_from_der frame_der
    parameters_der ← transpose der.encode (compression_parameters frame.metadata.compactness)
    envelope_der ← transpose codecs.envelope_to_der frame.metadata.confidentiality
    ok (summary frame parameters_der envelope_der)
