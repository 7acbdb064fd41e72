-- ===== src/Ws/Wasm/Build/Splice.antt =====
-- ws/tightbeam-ws-wasm/src/build.rs: the operations that install a commitment, an envelope, a
-- compression record or a witness in an encoded frame.
use tightbeam_ext.Prelude.{Option, none, some, unwrap_or, Bytes}
use tightbeam_ext.Prelude.Result.{Result, ok, ◌>>=◌}
use tightbeam_ext.Ws.Wasm.Errors.{TightBeamError}
use tightbeam_ext.Ws.Wasm.Build.Der.{Any, Der}
use tightbeam_ext.Ws.Wasm.Build.Sequence.{any_from_der}
use tightbeam_ext.Ws.Wasm.Build.Tagged.{set_tagged}
use tightbeam_ext.Ws.Wasm.Build.Wire
use tightbeam_ext.Ws.Wasm.Build.Wire.{Codecs, integrity_field, confidentiality_field, algorithm}

module _ {Frame Envelope Oid Fault : Type 0} (der : Der (TightBeamError Fault))
    (codecs : Codecs Frame Envelope Oid (TightBeamError Fault)) where
  abbrev Outcome : Type 0 → Type 0
  Outcome A = Result A (TightBeamError Fault)

  unfoldable pub set_message_integrity : Bytes → Oid → Bytes → Outcome Bytes
  set_message_integrity frame_der algorithm_oid digest = do
    octets ← der.new_octets digest
    wire ← Wire.parse der codecs frame_der
    metadata ←
        set_tagged der integrity_field
          (codecs.digest_to_der (record { algorithm = algorithm algorithm_oid; digest = octets }))
          wire.metadata
    Wire.finish der codecs (record wire { metadata = metadata })

  unfoldable pub set_confidentiality : Bytes → Bytes → Bytes → Outcome Bytes
  set_confidentiality frame_der envelope_der ciphertext = do
    envelope ← codecs.envelope_from_der envelope_der
    wire ← Wire.parse der codecs frame_der
    metadata ← set_tagged der confidentiality_field (codecs.envelope_to_der envelope) wire.metadata
    sealed ← Wire.set_message der codecs ciphertext (record wire { metadata = metadata })
    Wire.finish der codecs sealed

  -- `Any::from_der` of the parameters, when there are any.
  abbrev pub parse_parameters : Option Bytes → Outcome (Option Any)
  parse_parameters none = ok none
  parse_parameters (some bytes) = do parameters ← any_from_der der bytes; ok (some parameters)

  unfoldable pub set_compactness : Bytes → Option Oid → Oid → Option Bytes → Bytes → Outcome Bytes
  set_compactness frame_der content_oid algorithm_oid parameters_der compressed = do
    parameters ← parse_parameters parameters_der
    wire ← Wire.parse der codecs frame_der
    recorded ←
        Wire.set_compactness der codecs
          (record {
            cms_version = 0;
            compression_alg = record { oid = algorithm_oid; parameters = parameters };
            encap_content_info = record {
              econtent_type = unwrap_or codecs.data_type content_oid;
              econtent = none;
            };
          })
          wire
    replaced ← Wire.set_message der codecs compressed recorded
    Wire.finish der codecs replaced

  unfoldable pub witness_input : Bytes → Outcome Bytes
  witness_input frame_der = do
    wire ← Wire.parse der codecs frame_der
    Wire.witness_input der codecs wire

  unfoldable pub attach_witness : Bytes → Oid → Bytes → Outcome Bytes
  attach_witness frame_der algorithm_oid digest = do
    octets ← der.new_octets digest
    wire ← Wire.parse der codecs frame_der
    frame ←
        set_tagged der integrity_field
          (codecs.digest_to_der (record { algorithm = algorithm algorithm_oid; digest = octets }))
          wire.frame
    Wire.finish der codecs (record wire { frame = frame })
