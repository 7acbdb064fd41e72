-- ===== src/Ws/Wasm/Build/Wire.antt =====
-- ws/tightbeam-ws-wasm/src/build.rs: `WireFrame`, a frame encoding open for a splice. The `Frame`
-- codec and the CMS types are those of the tightbeam crate: interfaces.
use tightbeam_ext.Prelude.{
  ℕ, Option, none, some, [], ◌∷◌, get_elem?, set, insert_at, if◌then◌else◌, Bytes,
}
use tightbeam_ext.Prelude.Result.{Result, ok, ◌>>=◌, ok_or}
use tightbeam_ext.Ws.Wasm.Errors.{TightBeamError, invalid_metadata, invalid_body}
use tightbeam_ext.Ws.Wasm.Build.Der.{sequence, tag_eq, Any, Der}
use tightbeam_ext.Ws.Wasm.Build.Sequence.{RawSequence, from_der, to_der, any_from_der}

pub record AlgorithmIdentifier (Oid : Type 0) : Type 0 where
  pub oid : Oid
  pub parameters : Option Any

pub record DigestInfo (Oid : Type 0) : Type 0 where
  pub algorithm : AlgorithmIdentifier Oid
  pub digest : Bytes

pub record EncapsulatedContentInfo (Oid : Type 0) : Type 0 where
  pub econtent_type : Oid
  pub econtent : Option Any

pub record CompressedData (Oid : Type 0) : Type 0 where
  pub cms_version : ℕ
  pub compression_alg : AlgorithmIdentifier Oid
  pub encap_content_info : EncapsulatedContentInfo Oid

-- The codecs of `Frame` and of the CMS types; `data_type` is `id-data`, and `envelope_from_der` is
-- `WireDer::<AuthEnvelopedData>::try_from`.
pub record Codecs (Frame Envelope Oid Error : Type 0) : Type 0 where
  pub frame_from_der : Bytes → Result Frame Error
  pub digest_to_der : DigestInfo Oid → Result Bytes Error
  pub compressed_to_der : CompressedData Oid → Result Bytes Error
  pub envelope_from_der : Bytes → Result Envelope Error
  pub envelope_to_der : Envelope → Result Bytes Error
  pub data_type : Oid

abbrev pub frame_message : ℕ
frame_message = 2

abbrev pub frame_metadata : ℕ
frame_metadata = 1

abbrev pub metadata_compactness : ℕ
metadata_compactness = 2

abbrev pub integrity_field : ℕ
integrity_field = 0

abbrev pub confidentiality_field : ℕ
confidentiality_field = 1

pub record WireFrame : Type 0 where
  pub frame : RawSequence
  pub metadata : RawSequence

abbrev pub algorithm : {Oid : Type 0} → Oid → AlgorithmIdentifier Oid
algorithm oid = record { oid = oid; parameters = none }

-- The compression record goes after `order`, in place of one that is there.
abbrev pub place_compactness : Any → Option Any → RawSequence → RawSequence
place_compactness field (some held) components =
    if tag_eq held.tag sequence
    then set components metadata_compactness field
    else insert_at metadata_compactness field components
place_compactness field none components = insert_at metadata_compactness field components

module _ {Frame Envelope Oid Fault : Type 0} (der : Der (TightBeamError Fault))
    (codecs : Codecs Frame Envelope Oid (TightBeamError Fault)) where
  abbrev Outcome : Type 0 → Type 0
  Outcome A = Result A (TightBeamError Fault)

  unfoldable pub parse : Bytes → Outcome WireFrame
  parse frame_der = do
    checked ← codecs.frame_from_der frame_der
    frame ← from_der der frame_der
    held ← ok_or invalid_metadata (get_elem? frame frame_metadata)
    bytes ← der.encode held
    metadata ← from_der der bytes
    ok (record { frame = frame; metadata = metadata })

  unfoldable pub set_message : Bytes → WireFrame → Outcome WireFrame
  set_message message wire = do
    octets ← der.octet_string message
    component ← any_from_der der octets
    held ← ok_or invalid_body (get_elem? wire.frame frame_message)
    ok (record wire { frame = set wire.frame frame_message component })

  unfoldable pub set_compactness : CompressedData Oid → WireFrame → Outcome WireFrame
  unfolding tag_eq
  set_compactness compactness wire = do
    bytes ← codecs.compressed_to_der compactness
    field ← any_from_der der bytes
    ok (record wire {
      metadata =
          place_compactness field (get_elem? wire.metadata metadata_compactness) wire.metadata;
    })

  unfoldable pub witness_input : WireFrame → Outcome Bytes
  witness_input wire = do
    version ← ok_or invalid_metadata (get_elem? wire.frame 0)
    bytes ← to_der der wire.metadata
    metadata ← any_from_der der bytes
    to_der der (version ∷ metadata ∷ [])

  unfoldable pub finish : WireFrame → Outcome Bytes
  finish wire = do
    bytes ← to_der der wire.metadata
    metadata ← any_from_der der bytes
    held ← ok_or invalid_metadata (get_elem? wire.frame frame_metadata)
    spliced ← to_der der (set wire.frame frame_metadata metadata)
    checked ← codecs.frame_from_der spliced
    ok spliced
