-- ===== src/Ws/Wasm/Tests/Splices.antt =====
-- Concrete inputs for the theorems about ws/tightbeam-ws-wasm/src/build.rs.
use tightbeam_ext.Prelude.{ℕ, ◌≡◌, ◌≢◌, refl, none, some, [], ◌∷◌, get_elem?, arith, Bytes, String}
use tightbeam_ext.Prelude.Result.{ok, ◌>>=◌}
use tightbeam_ext.Ws.Wasm.Build.Der.{tag_eq, sequence, other}
use tightbeam_ext.Ws.Wasm.Build.Sequence.{
  RawSequence, from_der, to_der, any_from_der, value_len, encode_value, put_first, loop_result,
  decode_components, decode_value,
}
use tightbeam_ext.Ws.Wasm.Build.Tagged.{set_tagged, place}
use tightbeam_ext.Ws.Wasm.Build.Fields.{field}
use tightbeam_ext.Ws.Wasm.Build.RoundTrip.{decode_components-decode_value}
use tightbeam_ext.Ws.Wasm.Build.Splicing.{parse-finish}
use tightbeam_ext.Ws.Wasm.Build.Installing.{digest_der, attach_witness-witness_input}
use tightbeam_ext.Ws.Wasm.Build.Installed.{
  MetadataField, set_message_integrity-MetadataField, set_message_integrity-set_confidentiality,
}
use tightbeam_ext.Ws.Wasm.Build.Inspect.{FrameSummary, inspect_frame}
use tightbeam_ext.Ws.Wasm.Build.Inspecting.{set_message_integrity-inspect_frame}
use tightbeam_ext.Ws.Wasm.Build.Wire
use tightbeam_ext.Ws.Wasm.Build.Wire.{WireFrame}
use tightbeam_ext.Ws.Wasm.Build.Splice.{
  set_message_integrity, set_confidentiality, witness_input, attach_witness,
}
use tightbeam_ext.Ws.Wasm.Tests.Codec.{der, laws}
use tightbeam_ext.Ws.Wasm.Tests.Frames.{frame_from_der, codecs, frames, commitment}

-- A version, the metadata of an id and an order, and a message.
abbrev metadata : RawSequence
metadata = record { tag = other 4; value = 9 ∷ [] } ∷ record { tag = other 2; value = 5 ∷ [] } ∷ []

abbrev structural : Bytes
structural = 0 ∷ 15 ∷ 9 ∷ 1 ∷ 1 ∷ 0 ∷ 6 ∷ 15 ∷ 1 ∷ 9 ∷ 9 ∷ 1 ∷ 5 ∷ 15 ∷ 2 ∷ 8 ∷ 8 ∷ []

abbrev parsed : WireFrame
parsed = record {
  frame =
      record { tag = other 2; value = 1 ∷ [] }
      ∷ record { tag = sequence; value = 15 ∷ 1 ∷ 9 ∷ 9 ∷ 1 ∷ 5 ∷ [] }
      ∷ record { tag = other 4; value = 8 ∷ 8 ∷ [] }
      ∷ [];
  metadata = metadata;
}

structural-parse : Wire.parse der codecs structural ≡ ok parsed
unfolding Wire.parse frame_from_der from_der decode_value decode_components put_first loop_result
structural-parse = refl

-- With a commitment of the algorithm 3.
abbrev committed : Bytes
committed =
    0 ∷ 20 ∷ 9 ∷ 1 ∷ 1 ∷ 0 ∷ 11 ∷ 15 ∷ 1 ∷ 9 ∷ 9 ∷ 1 ∷ 5 ∷ 2 ∷ 3 ∷ 3 ∷ 1 ∷ 2 ∷ 15 ∷ 2 ∷ 8 ∷ 8 ∷ []

abbrev sealed : Bytes
sealed = 0 ∷ 18 ∷ 9 ∷ 1 ∷ 1 ∷ 0 ∷ 10 ∷ 15 ∷ 1 ∷ 9 ∷ 9 ∷ 1 ∷ 5 ∷ 5 ∷ 2 ∷ 6 ∷ 6 ∷ 15 ∷ 1 ∷ 4 ∷ []

abbrev both : Bytes
both =
    0 ∷ 23 ∷ 9 ∷ 1 ∷ 1 ∷ 0 ∷ 15 ∷ 15 ∷ 1 ∷ 9 ∷ 9 ∷ 1 ∷ 5 ∷ 2 ∷ 3 ∷ 3 ∷ 1 ∷ 2 ∷ 5 ∷ 2 ∷ 6 ∷ 6 ∷ 15
    ∷ 1 ∷ 4 ∷ []

abbrev witnessed : Bytes
witnessed =
    0 ∷ 24 ∷ 9 ∷ 1 ∷ 1 ∷ 0 ∷ 11 ∷ 15 ∷ 1 ∷ 9 ∷ 9 ∷ 1 ∷ 5 ∷ 2 ∷ 3 ∷ 3 ∷ 1 ∷ 2 ∷ 15 ∷ 2 ∷ 8 ∷ 8 ∷ 2
    ∷ 2 ∷ 3 ∷ 7 ∷ []

abbrev digest : Bytes
digest = 1 ∷ 2 ∷ []

abbrev envelope : Bytes
envelope = 6 ∷ 6 ∷ []

structural-committed : set_message_integrity der codecs structural 3 digest ≡ ok committed
unfolding set_message_integrity Wire.parse Wire.finish frame_from_der from_der to_der any_from_der
    decode_value decode_components put_first loop_result value_len encode_value set_tagged place
    tag_eq field
structural-committed = refl

sealed-both : set_message_integrity der codecs sealed 3 digest ≡ ok both
unfolding set_message_integrity Wire.parse Wire.finish frame_from_der from_der to_der any_from_der
    decode_value decode_components put_first loop_result value_len encode_value set_tagged place
    tag_eq field
sealed-both = refl

structural-sealed : set_confidentiality der codecs structural envelope (4 ∷ []) ≡ ok sealed
unfolding set_confidentiality Wire.parse Wire.finish Wire.set_message frame_from_der from_der to_der
    any_from_der decode_value decode_components put_first loop_result value_len encode_value
    set_tagged place tag_eq field
structural-sealed = refl

committed-both : set_confidentiality der codecs committed envelope (4 ∷ []) ≡ ok both
unfolding set_confidentiality Wire.parse Wire.finish Wire.set_message frame_from_der from_der to_der
    any_from_der decode_value decode_components put_first loop_result value_len encode_value
    set_tagged place tag_eq field
committed-both = refl

committed-witnessed : attach_witness der codecs committed 3 (7 ∷ []) ≡ ok witnessed
unfolding attach_witness Wire.parse Wire.finish frame_from_der from_der to_der any_from_der
    decode_value decode_components put_first loop_result value_len encode_value set_tagged place
    tag_eq field
committed-witnessed = refl

parse-finish_example : Wire.finish der codecs parsed ≡ ok structural
parse-finish_example = parse-finish der laws codecs structural parsed structural-parse

decode_components-decode_value_example :
    (decode_components der 9 (15 ∷ 1 ∷ 9 ∷ []) ≡ some (decode_value der (15 ∷ 1 ∷ 9 ∷ [])))
    × (decode_value der (15 ∷ 1 ∷ 9 ∷ []) ≡ (do
      (component, rest) ← der.decode (15 ∷ 1 ∷ 9 ∷ [])
      components ← decode_value der rest
      ok (component ∷ components)))
decode_components-decode_value_example =
    decode_components-decode_value der laws 9 (15 ∷ 1 ∷ 9 ∷ []) (omega arith)

set_message_integrity-MetadataField_example :
    (value : Bytes) × (after : WireFrame) × (digest_der der laws codecs frames 3 digest ≡ ok value)
    × (Wire.parse der codecs committed ≡ ok after)
    × MetadataField 0 value parsed after
    × ((i : ℕ) → i ≢ 1 → get_elem? after.frame i ≡ get_elem? parsed.frame i)
set_message_integrity-MetadataField_example =
    set_message_integrity-MetadataField der laws codecs frames structural committed 3 digest parsed
      structural-parse structural-committed

set_message_integrity-set_confidentiality_example : both ≡ both
set_message_integrity-set_confidentiality_example =
    set_message_integrity-set_confidentiality der laws codecs frames structural committed sealed
      both both 3 digest envelope (4 ∷ []) structural-committed committed-both structural-sealed
      sealed-both

attach_witness-witness_input_example :
    witness_input der codecs witnessed ≡ witness_input der codecs committed
attach_witness-witness_input_example =
    attach_witness-witness_input der laws codecs frames committed witnessed 3 (7 ∷ [])
      committed-witnessed

-- Every digest of the example names its algorithm by the same text.
abbrev name : ℕ → String
name oid = "2.16"

abbrev seen : FrameSummary
seen = record {
  version = 1;
  id = [];
  order = 0;
  body_der = [];
  priority = none;
  lifetime = none;
  previous_hash_algorithm_oid = none;
  previous_hash_digest = none;
  matrix_n = none;
  matrix_data = none;
  compactness_algorithm_oid = none;
  compactness_parameters_der = none;
  compactness_content_oid = none;
  message_integrity_algorithm_oid = some "2.16";
  message_integrity_digest = some digest;
  frame_integrity_algorithm_oid = none;
  frame_integrity_digest = none;
  confidentiality_algorithm_oid = none;
  confidentiality_envelope_der = none;
  signature_algorithm_oid = none;
  signature_digest_algorithm_oid = none;
  signature = none;
}

committed-seen : inspect_frame der codecs name (λ e. 1) committed ≡ ok seen
unfolding inspect_frame frame_from_der from_der decode_value decode_components put_first loop_result
    field
committed-seen = refl

set_message_integrity-inspect_frame_example :
    (seen.message_integrity_algorithm_oid ≡ some (name 3))
    × (seen.message_integrity_digest ≡ some digest)
set_message_integrity-inspect_frame_example =
    set_message_integrity-inspect_frame der laws codecs frames name (λ e. 1) commitment structural
      committed 3 digest seen structural-committed committed-seen
