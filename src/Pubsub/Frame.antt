-- ===== src/Pubsub/Frame.antt =====
-- pubsub/tightbeam-pubsub/src/frame.rs: the frames of updates and completions. Frames, their
-- builder and the DER codecs are those of the tightbeam and der crates: an interface.
pub mod Payload
use tightbeam_ext.Prelude.{ℕ, ◌≡◌, [], ◌++◌, Bytes}
use tightbeam_ext.Prelude.Result.{Result, ok, ◌>>=◌, map_err}
use tightbeam_ext.Pubsub.Topic.{Topic, end_prefix}

-- The one field of the SEQUENCE is an OCTET STRING.
pub record OpaqueBody (Octets : Type 0) : Type 0 where
  pub body : Octets

-- The calls of the tightbeam and der crates. `build_frame` is the chain from `FrameBuilder::from`
-- at version 0 to `build`, and `from_der` and `to_der` are the derived codecs.
pub record FrameKit (Octets Frame Cause : Type 0) : Type 0 where
  pub new_octets : Bytes → Result Octets Cause
  pub into_bytes : Octets → Bytes
  pub build_frame : Bytes → ℕ → OpaqueBody Octets → Result Frame Cause
  pub id : Frame → Bytes
  pub order : Frame → ℕ
  pub message : Frame → Bytes
  pub body_from_der : Bytes → Result (OpaqueBody Octets) Cause
  pub to_der : Frame → Result Bytes Cause

-- What those crates document: a built frame carries what it was built from, and the body decodes
-- to what was encoded.
pub record FrameLaws {Octets Frame Cause : Type 0} (k : FrameKit Octets Frame Cause) : Type 0 where
  pub octets_kept : (b : Bytes) (o : Octets) → k.new_octets b ≡ ok o → k.into_bytes o ≡ b
  pub id_kept :
      (i : Bytes) (n : ℕ) (b : OpaqueBody Octets) (f : Frame)
      → k.build_frame i n b ≡ ok f
      → k.id f ≡ i
  pub order_kept :
      (i : Bytes) (n : ℕ) (b : OpaqueBody Octets) (f : Frame)
      → k.build_frame i n b ≡ ok f
      → k.order f ≡ n
  pub body_kept :
      (i : Bytes) (n : ℕ) (b : OpaqueBody Octets) (f : Frame)
      → k.build_frame i n b ≡ ok f
      → k.body_from_der (k.message f) ≡ ok b

module _ {Octets Frame Cause : Type 0} (k : FrameKit Octets Frame Cause) where
  unfoldable pub build : Bytes → ℕ → Bytes → Result Frame Cause
  build id order payload = do
    octets ← k.new_octets payload
    k.build_frame id order (record { body = octets })

  unfoldable pub update_frame : Topic → ℕ → Bytes → Result Frame Cause
  update_frame topic order payload = build topic.name order payload

  unfoldable pub end_frame : Topic → ℕ → Result Frame Cause
  end_frame topic order = build (end_prefix ++ topic.name) order []

  unfoldable pub opaque_payload : Frame → Result Bytes Cause
  opaque_payload frame = do body ← k.body_from_der (k.message frame); ok (k.into_bytes body.body)
