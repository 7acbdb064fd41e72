-- ===== src/Pubsub/Frame/Payload.antt =====
-- What the frames of frame.rs carry.
use tightbeam_ext.Prelude.{ℕ, ◌≡◌, ap, inl, inr, [], ◌++◌, arith, Bytes}
use tightbeam_ext.Prelude.Result.{ok, err, Result-cases}
use tightbeam_ext.Pubsub.Topic.{Topic, reserved_prefix, from_str, end_prefix}
use tightbeam_ext.Pubsub.Topic.Names.{from_str-reserved}
use tightbeam_ext.Pubsub.Frame.{
  FrameKit, FrameLaws, OpaqueBody, build, update_frame, end_frame, opaque_payload,
}

module _ {Octets Frame Cause : Type 0} (k : FrameKit Octets Frame Cause) (laws : FrameLaws k) where
  build-carries :
      (i : Bytes) (n : ℕ) (p : Bytes) (f : Frame)
      → build k i n p ≡ ok f
      → (k.id f ≡ i) × (k.order f ≡ n) × (opaque_payload k f ≡ ok p)
  unfolding build opaque_payload
  build-carries i n p f h = elim (Result-cases (k.new_octets p)) [
    | inl (o, e) ↦
        let body : OpaqueBody Octets = record { body = o } in
        let built : k.build_frame i n body ≡ ok f = ground arith in
        (
          laws.id_kept i n body f built,
          laws.order_kept i n body f built,
          rw (laws.body_kept i n body f built) (ap ok (laws.octets_kept p o e)),
        )
    | inr (c, e) ↦ absurd (ground arith)
  ]

  -- Under the laws of the frame kit, an update frame that could be built is named by its topic,
  -- carries its order, and gives its payload back.
  pub opaque_payload-update_frame :
      (t : Topic) (n : ℕ) (p : Bytes) (f : Frame)
      → update_frame k t n p ≡ ok f
      → (k.id f ≡ t.name) × (k.order f ≡ n) × (opaque_payload k f ≡ ok p)
  unfolding update_frame
  opaque_payload-update_frame t n p f h = build-carries t.name n p f h

  -- Under the laws of the frame kit, a completion frame that could be built carries its order
  -- and no payload, and its id is no topic's name: it is refused by the prefix that it has.
  pub end_frame-carries :
      (t : Topic) (n : ℕ) (f : Frame)
      → end_frame k t n ≡ ok f
      → (k.order f ≡ n)
        × (opaque_payload k f ≡ ok [])
        × (from_str (k.id f) ≡ err (reserved_prefix end_prefix))
  unfolding end_frame
  end_frame-carries t n f h =
      let (named, ordered, carried) = build-carries (end_prefix ++ t.name) n [] f h in
      (ordered, carried, rw named (from_str-reserved t.name).3)
