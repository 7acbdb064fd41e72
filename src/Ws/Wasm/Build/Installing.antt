-- ===== src/Ws/Wasm/Build/Installing.antt =====
-- ws/tightbeam-ws-wasm/src/build.rs: what the splices leave in a frame.
use tightbeam_ext.Prelude.{ℕ, ◌≡◌, true, refl, sym, ap, ◌∙◌, some, get_elem?, set, arith, Bytes}
use tightbeam_ext.Prelude.Result.{Result, ok, ok_or, ok_or-ok, bind-ok, bind-at, ok-injective}
use tightbeam_ext.Ws.Wasm.Errors.{TightBeamError, invalid_body}
use tightbeam_ext.Ws.Wasm.Build.Der.{Any, Der, DerLaws, context_specific, other}
use tightbeam_ext.Ws.Wasm.Build.Sequence.{RawSequence, any_from_der}
use tightbeam_ext.Ws.Wasm.Build.Tagged.{set_tagged, place}
use tightbeam_ext.Ws.Wasm.Build.Fields.{tagged, Closes}
use tightbeam_ext.Ws.Wasm.Build.Placing.{IsFrame, place-IsFrame}
use tightbeam_ext.Ws.Wasm.Build.RoundTrip.{any_from_der-encode}
use tightbeam_ext.Ws.Wasm.Build.Splicing.{finish-Closed, finish-parse, parse-Opened}
use tightbeam_ext.Ws.Wasm.Build.Wire
use tightbeam_ext.Ws.Wasm.Build.Wire.{
  Codecs, WireFrame, DigestInfo, algorithm, frame_metadata, frame_message, integrity_field,
  confidentiality_field,
}
use tightbeam_ext.Ws.Wasm.Build.Splice.{
  set_message_integrity, set_confidentiality, witness_input, attach_witness,
}

-- What the tightbeam crate documents of `Frame` and of `Metadata`: the order of their components,
-- with the optional fields at the end in the order of their numbers.
pub record FrameLaws {Frame Envelope Oid Fault : Type 0} (der : Der (TightBeamError Fault))
    (codecs : Codecs Frame Envelope Oid (TightBeamError Fault)) : Type 0 where
  pub frame_shape :
      (frame_der : Bytes) (wire : WireFrame)
      → Wire.parse der codecs frame_der ≡ ok wire
      → IsFrame wire.frame
  pub metadata_shape :
      (frame_der : Bytes) (wire : WireFrame)
      → Wire.parse der codecs frame_der ≡ ok wire
      → Closes wire.metadata

module _ {Frame Envelope Oid Fault : Type 0} (der : Der (TightBeamError Fault)) (laws : DerLaws der)
    (codecs : Codecs Frame Envelope Oid (TightBeamError Fault))
    (frames : FrameLaws der codecs) where
  set_tagged-place :
      (number : ℕ) (value : Result Bytes (TightBeamError Fault)) (xs ys : RawSequence)
      → set_tagged der number value xs ≡ ok ys
      → (contents : Bytes) × (value ≡ ok contents) × (place number (tagged number contents) xs ≡ ys)
  unfolding set_tagged
  set_tagged-place number value xs ys h =
      let (contents, a1, a2) = bind-ok value _ ys h in
      let (f, b1, b2) = bind-ok (der.new (context_specific true number) contents) _ ys a2 in
      let kept = laws.new_kept (context_specific true number) contents f b1 in
      (contents, a1, ap (λ x. place number x xs) (sym kept) ∙ ok-injective b2)

  -- The encoding of a digest under an algorithm without parameters.
  abbrev pub digest_der : Oid → Bytes → Result Bytes (TightBeamError Fault)
  digest_der oid digest =
      codecs.digest_to_der (record { algorithm = algorithm oid; digest = digest })

  -- Attaching a witness sets the field 0 of the frame, and that is all that it does.
  pub attach_witness-parse :
      (frame_der spliced : Bytes) (oid : Oid) (digest : Bytes) (wire : WireFrame)
      → Wire.parse der codecs frame_der ≡ ok wire
      → attach_witness der codecs frame_der oid digest ≡ ok spliced
      → (value : Bytes) × (digest_der oid digest ≡ ok value)
        × (Wire.parse der codecs spliced
            ≡ ok (record wire {
              frame = place integrity_field (tagged integrity_field value) wire.frame;
            }))
  unfolding attach_witness
  attach_witness-parse frame_der spliced oid digest wire p h =
      let (octets, a1, a2) = bind-ok (der.new_octets digest) _ spliced h in
      let kept = laws.new_octets_kept digest octets a1 in
      let placed = bind-at (Wire.parse der codecs frame_der) _ wire spliced p a2 in
      let (frame, b1, b2) =
        bind-ok (set_tagged der integrity_field (digest_der oid octets) wire.frame) _ spliced
          placed in
      let (value, c1, c2) =
        set_tagged-place integrity_field (digest_der oid octets) wire.frame frame b1 in
      let o = parse-Opened der laws codecs frame_der wire p in
      let shape = frames.frame_shape frame_der wire p in
      let third =
        place-IsFrame integrity_field value wire.frame frame_metadata shape (omega arith) in
      let reads =
        finish-parse der laws codecs (record wire { frame = frame }) spliced o.held o.bytes b2
          (ap (λ xs. get_elem? xs frame_metadata) (sym c2) ∙ third ∙ o.at_metadata) o.encoded
          o.opened in
      (
        value,
        ap (λ d. digest_der oid d) (sym kept) ∙ c1,
        reads ∙ ap (λ xs. ok (record wire { frame = xs })) (sym c2),
      )

  attach_witness-opens :
      (frame_der spliced : Bytes) (oid : Oid) (digest : Bytes)
      → attach_witness der codecs frame_der oid digest ≡ ok spliced
      → (wire : WireFrame) × (Wire.parse der codecs frame_der ≡ ok wire)
  unfolding attach_witness
  attach_witness-opens frame_der spliced oid digest h =
      let (octets, a1, a2) = bind-ok (der.new_octets digest) _ spliced h in
      let (wire, b1, b2) = bind-ok (Wire.parse der codecs frame_der) _ spliced a2 in (wire, b1)

  witness_input-same :
      (before after : WireFrame)
      → get_elem? after.frame 0 ≡ get_elem? before.frame 0
      → after.metadata ≡ before.metadata
      → Wire.witness_input der codecs after ≡ Wire.witness_input der codecs before
  unfolding Wire.witness_input
  witness_input-same before after first metadata = rw first (rw metadata refl)

  -- Under a DER codec and a decoder of frames that keep their laws, a witness that is accepted leaves
  -- what it is over: its preimage is the same before and after.
  pub attach_witness-witness_input :
      (frame_der spliced : Bytes) (oid : Oid) (digest : Bytes)
      → attach_witness der codecs frame_der oid digest ≡ ok spliced
      → witness_input der codecs spliced ≡ witness_input der codecs frame_der
  attach_witness-witness_input frame_der spliced oid digest h =
      let (wire, p) = attach_witness-opens frame_der spliced oid digest h in
      let (value, e1, e2) = attach_witness-parse frame_der spliced oid digest wire p h in
      unfold witness_input in
      rw p (
        rw e2 (
          witness_input-same wire _
            (place-IsFrame integrity_field value wire.frame 0 (frames.frame_shape frame_der wire p)
              (omega arith))
            refl))

  pub set_message_integrity-opens :
      (frame_der spliced : Bytes) (oid : Oid) (digest : Bytes)
      → set_message_integrity der codecs frame_der oid digest ≡ ok spliced
      → (wire : WireFrame) × (Wire.parse der codecs frame_der ≡ ok wire)
  unfolding set_message_integrity
  set_message_integrity-opens frame_der spliced oid digest h =
      let (octets, a1, a2) = bind-ok (der.new_octets digest) _ spliced h in
      let (wire, b1, b2) = bind-ok (Wire.parse der codecs frame_der) _ spliced a2 in (wire, b1)

  -- A commitment sets the field 0 of the metadata. The frame keeps every component but the
  -- metadata, and the metadata every component but that field.
  pub set_message_integrity-parse :
      (frame_der spliced : Bytes) (oid : Oid) (digest : Bytes) (wire : WireFrame)
      → Wire.parse der codecs frame_der ≡ ok wire
      → set_message_integrity der codecs frame_der oid digest ≡ ok spliced
      → (value : Bytes) × (metadata : Any) × (digest_der oid digest ≡ ok value)
        × (Wire.parse der codecs spliced
            ≡ ok (record {
              frame = set wire.frame frame_metadata metadata;
              metadata = place integrity_field (tagged integrity_field value) wire.metadata;
            }))
  unfolding set_message_integrity
  set_message_integrity-parse frame_der spliced oid digest wire p h =
      let (octets, a1, a2) = bind-ok (der.new_octets digest) _ spliced h in
      let kept = laws.new_octets_kept digest octets a1 in
      let placed = bind-at (Wire.parse der codecs frame_der) _ wire spliced p a2 in
      let (metadata, b1, b2) =
        bind-ok (set_tagged der integrity_field (digest_der oid octets) wire.metadata) _ spliced
          placed in
      let (value, c1, c2) =
        set_tagged-place integrity_field (digest_der oid octets) wire.metadata metadata b1 in
      let closed = finish-Closed der laws codecs (record wire { metadata = metadata }) spliced b2 in
      (
        value,
        closed.metadata,
        ap (λ d. digest_der oid d) (sym kept) ∙ c1,
        closed.reads
            ∙ ap
                (λ xs.
                  ok (record {
                    frame = set wire.frame frame_metadata closed.metadata;
                    metadata = xs;
                  }))
                (sym c2),
      )

  pub set_message-parts :
      (message : Bytes) (wire wire' : WireFrame)
      → Wire.set_message der codecs message wire ≡ ok wire'
      → (held : Any) × (get_elem? wire.frame frame_message ≡ some held)
        × (record wire {
          frame = set wire.frame frame_message (record { tag = other 4; value = message });
        }
            ≡ wire')
  unfolding Wire.set_message
  set_message-parts message wire wire' h =
      let (octets, a1, a2) = bind-ok (der.octet_string message) _ wire' h in
      let (component, b1, b2) = bind-ok (any_from_der der octets) _ wire' a2 in
      let (held, c1, c2) =
        bind-ok (ok_or invalid_body (get_elem? wire.frame frame_message)) _ wire' b2 in
      let read =
        any_from_der-encode der laws _ octets (laws.octet_string_encodes message octets a1) in
      let same = ok-injective (sym read ∙ b1) in
      (
        held,
        ok_or-ok _ _ held c1,
        ap (λ x. record wire { frame = set wire.frame frame_message x }) same ∙ ok-injective c2,
      )

  -- Confidentiality sets the field 1 of the metadata to the envelope, and the message to the
  -- ciphertext, and keeps all else.
  pub set_confidentiality-parse :
      (frame_der spliced envelope_der ciphertext : Bytes) (wire : WireFrame)
      → Wire.parse der codecs frame_der ≡ ok wire
      → set_confidentiality der codecs frame_der envelope_der ciphertext ≡ ok spliced
      → (envelope : Envelope) × (value : Bytes) × (metadata : Any) × (codecs.envelope_from_der
            envelope_der
          ≡ ok envelope)
        × (codecs.envelope_to_der envelope ≡ ok value)
        × (Wire.parse der codecs spliced
            ≡ ok (record {
              frame =
                  set
                    (set wire.frame frame_message (record { tag = other 4; value = ciphertext }))
                    frame_metadata
                    metadata;
              metadata =
                  place confidentiality_field (tagged confidentiality_field value) wire.metadata;
            }))
  unfolding set_confidentiality
  set_confidentiality-parse frame_der spliced envelope_der ciphertext wire p h =
      let (envelope, a1, a2) = bind-ok (codecs.envelope_from_der envelope_der) _ spliced h in
      let placed = bind-at (Wire.parse der codecs frame_der) _ wire spliced p a2 in
      let (metadata, b1, b2) =
        bind-ok
          (set_tagged der confidentiality_field (codecs.envelope_to_der envelope) wire.metadata) _
          spliced placed in
      let (value, c1, c2) =
        set_tagged-place confidentiality_field (codecs.envelope_to_der envelope) wire.metadata
          metadata b1 in
      let (sealed, d1, d2) =
        bind-ok (Wire.set_message der codecs ciphertext (record wire { metadata = metadata })) _
          spliced b2 in
      let (held, e1, e2) =
        set_message-parts ciphertext (record wire { metadata = metadata }) sealed d1 in
      let closed = finish-Closed der laws codecs sealed spliced d2 in
      (
        envelope,
        value,
        closed.metadata,
        a1,
        c1,
        closed.reads
            ∙ ap
                (λ (w : WireFrame).
                  ok (record w { frame = set w.frame frame_metadata closed.metadata }))
                (sym e2)
            ∙ ap
                (λ (xs : RawSequence). ok (record {
                  frame =
                      set
                        (set wire.frame frame_message
                          (record { tag = other 4; value = ciphertext }))
                        frame_metadata closed.metadata;
                  metadata = xs;
                }))
                (sym c2),
      )
