-- ===== src/Ws/Wasm/Build/Splicing.antt =====
-- ws/tightbeam-ws-wasm/src/build.rs: what `parse` and `finish` make of each other.
use tightbeam_ext.Prelude.{
  ◌≡◌, refl, sym, ap, subst, ◌∙◌, some, get_elem?, set, arith, Bytes, set-get_elem?,
  get_elem?-set_self,
}
use tightbeam_ext.Prelude.Result.{Result, ok, bind-ok, ok_or, ok_or-ok}
use tightbeam_ext.Ws.Wasm.Errors.{TightBeamError, invalid_metadata}
use tightbeam_ext.Ws.Wasm.Build.Der.{Any, Der, DerLaws}
use tightbeam_ext.Ws.Wasm.Build.Sequence.{RawSequence, from_der, to_der, any_from_der}
use tightbeam_ext.Ws.Wasm.Build.RoundTrip.{
  any_from_der-encode, encode-any_from_der, from_der-to_der, to_der-from_der,
}
use tightbeam_ext.Ws.Wasm.Build.Wire.{Codecs, WireFrame, parse, finish, frame_metadata}

module _ {Frame Envelope Oid Fault : Type 0} (der : Der (TightBeamError Fault)) (laws : DerLaws der)
    (codecs : Codecs Frame Envelope Oid (TightBeamError Fault)) where
  -- What `parse` read, part by part.
  pub record Opened (frame_der : Bytes) (wire : WireFrame) : Type 0 where
    pub decoded : Frame
    pub held : Any
    pub bytes : Bytes
    pub accepted : codecs.frame_from_der frame_der ≡ ok decoded
    pub components : from_der der frame_der ≡ ok wire.frame
    pub at_metadata : get_elem? wire.frame frame_metadata ≡ some held
    pub encoded : der.encode held ≡ ok bytes
    pub opened : from_der der bytes ≡ ok wire.metadata

  pub parse-Opened :
      (frame_der : Bytes) (wire : WireFrame)
      → parse der codecs frame_der ≡ ok wire
      → Opened frame_der wire
  unfolding parse
  parse-Opened frame_der wire h =
      let (decoded, a1, a2) = bind-ok (codecs.frame_from_der frame_der) _ wire h in
      let (frame, b1, b2) = bind-ok (from_der der frame_der) _ wire a2 in
      let (held, c1, c2) =
        bind-ok (ok_or invalid_metadata (get_elem? frame frame_metadata)) _ wire b2 in
      let (bytes, d1, d2) = bind-ok (der.encode held) _ wire c2 in
      let (metadata, e1, e2) = bind-ok (from_der der bytes) _ wire d2 in
      subst (Opened frame_der) (whole frame metadata e2) (record {
        decoded = decoded;
        held = held;
        bytes = bytes;
        accepted = a1;
        components = b1;
        at_metadata = ok_or-ok _ _ held c1;
        encoded = d1;
        opened = e1;
      })
    where
      whole :
          (frame metadata : RawSequence)
          → ◌≡◌ {A = Result WireFrame (TightBeamError Fault)}
              (ok (record { frame = frame; metadata = metadata }))
              (ok wire)
          → record { frame = frame; metadata = metadata } ≡ wire
      whole frame metadata e = ground arith

  pub Opened-parse :
      (frame_der : Bytes) (wire : WireFrame)
      → Opened frame_der wire
      → parse der codecs frame_der ≡ ok wire
  unfolding parse
  Opened-parse frame_der wire o =
      rw o.accepted (rw o.components (rw o.at_metadata (rw o.encoded (rw o.opened refl))))

  -- Under a DER codec that keeps its laws, a frame that opens is reassembled to the same octets.
  pub parse-finish :
      (frame_der : Bytes) (wire : WireFrame)
      → parse der codecs frame_der ≡ ok wire
      → finish der codecs wire ≡ ok frame_der
  unfolding finish
  parse-finish frame_der wire h =
      let o = parse-Opened frame_der wire h in
      rw (to_der-from_der der laws o.bytes wire.metadata o.opened) (
        rw (any_from_der-encode der laws o.held o.bytes o.encoded) (
          rw o.at_metadata (
            rw (set-get_elem? wire.frame frame_metadata o.held o.at_metadata) (
              rw (to_der-from_der der laws frame_der wire.frame o.components)
                (rw o.accepted refl)))))

  -- The metadata that `finish` puts in place.
  pub record Closed (wire : WireFrame) (spliced : Bytes) : Type 0 where
    pub metadata : Any
    pub bytes : Bytes
    pub written : to_der der wire.metadata ≡ ok bytes
    pub encoded : der.encode metadata ≡ ok bytes
    pub reads :
        parse der codecs spliced
        ≡ ok (record wire { frame = set wire.frame frame_metadata metadata })

  pub finish-Closed :
      (wire : WireFrame) (spliced : Bytes)
      → finish der codecs wire ≡ ok spliced
      → Closed wire spliced
  unfolding finish
  finish-Closed wire spliced h =
      let (bytes, a1, a2) = bind-ok (to_der der wire.metadata) _ spliced h in
      let (metadata, b1, b2) = bind-ok (any_from_der der bytes) _ spliced a2 in
      let (held, c1, c2) =
        bind-ok (ok_or invalid_metadata (get_elem? wire.frame frame_metadata)) _ spliced b2 in
      let (whole, d1, d2) =
        bind-ok (to_der der (set wire.frame frame_metadata metadata)) _ spliced c2 in
      let (checked, e1, e2) = bind-ok (codecs.frame_from_der whole) _ spliced d2 in
      let same : whole ≡ spliced = ground arith in
      let encoded = encode-any_from_der der laws metadata bytes b1 in
      record {
        metadata = metadata;
        bytes = bytes;
        written = a1;
        encoded = encoded;
        reads = Opened-parse spliced _ (record {
          decoded = checked;
          held = metadata;
          bytes = bytes;
          accepted = ap (λ b. codecs.frame_from_der b) (sym same) ∙ e1;
          components = from_der-to_der der laws _ spliced (d1 ∙ ap ok same);
          at_metadata =
              get_elem?-set_self wire.frame frame_metadata metadata held (ok_or-ok _ _ held c1);
          encoded = encoded;
          opened = from_der-to_der der laws wire.metadata bytes a1;
        });
      }

  -- Reassembled with its own metadata, a frame reads back as what was reassembled.
  pub finish-parse :
      (wire : WireFrame) (spliced : Bytes) (held : Any) (bytes : Bytes)
      → finish der codecs wire ≡ ok spliced
      → get_elem? wire.frame frame_metadata ≡ some held
      → der.encode held ≡ ok bytes
      → from_der der bytes ≡ ok wire.metadata
      → parse der codecs spliced ≡ ok wire
  finish-parse wire spliced held bytes h place encoded opened =
      let c = finish-Closed wire spliced h in
      let written = to_der-from_der der laws bytes wire.metadata opened in
      let same_bytes : c.bytes ≡ bytes = cc (c.written, written) in
      let decoded : any_from_der der bytes ≡ ok c.metadata =
        any_from_der-encode der laws c.metadata bytes (c.encoded ∙ ap ok same_bytes) in
      let same : c.metadata ≡ held =
        cc (decoded, any_from_der-encode der laws held bytes encoded) in
      let frame : set wire.frame frame_metadata c.metadata ≡ wire.frame =
        ap (λ m. set wire.frame frame_metadata m) same
        ∙ set-get_elem? wire.frame frame_metadata held place in
      c.reads ∙ ap (λ xs. ok (record wire { frame = xs })) frame
