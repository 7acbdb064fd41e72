-- ===== src/Ws/Wasm/Build/Installed.antt =====
-- ws/tightbeam-ws-wasm/src/build.rs: a commitment and an envelope installed in a frame, and the
-- order in which they are.
use tightbeam_ext.Prelude.{
  ℕ, ◌≡◌, ◌≢◌, refl, sym, ap, ◌∙◌, some, List, get_elem?, set, arith, Bytes, get_elem?-set_ne,
  get_elem?-set_self, get_elem?-set_eq, set_set, set_comm, ◌==◌, if◌then◌else◌,
}
use tightbeam_ext.Prelude.Result.{Result, ok, ok-injective}
use tightbeam_ext.Ws.Wasm.Errors.{TightBeamError}
use tightbeam_ext.Ws.Wasm.Build.Der.{Any, Der, DerLaws, other}
use tightbeam_ext.Ws.Wasm.Build.Tagged.{place}
use tightbeam_ext.Ws.Wasm.Build.RoundTrip.{any_from_der-encode, to_der-from_der}
use tightbeam_ext.Ws.Wasm.Build.Fields.{tagged, Closes, field, plain}
use tightbeam_ext.Ws.Wasm.Build.Placing.{place-Placed, place_comm, IsFrame-message}
use tightbeam_ext.Ws.Wasm.Build.Splicing.{parse-Opened, parse-finish}
use tightbeam_ext.Ws.Wasm.Build.Wire
use tightbeam_ext.Ws.Wasm.Build.Wire.{
  Codecs, WireFrame, frame_metadata, frame_message, integrity_field, confidentiality_field,
}
use tightbeam_ext.Ws.Wasm.Build.Splice.{set_message_integrity, set_confidentiality}
use tightbeam_ext.Ws.Wasm.Build.Installing.{
  FrameLaws, digest_der, set_message_integrity-opens, set_message_integrity-parse,
  set_confidentiality-parse,
}

-- One numbered field of the metadata has the value, and every other field and the components
-- without a number are as before.
pub record MetadataField (number : ℕ) (value : Bytes) (before after : WireFrame) : Type 0 where
  pub closes : Closes after.metadata
  pub plain_kept : plain after.metadata ≡ plain before.metadata
  pub fields :
      (m : ℕ)
      → field m after.metadata ≡ (if number == m then some value else field m before.metadata)

module _ {Frame Envelope Oid Fault : Type 0} (der : Der (TightBeamError Fault)) (laws : DerLaws der)
    (codecs : Codecs Frame Envelope Oid (TightBeamError Fault))
    (frames : FrameLaws der codecs) where
  placed :
      (number : ℕ) (value : Bytes) (before after : WireFrame)
      → Closes before.metadata
      → after.metadata ≡ place number (tagged number value) before.metadata
      → MetadataField number value before after
  placed number value before after c e =
      let p = place-Placed number value before.metadata c in
      record {
        closes = rw e p.closes;
        plain_kept = rw e p.plain_kept;
        fields = λ m. rw e (p.fields m);
      }

  -- Under a DER codec and a decoder of frames that keep their laws, a commitment that is accepted
  -- on a frame that opens is the field 0 of the metadata, the DER of the digest under its algorithm,
  -- and the result opens. Every other field of the metadata, its components without a number, and every
  -- component of the frame but the metadata are as before.
  pub set_message_integrity-MetadataField :
      (frame_der spliced : Bytes) (oid : Oid) (digest : Bytes) (before : WireFrame)
      → Wire.parse der codecs frame_der ≡ ok before
      → set_message_integrity der codecs frame_der oid digest ≡ ok spliced
      → (value : Bytes) × (after : WireFrame) × (digest_der der laws codecs frames oid digest
          ≡ ok value)
        × (Wire.parse der codecs spliced ≡ ok after)
        × MetadataField integrity_field value before after
        × ((i : ℕ) → i ≢ frame_metadata → get_elem? after.frame i ≡ get_elem? before.frame i)
  set_message_integrity-MetadataField frame_der spliced oid digest before p h =
      let (value, metadata, e1, e2) =
        set_message_integrity-parse der laws codecs frames frame_der spliced oid digest before p
          h in
      (
        value,
        _,
        e1,
        e2,
        placed integrity_field value before _ (frames.metadata_shape frame_der before p) refl,
        λ i h. get_elem?-set_ne before.frame frame_metadata i metadata (λ e. h (sym e)),
      )

  -- An accepted envelope is the field 1 of the metadata, in its own encoding, and the ciphertext is
  -- the message, an OCTET STRING. Every other field of the metadata, its components without a
  -- number, and every other component of the frame are as before.
  pub set_confidentiality-MetadataField :
      (frame_der spliced envelope_der ciphertext : Bytes) (before : WireFrame)
      → Wire.parse der codecs frame_der ≡ ok before
      → set_confidentiality der codecs frame_der envelope_der ciphertext ≡ ok spliced
      → (envelope : Envelope) × (value : Bytes) × (after : WireFrame) × (codecs.envelope_from_der
            envelope_der
          ≡ ok envelope)
        × (codecs.envelope_to_der envelope ≡ ok value)
        × (Wire.parse der codecs spliced ≡ ok after)
        × MetadataField confidentiality_field value before after
        × (get_elem? after.frame frame_message
            ≡ some (record { tag = other 4; value = ciphertext }))
        × ((i : ℕ)
            → i ≢ frame_metadata
            → i ≢ frame_message
            → get_elem? after.frame i ≡ get_elem? before.frame i)
  set_confidentiality-MetadataField frame_der spliced envelope_der ciphertext before p h =
      let (envelope, value, metadata, e1, e2, e3) =
        set_confidentiality-parse der laws codecs frames frame_der spliced envelope_der ciphertext
          before p h in
      let old = IsFrame-message before.frame (frames.frame_shape frame_der before p) in
      (
        envelope,
        value,
        _,
        e1,
        e2,
        e3,
        placed confidentiality_field value before _ (frames.metadata_shape frame_der before p) refl,
        get_elem?-set_ne _ frame_metadata frame_message metadata (λ e. absurd (omega (arith, e)))
            ∙ get_elem?-set_self before.frame frame_message _ old.0 old.1,
        λ i h k.
            get_elem?-set_ne _ frame_metadata i metadata (λ e. h (sym e))
            ∙ get_elem?-set_ne before.frame frame_message i _ (λ e. k (sym e)),
      )

  encode-injective :
      (a b : Any) (bytes : Bytes) → der.encode a ≡ ok bytes → der.encode b ≡ ok bytes → a ≡ b
  encode-injective a b bytes h k =
      ok-injective
        (sym (any_from_der-encode der laws a bytes h) ∙ any_from_der-encode der laws b bytes k)

  -- Two frames agree if their metadata do, and their components but the metadata.
  parse-injective :
      (g g' : Bytes) (rest : List Any) (m m' : Any) (metadata : List Any)
      → Wire.parse der codecs g
        ≡ ok (record { frame = set rest frame_metadata m; metadata = metadata })
      → Wire.parse der codecs g'
        ≡ ok (record { frame = set rest frame_metadata m'; metadata = metadata })
      → g ≡ g'
  parse-injective g g' rest m m' metadata h h' =
      let w : WireFrame = record { frame = set rest frame_metadata m; metadata = metadata } in
      let w' : WireFrame = record { frame = set rest frame_metadata m'; metadata = metadata } in
      let o = parse-Opened der laws codecs g w h in
      let o' = parse-Opened der laws codecs g' w' h' in
      let written = to_der-from_der der laws o.bytes metadata o.opened in
      let written' = to_der-from_der der laws o'.bytes metadata o'.opened in
      let same : o'.bytes ≡ o.bytes = cc (written, written') in
      let held = get_elem?-set_eq rest frame_metadata m o.held o.at_metadata in
      let held' = get_elem?-set_eq rest frame_metadata m' o'.held o'.at_metadata in
      let equal : o.held ≡ o'.held =
        encode-injective o.held o'.held o.bytes o.encoded (o'.encoded ∙ ap ok same) in
      let m_same : m ≡ m' = cc (held, held', equal) in
      ok-injective (
        sym (parse-finish der laws codecs g w h)
        ∙ ap
            (λ x.
              Wire.finish der codecs
                (record { frame = set rest frame_metadata x; metadata = metadata }))
            m_same
        ∙ parse-finish der laws codecs g' w' h')

  abbrev wire_of : List Any → List Any → Result WireFrame (TightBeamError Fault)
  wire_of frame metadata = ok (record { frame = frame; metadata = metadata })

  both_orders :
      (g g' : Bytes) (xs metadata : List Any) (c m1 m2 m3 m4 : Any) (v v' s s' : Bytes)
      → Closes metadata
      → v' ≡ v
      → s' ≡ s
      → Wire.parse der codecs g
        ≡ wire_of
            (set (set (set xs 1 m1) 2 c) 1 m2)
            (place 1 (tagged 1 s) (place 0 (tagged 0 v) metadata))
      → Wire.parse der codecs g'
        ≡ wire_of
            (set (set (set xs 2 c) 1 m3) 1 m4)
            (place 0 (tagged 0 v') (place 1 (tagged 1 s') metadata))
      → g ≡ g'
  both_orders g g' xs metadata c m1 m2 m3 m4 v v' s s' closes ev es h h' =
      let distinct : 1 ≢ 0 = λ (e : ◌≡◌ {A = ℕ} 1 0). absurd (omega (arith, e)) in
      let far : 1 ≢ 2 = λ (e : ◌≡◌ {A = ℕ} 1 2). absurd (omega (arith, e)) in
      let first : set (set (set xs 1 m1) 2 c) 1 m2 ≡ set (set xs 2 c) 1 m2 =
        ap (λ ys. set ys 1 m2) (set_comm xs 1 2 m1 c far) ∙ set_set (set xs 2 c) 1 m1 m2 in
      let fields = place_comm 1 0 s v distinct metadata closes in
      parse-injective g g' (set xs 2 c) m2 m4 (place 0 (tagged 0 v) (place 1 (tagged 1 s) metadata))
        (h
          ∙ ap (λ ys. wire_of ys (place 1 (tagged 1 s) (place 0 (tagged 0 v) metadata))) first
          ∙ ap (wire_of (set (set xs 2 c) 1 m2)) fields)
        (h'
          ∙ ap (λ ys. wire_of ys (place 0 (tagged 0 v') (place 1 (tagged 1 s') metadata)))
              (set_set (set xs 2 c) 1 m3 m4)
          ∙ ap
              (λ a.
                wire_of (set (set xs 2 c) 1 m4)
                  (place 0 (tagged 0 a) (place 1 (tagged 1 s') metadata)))
              ev
          ∙ ap
              (λ b.
                wire_of (set (set xs 2 c) 1 m4)
                  (place 0 (tagged 0 v) (place 1 (tagged 1 b) metadata)))
              es)

  -- Under a DER codec and a decoder of frames that keep their laws, the order in which a commitment
  -- and an envelope are installed does not matter: where both orders are accepted, they give the same frame to the octet.
  pub set_message_integrity-set_confidentiality :
      (frame_der committed sealed both both' : Bytes) (oid : Oid)
      (digest envelope_der ciphertext : Bytes)
      → set_message_integrity der codecs frame_der oid digest ≡ ok committed
      → set_confidentiality der codecs committed envelope_der ciphertext ≡ ok both
      → set_confidentiality der codecs frame_der envelope_der ciphertext ≡ ok sealed
      → set_message_integrity der codecs sealed oid digest ≡ ok both'
      → both ≡ both'
  set_message_integrity-set_confidentiality frame_der committed sealed both both' oid digest
        envelope_der ciphertext h1 h2 h3 h4 =
      let (wire, p) =
        set_message_integrity-opens der laws codecs frames frame_der committed oid digest h1 in
      let (value, m1, a1, a2) =
        set_message_integrity-parse der laws codecs frames frame_der committed oid digest wire p
          h1 in
      let (envelope, sealing, m2, b1, b2, b3) =
        set_confidentiality-parse der laws codecs frames committed both envelope_der ciphertext _ a2
          h2 in
      let (envelope', sealing', m3, c1, c2, c3) =
        set_confidentiality-parse der laws codecs frames frame_der sealed envelope_der ciphertext
          wire p h3 in
      let (value', m4, d1, d2) =
        set_message_integrity-parse der laws codecs frames sealed both' oid digest _ c3 h4 in
      let same_envelope : envelope' ≡ envelope = cc (b1, c1) in
      let same_sealing : sealing' ≡ sealing = cc (b2, c2, same_envelope) in
      let same_value : value' ≡ value = cc (a1, d1) in
      both_orders both both' wire.frame wire.metadata _ m1 m2 m3 m4 value value' sealing sealing'
        (frames.metadata_shape frame_der wire p) same_value (same_sealing) b3 d2
