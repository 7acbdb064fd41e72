-- ===== src/Ws/Wasm/Work/Envelope.antt =====
-- ws/tightbeam-ws-wasm/src/work.rs: the request envelope. URNs are those of the tightbeam crate: an
-- interface.
use tightbeam_ext.Prelude.{
  ℕ, ◌+◌, ◌≡◌, refl, sym, ap, ◌∙◌, true, none, some, [], ◌∷◌, ◌++◌, length, length-append, arith,
  Bytes,
}
use mathlib.Core.List.{append-nil}
use tightbeam_ext.Prelude.Result.{Result, ok, ◌>>=◌, bind-ok, ok-injective}
use tightbeam_ext.Ws.Wasm.Errors.{TightBeamError}
use tightbeam_ext.Ws.Wasm.Build.Der.{Any, Der, DerLaws, context_specific, other}
use tightbeam_ext.Ws.Wasm.Build.Sequence.{add, any_from_der, from_der, decode_value, encode_value}
use tightbeam_ext.Ws.Wasm.Build.RoundTrip.{any_from_der-encode, encode_value-decodes}
use tightbeam_ext.Ws.Wasm.Build.Wire.{Codecs}
use tightbeam_ext.Ws.Wasm.Build.Config.{v0, FrameConfig, FrameBuilder, build}

-- `WorkRequestEnvelope`.
pub record WorkRequestEnvelope (Urn : Type 0) : Type 0 where
  pub servlet_type : Urn
  pub work_der : Bytes
  pub correlation_id : Bytes

module _ {Urn Frame : Type 0} (frame_id : Frame → Bytes) where
  -- `frame_id` is `metadata().id()`.
  abbrev pub from_encoded : Urn → Bytes → Frame → WorkRequestEnvelope Urn
  from_encoded servlet_type work_der work = record {
    servlet_type = servlet_type;
    work_der = work_der;
    correlation_id = frame_id work;
  }

  unfoldable pub new :
      {Error : Type 0}
      → (Frame → Result Bytes Error)
      → Urn
      → Frame
      → Result (WorkRequestEnvelope Urn) Error
  new encode servlet_type work = do
    work_der ← encode work
    ok (from_encoded servlet_type work_der work)

module _ {Urn Error : Type 0} (der : Der Error) (urn_to_der : Urn → Result Bytes Error) where
  -- `encode_value` of `WorkRequestBody`, under the header for the checked sum of its lengths.
  unfoldable pub work_body : Urn → Bytes → Result Bytes Error
  work_body servlet_type work_der = do
    payload ← der.octet_string work_der
    urn ← urn_to_der servlet_type
    n ← add der (length urn) (length payload)
    head ← der.header n
    ok (head ++ (urn ++ payload))

  -- The EXPLICIT field of the `Work` variant.
  unfoldable pub work_message : Urn → Bytes → Result Bytes Error
  unfolding work_body
  work_message servlet_type work_der = do
    body ← work_body servlet_type work_der
    field ← der.new (context_specific true 2) body
    der.encode field

module _ {Urn Builder Frame Body Envelope Oid Priority Hash Matrix Fault : Type 0}
    (der : Der (TightBeamError Fault)) (codecs : Codecs Frame Envelope Oid (TightBeamError Fault))
    (builders : FrameBuilder Builder Frame Body Priority Hash Matrix (TightBeamError Fault))
    (urn_to_der : Urn → Result Bytes (TightBeamError Fault)) where
  abbrev pub wrapper : Bytes → Bytes → FrameConfig Priority Hash Matrix
  wrapper correlation_id message = record {
    version = some v0;
    id = correlation_id;
    order = 0;
    message = message;
    priority = none;
    lifetime = none;
    previous_hash = none;
    matrix = none;
  }

  unfoldable pub into_transport_frame :
      WorkRequestEnvelope Urn → Result Frame (TightBeamError Fault)
  into_transport_frame envelope = do
    message ← work_message der urn_to_der envelope.servlet_type envelope.work_der
    bytes ← build der codecs builders (wrapper envelope.correlation_id message)
    codecs.frame_from_der bytes

module _ {Urn Error : Type 0} (der : Der Error) (laws : DerLaws der)
    (urn_to_der : Urn → Result Bytes Error)
    (urn_encodes : (urn : Urn) (bytes : Bytes)
      → urn_to_der urn ≡ ok bytes
      → (a : Any) × (der.encode a ≡ ok bytes)) where
  add-exact : (m k n : ℕ) → add der m k ≡ ok n → n ≡ m + k
  add-exact m k n h = ground arith

  work_body-nests :
      (servlet_type : Urn) (work_der body : Bytes)
      → work_body der urn_to_der servlet_type work_der ≡ ok body
      → (urn : Any) × (from_der der body
          ≡ ok (urn ∷ record { tag = other 4; value = work_der } ∷ []))
        × (der.encode urn ≡ urn_to_der servlet_type)
  unfolding work_body from_der decode_value encode_value
  work_body-nests servlet_type work_der body h =
      let (payload, a1, a2) = bind-ok (der.octet_string work_der) _ body h in
      let (urn, b1, b2) = bind-ok (urn_to_der servlet_type) _ body a2 in
      let (n, c1, c2) = bind-ok (add der (length urn) (length payload)) _ body b2 in
      let (head, d1, d2) = bind-ok (der.header n) _ body c2 in
      let (u, e1) = urn_encodes servlet_type urn b1 in
      let o1 : der.encode (record { tag = other 4; value = work_der }) ≡ ok payload =
        laws.octet_string_encodes work_der payload a1 in
      let sizes =
        sym (add-exact (length urn) (length payload) n c1 ∙ sym (length-append urn payload)) in
      (u, contents urn payload head n u body e1 o1 sizes d1 (ok-injective d2), e1 ∙ sym b1)
    where
      contents :
          (urn payload head : Bytes) (n : ℕ) (u : Any) (body : Bytes)
          → der.encode u ≡ ok urn
          → der.encode (record { tag = other 4; value = work_der }) ≡ ok payload
          → length (urn ++ payload) ≡ n
          → der.header n ≡ ok head
          → head ++ (urn ++ payload) ≡ body
          → from_der der body ≡ ok (u ∷ record { tag = other 4; value = work_der } ∷ [])
      contents urn payload head n u body e o sizes headed whole =
          let coded : encode_value der (u ∷ record { tag = other 4; value = work_der } ∷ [])
              ≡ ok (urn ++ payload) =
            rw e (rw o (rw append-nil refl)) in
          let opens = laws.header_opens head (urn ++ payload) [] (ap der.header sizes ∙ headed) in
          rw (← whole) (
            rw (rw append-nil at opens) (
              rw
                (encode_value-decodes der laws (length (urn ++ payload))
                  (u ∷ record { tag = other 4; value = work_der } ∷ []) (urn ++ payload) coded
                  (omega arith))
                refl))

  -- Under a DER codec that keeps its laws and encodes URNs as single values, the message of a work
  -- request decodes to the field 2 around a SEQUENCE of the URN and of an
  -- OCTET STRING, which holds the caller's frame to the octet.
  pub work_message-nests :
      (servlet_type : Urn) (work_der message : Bytes)
      → work_message der urn_to_der servlet_type work_der ≡ ok message
      → (body : Bytes) × (urn : Any) × (any_from_der der message
          ≡ ok (record { tag = context_specific true 2; value = body }))
        × (from_der der body ≡ ok (urn ∷ record { tag = other 4; value = work_der } ∷ []))
        × (der.encode urn ≡ urn_to_der servlet_type)
  unfolding work_message any_from_der
  work_message-nests servlet_type work_der message h =
      let (body, a1, a2) = bind-ok (work_body der urn_to_der servlet_type work_der) _ message h in
      let (f, b1, b2) = bind-ok (der.new (context_specific true 2) body) _ message a2 in
      let kept = laws.new_kept (context_specific true 2) body f b1 in
      let decoded = any_from_der-encode der laws f message b2 in
      let (urn, c1, c2) = work_body-nests servlet_type work_der body a1 in
      (body, urn, decoded ∙ ap ok kept, c1, c2)
