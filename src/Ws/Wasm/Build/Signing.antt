-- ===== src/Ws/Wasm/Build/Signing.antt =====
-- ws/tightbeam-ws-wasm/src/build.rs: the digest that is signed and the digest that is verified.
use tightbeam_ext.Prelude.{◌≡◌, ◌↔◌, refl, sym, ◌∙◌, none, some, Bool, true, Bytes}
use tightbeam_ext.Prelude.Result.{ok, err, bind-ok, ok-injective}
use tightbeam_ext.Ws.Wasm.Errors.{TightBeamError, missing_signature}
use tightbeam_ext.Ws.Wasm.Build.Signature.{
  CmsSigner, signer_identifier, signature_draft, signing_prehash, signature_prehash,
  attach_signature, verify_signature,
}

-- What the tightbeam crate documents: a frame decodes from its encoding, the bytes to be signed
-- leave out the signature, a completed signer names the one that drafted it, and it verifies over
-- content under a key exactly if its signature does over the digest of its draft. `verifies` is the
-- ECDSA verification of a signature over a digest.
pub record SignatureLaws {Frame Sid Draft SignerInfo SigningKey VerifyingKey Fault : Type 0}
    (cms : CmsSigner Frame Sid Draft SignerInfo SigningKey VerifyingKey (TightBeamError Fault))
    (verifies : VerifyingKey → Bytes → Bytes → Bool) : Type 0 where
  pub decodes :
      (frame : Frame) (bytes : Bytes)
      → cms.frame_to_der frame ≡ ok bytes
      → cms.frame_from_der bytes ≡ ok frame
  pub tbs_kept :
      (frame signed : Frame) (info : SignerInfo)
      → cms.attach_signer_info frame info ≡ ok signed
      → cms.to_tbs signed ≡ cms.to_tbs frame
  pub attached :
      (frame signed : Frame) (info : SignerInfo)
      → cms.attach_signer_info frame info ≡ ok signed
      → cms.nonrepudiation signed ≡ some info
  pub sid_kept :
      (sid : Sid) (tbs signature : Bytes) (draft : Draft) (info : SignerInfo)
      → cms.draft sid tbs ≡ ok draft
      → cms.complete draft signature ≡ ok info
      → cms.sid info ≡ sid
  pub verify_iff :
      (sid : Sid) (tbs signature : Bytes) (draft : Draft) (info : SignerInfo) (key : VerifyingKey)
      → cms.draft sid tbs ≡ ok draft
      → cms.complete draft signature ≡ ok info
      → (cms.verify info key tbs ≡ ok tt) ↔ (verifies key (cms.prehash draft) signature ≡ true)

module _ {Frame Sid Draft SignerInfo SigningKey VerifyingKey Fault : Type 0}
    (cms : CmsSigner Frame Sid Draft SignerInfo SigningKey VerifyingKey (TightBeamError Fault))
    (verifies : VerifyingKey → Bytes → Bytes → Bool) (laws : SignatureLaws cms verifies) where
  -- How a signature came to be attached.
  record Attached (frame_der signature key_id signed_der : Bytes) : Type 0 where
    frame : Frame
    signed : Frame
    sid : Sid
    tbs : Bytes
    draft : Draft
    info : SignerInfo
    decoded : cms.frame_from_der frame_der ≡ ok frame
    named : signer_identifier cms key_id ≡ ok sid
    signs : cms.to_tbs frame ≡ ok tbs
    drafted : cms.draft sid tbs ≡ ok draft
    completed : cms.complete draft signature ≡ ok info
    installed : cms.attach_signer_info frame info ≡ ok signed
    encoded : cms.frame_from_der signed_der ≡ ok signed

  attach_signature-Attached :
      (frame_der signature key_id signed_der : Bytes)
      → attach_signature cms frame_der signature key_id ≡ ok signed_der
      → Attached frame_der signature key_id signed_der
  unfolding attach_signature signature_draft
  attach_signature-Attached frame_der signature key_id signed_der h =
      let (frame, a1, a2) = bind-ok (cms.frame_from_der frame_der) _ signed_der h in
      let (sid, b1, b2) = bind-ok (signer_identifier cms key_id) _ signed_der a2 in
      let (draft, c1, c2) = bind-ok (signature_draft cms frame sid) _ signed_der b2 in
      let (tbs, d1, d2) = bind-ok (cms.to_tbs frame) _ draft c1 in
      let (info, e1, e2) = bind-ok (cms.complete draft signature) _ signed_der c2 in
      let (signed, f1, f2) = bind-ok (cms.attach_signer_info frame info) _ signed_der e2 in
      record {
        frame = frame;
        signed = signed;
        sid = sid;
        tbs = tbs;
        draft = draft;
        info = info;
        decoded = a1;
        named = b1;
        signs = d1;
        drafted = d2;
        completed = e1;
        installed = f1;
        encoded = laws.decodes signed signed_der f2;
      }

  -- Under a CMS signer that keeps its laws, the digest that a verifier checks a signed frame against
  -- is what the signer was given for the unsigned frame and the key identifier.
  pub attach_signature-signature_prehash :
      (frame_der signature key_id signed_der : Bytes)
      → attach_signature cms frame_der signature key_id ≡ ok signed_der
      → signature_prehash cms signed_der ≡ signing_prehash cms frame_der key_id
  unfolding signing_prehash signature_prehash signature_draft
  attach_signature-signature_prehash frame_der signature key_id signed_der h =
      let a = attach_signature-Attached frame_der signature key_id signed_der h in
      rw a.decoded (
        rw a.encoded (
          rw (laws.attached a.frame a.signed a.info a.installed) (
            rw a.named (
              rw (laws.sid_kept a.sid a.tbs signature a.draft a.info a.drafted a.completed)
                (rw (laws.tbs_kept a.frame a.signed a.info a.installed) refl)))))

  -- Under a CMS signer that keeps its laws, a signed frame verifies under a key exactly if the
  -- attached signature verifies under it over the digest that the signer was given.
  pub attach_signature-verify_signature :
      (frame_der signature key_id signed_der digest : Bytes) (key : VerifyingKey)
      → attach_signature cms frame_der signature key_id ≡ ok signed_der
      → signing_prehash cms frame_der key_id ≡ ok digest
      → (verify_signature cms key signed_der ≡ ok tt) ↔ (verifies key digest signature ≡ true)
  unfolding signing_prehash verify_signature signature_draft
  attach_signature-verify_signature frame_der signature key_id signed_der digest key h d =
      let a = attach_signature-Attached frame_der signature key_id signed_der h in
      let checks : verify_signature cms key signed_der ≡ cms.verify a.info key a.tbs =
        rw a.encoded (
          rw (laws.attached a.frame a.signed a.info a.installed)
            (rw (laws.tbs_kept a.frame a.signed a.info a.installed) (rw a.signs refl))) in
      let given : signing_prehash cms frame_der key_id ≡ ok (cms.prehash a.draft) =
        rw a.decoded (rw a.named (rw a.signs (rw a.drafted refl))) in
      let same : digest ≡ cms.prehash a.draft = ok-injective (sym d ∙ given) in
      rw checks
        (rw same (laws.verify_iff a.sid a.tbs signature a.draft a.info key a.drafted a.completed))

  -- Without a signature there is nothing to verify and no digest.
  pub unsigned :
      (frame_der : Bytes) (frame : Frame) (key : VerifyingKey)
      → cms.frame_from_der frame_der ≡ ok frame
      → cms.nonrepudiation frame ≡ none
      → (verify_signature cms key frame_der ≡ err missing_signature)
        × (signature_prehash cms frame_der ≡ err missing_signature)
  unfolding signature_prehash verify_signature
  unsigned frame_der frame key d n = (rw d (rw n refl), rw d (rw n refl))
