-- ===== src/Ws/Wasm/Build/Signature.antt =====
-- ws/tightbeam-ws-wasm/src/build.rs: signatures that are made outside. The CMS signer and the
-- accessors of `Frame` are those of the tightbeam crate: an interface.
use tightbeam_ext.Prelude.{Option, Bytes}
use tightbeam_ext.Prelude.Result.{Result, ok, ◌>>=◌, ok_or}
use tightbeam_ext.Ws.Wasm.Errors.{TightBeamError, missing_signature}

-- `draft` is `CmsSigner::draft` over content of the type `id-data`, `prehash` the digest of its
-- signed attributes, and `verify` is `CmsSigner::verify` over such content. `key_octets` is the
-- subject key identifier of a key.
pub record CmsSigner (Frame Sid Draft SignerInfo SigningKey VerifyingKey Error : Type 0)
    : Type 0 where
  pub frame_from_der : Bytes → Result Frame Error
  pub frame_to_der : Frame → Result Bytes Error
  pub to_tbs : Frame → Result Bytes Error
  pub nonrepudiation : Frame → Option SignerInfo
  pub attach_signer_info : Frame → SignerInfo → Result Frame Error
  pub new_octets : Bytes → Result Bytes Error
  pub subject_key_identifier : Bytes → Sid
  pub sid : SignerInfo → Sid
  pub draft : Sid → Bytes → Result Draft Error
  pub prehash : Draft → Bytes
  pub complete : Draft → Bytes → Result SignerInfo Error
  pub verify : SignerInfo → VerifyingKey → Bytes → Result (Unit {0}) Error
  pub sign : SigningKey → Bytes → Result Bytes Error

module _ {Frame Sid Draft SignerInfo SigningKey VerifyingKey Fault : Type 0}
    (cms : CmsSigner Frame Sid Draft SignerInfo SigningKey VerifyingKey
      (TightBeamError Fault)) where
  abbrev Outcome : Type 0 → Type 0
  Outcome A = Result A (TightBeamError Fault)

  unfoldable pub tbs_bytes : Bytes → Outcome Bytes
  tbs_bytes frame_der = do frame ← cms.frame_from_der frame_der; cms.to_tbs frame

  unfoldable pub signer_identifier : Bytes → Outcome Sid
  signer_identifier signer_key_id = do
    key_id ← cms.new_octets signer_key_id
    ok (cms.subject_key_identifier key_id)

  unfoldable pub signature_draft : Frame → Sid → Outcome Draft
  signature_draft frame sid = do tbs ← cms.to_tbs frame; cms.draft sid tbs

  unfoldable pub signing_prehash : Bytes → Bytes → Outcome Bytes
  signing_prehash frame_der signer_key_id = do
    frame ← cms.frame_from_der frame_der
    sid ← signer_identifier signer_key_id
    draft ← signature_draft frame sid
    ok (cms.prehash draft)

  unfoldable pub signature_prehash : Bytes → Outcome Bytes
  signature_prehash frame_der = do
    frame ← cms.frame_from_der frame_der
    signer_info ← ok_or missing_signature (cms.nonrepudiation frame)
    draft ← signature_draft frame (cms.sid signer_info)
    ok (cms.prehash draft)

  unfoldable pub attach_signature : Bytes → Bytes → Bytes → Outcome Bytes
  attach_signature frame_der signature signer_key_id = do
    frame ← cms.frame_from_der frame_der
    sid ← signer_identifier signer_key_id
    draft ← signature_draft frame sid
    signer_info ← cms.complete draft signature
    signed ← cms.attach_signer_info frame signer_info
    cms.frame_to_der signed

  unfoldable pub sign_prehash : SigningKey → Bytes → Outcome Bytes
  sign_prehash key prehash = cms.sign key prehash

  unfoldable pub verify_signature : VerifyingKey → Bytes → Outcome (Unit {0})
  verify_signature key frame_der = do
    frame ← cms.frame_from_der frame_der
    signer_info ← ok_or missing_signature (cms.nonrepudiation frame)
    tbs ← cms.to_tbs frame
    cms.verify signer_info key tbs
