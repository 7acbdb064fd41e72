-- ===== src/Ws/Wasm/Tests/Signatures.antt =====
-- Concrete inputs for the theorems about signatures in ws/tightbeam-ws-wasm/src/build.rs.
use tightbeam_ext.Prelude.{
  ℕ, ◌+◌, ◌≡◌, ◌↔◌, refl, sym, ap, subst, ◌∙◌, Option, none, some, Bool, true, false, [], ◌∷◌, ◌==◌,
  if◌then◌else◌, Bytes,
}
use tightbeam_ext.Prelude.Result.{Result, ok, err, ok-injective}
use tightbeam_ext.Ws.Wasm.Errors.{upstream}
use tightbeam_ext.Ws.Wasm.Build.Signature.{
  CmsSigner, signer_identifier, signature_draft, signing_prehash, signature_prehash,
  attach_signature,
}
use tightbeam_ext.Ws.Wasm.Build.Signing.{SignatureLaws, attach_signature-signature_prehash}
use tightbeam_ext.Ws.Wasm.Tests.Codec.{Fault}

-- A signer's name and its signature, which is one number, beside the content of a frame.
record Info : Type 0 where
  name : ℕ
  mark : ℕ

record Signed : Type 0 where
  content : ℕ
  info : Option Info

abbrev encode : ℕ → Option Info → Bytes
encode content none = content ∷ []
encode content (some info) = content ∷ info.name ∷ info.mark ∷ []

abbrev decode : Bytes → Result Signed Fault
decode (content ∷ []) = ok (record { content = content; info = none })
decode (content ∷ name ∷ mark ∷ []) =
    ok (record { content = content; info = some (record { name = name; mark = mark }) })
decode _ = err (upstream tt)

abbrev first : Bytes → ℕ
first [] = 0
first (b ∷ bytes) = b

-- The key, the signer's name and the content add up to the signature.
abbrev total : Bytes → ℕ
total [] = 0
total (b ∷ bytes) = b + total bytes

abbrev verifies : ℕ → Bytes → Bytes → Bool
verifies key digest signature = key + total digest == first signature

abbrev accepts : Bool → Result (Unit {0}) Fault
accepts b = if b then ok tt else err (upstream tt)

accepts-ok : (b : Bool) → (accepts b ≡ ok tt) ↔ (b ≡ true)
accepts-ok true = (λ e. refl, λ e. refl)
accepts-ok false = (λ e. cc, λ e. cc)

abbrev cms : CmsSigner Signed ℕ (ℕ × Bytes) Info ℕ ℕ Fault
cms = record {
  frame_from_der = decode;
  frame_to_der = λ f. ok (encode f.content f.info);
  to_tbs = λ f. ok (f.content ∷ []);
  nonrepudiation = λ f. f.info;
  attach_signer_info = λ f i. ok (record f { info = some i });
  new_octets = λ b. ok b;
  subject_key_identifier = first;
  sid = λ i. i.name;
  draft = λ sid tbs. ok (sid, tbs);
  prehash = λ d. d.0 ∷ d.1;
  complete = λ d signature. ok (record { name = d.0; mark = first signature });
  verify = λ i key tbs. accepts (verifies key (i.name ∷ tbs) (i.mark ∷ []));
  sign = λ key digest. ok ((key + total digest) ∷ []);
}

decode-encode :
    (content : ℕ) (info : Option Info)
    → decode (encode content info) ≡ ok (record { content = content; info = info })
decode-encode content none = refl
decode-encode content (some info) = refl

verify-verifies :
    (sid : ℕ) (tbs signature : Bytes) (draft : ℕ × Bytes) (info : Info) (key : ℕ)
    → (sid, tbs) ≡ draft
    → record { name = draft.0; mark = first signature } ≡ info
    → (cms.verify info key tbs ≡ ok tt) ↔ (verifies key (cms.prehash draft) signature ≡ true)
verify-verifies sid tbs signature draft info key d i =
    subst
      (λ (x : Info).
        (cms.verify x key tbs ≡ ok tt) ↔ (verifies key (cms.prehash draft) signature ≡ true))
      i
      (subst
        (λ (x : ℕ × Bytes).
          (cms.verify (record { name = x.0; mark = first signature }) key tbs ≡ ok tt)
          ↔ (verifies key (cms.prehash x) signature ≡ true))
        d (accepts-ok (verifies key (sid ∷ tbs) signature)))

laws : SignatureLaws cms verifies
laws = record {
  decodes =
      λ frame bytes h. ap decode (sym (ok-injective h)) ∙ decode-encode frame.content frame.info;
  tbs_kept = λ frame signed info h. ap cms.to_tbs (sym (ok-injective h));
  attached = λ frame signed info h. ap cms.nonrepudiation (sym (ok-injective h));
  sid_kept = λ sid tbs signature draft info h k.
      ap cms.sid (sym (ok-injective k)) ∙ ap (λ (d : ℕ × Bytes). d.0) (sym (ok-injective h));
  verify_iff = λ sid tbs signature draft info key h k.
      verify-verifies sid tbs signature draft info key (ok-injective h) (ok-injective k);
}

-- The content 3, signed by the name 5 with the key 2.
attached : attach_signature cms (3 ∷ []) (10 ∷ []) (5 ∷ []) ≡ ok (3 ∷ 5 ∷ 10 ∷ [])
unfolding attach_signature signer_identifier signature_draft
attached = refl

attach_signature-signature_prehash_example :
    signature_prehash cms (3 ∷ 5 ∷ 10 ∷ []) ≡ signing_prehash cms (3 ∷ []) (5 ∷ [])
attach_signature-signature_prehash_example =
    attach_signature-signature_prehash cms verifies laws (3 ∷ []) (10 ∷ []) (5 ∷ [])
      (3 ∷ 5 ∷ 10 ∷ []) attached
