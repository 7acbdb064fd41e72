-- ===== src/Ws/Wasm/Build/Seal.antt =====
-- ws/tightbeam-ws-wasm/src/build.rs: bodies sealed and opened with the profile keys. The key
-- providers and the HPKE suite are those of the tightbeam crate: an interface, with the randomness
-- of a seal as an argument.
use tightbeam_ext.Prelude.{◌≡◌, sym, ap, ◌∙◌, Option, Bytes}
use tightbeam_ext.Prelude.Result.{Result, ok, ◌>>=◌, bind-ok, ok-injective}

-- `encrypt` is `encrypt_content` under an encryptor, `take_content` detaches the ciphertext, and
-- `decrypt` is `decrypt_content` under a decryptor.
pub record ContentCipher (Encryptor Decryptor Envelope Oid Seed Error : Type 0) : Type 0 where
  pub encrypt : Encryptor → Seed → Bytes → Option Oid → Result Envelope Error
  pub take_content : Envelope → Result (Bytes × Envelope) Error
  pub content_enc_alg : Envelope → Oid
  pub envelope_to_der : Envelope → Result Bytes Error
  pub envelope_from_der : Bytes → Result Envelope Error
  pub decrypt : Decryptor → Envelope → Bytes → Result Bytes Error

pub record SealedBody (Oid : Type 0) : Type 0 where
  pub algorithm_oid : Oid
  pub envelope_der : Bytes
  pub ciphertext : Bytes

module _ {Encryptor Decryptor Envelope Oid Seed Error : Type 0}
    (cipher : ContentCipher Encryptor Decryptor Envelope Oid Seed Error) where
  unfoldable pub sealed_body : Envelope → Result (SealedBody Oid) Error
  sealed_body envelope = do
    (ciphertext, detached) ← cipher.take_content envelope
    envelope_der ← cipher.envelope_to_der detached
    ok (record {
      algorithm_oid = cipher.content_enc_alg detached;
      envelope_der = envelope_der;
      ciphertext = ciphertext;
    })

  unfoldable pub opened : Decryptor → Bytes → Bytes → Result Bytes Error
  opened decryptor envelope_der ciphertext = do
    sealed ← cipher.envelope_from_der envelope_der
    cipher.decrypt decryptor sealed ciphertext

  -- The same for a shared key and for a public key.
  unfoldable pub seal : Encryptor → Seed → Bytes → Option Oid → Result (SealedBody Oid) Error
  unfolding sealed_body
  seal encryptor seed plaintext content_oid = do
    sealed ← cipher.encrypt encryptor seed plaintext content_oid
    sealed_body sealed

  unfoldable pub unseal : Decryptor → Bytes → Bytes → Result Bytes Error
  unfolding opened
  unseal decryptor envelope_der ciphertext = opened decryptor envelope_der ciphertext

  -- Under a decryptor that recovers what the encryptor sealed, a sealed body opens, across the DER
  -- of its envelope, to the plaintext.
  pub seal-unseal :
      (encryptor : Encryptor) (decryptor : Decryptor) (seed : Seed) (plaintext : Bytes)
      (content_oid : Option Oid) (body : SealedBody Oid)
      → ((envelope detached : Envelope) (ciphertext : Bytes)
          → cipher.encrypt encryptor seed plaintext content_oid ≡ ok envelope
          → cipher.take_content envelope ≡ ok (ciphertext, detached)
          → cipher.decrypt decryptor detached ciphertext ≡ ok plaintext)
      → ((envelope : Envelope) (bytes : Bytes)
          → cipher.envelope_to_der envelope ≡ ok bytes
          → cipher.envelope_from_der bytes ≡ ok envelope)
      → seal encryptor seed plaintext content_oid ≡ ok body
      → unseal decryptor body.envelope_der body.ciphertext ≡ ok plaintext
  unfolding seal unseal
  seal-unseal encryptor decryptor seed plaintext content_oid body recovers decodes h =
      let (envelope, a1, a2) =
        bind-ok (cipher.encrypt encryptor seed plaintext content_oid) _ body h in
      let ((ciphertext, detached), b1, b2) = bind-ok (cipher.take_content envelope) _ body a2 in
      let (bytes, c1, c2) = bind-ok (cipher.envelope_to_der detached) _ body b2 in
      let same = ok-injective c2 in
      let decoded = decodes detached bytes c1 in
      let recovered = recovers envelope detached ciphertext a1 b1 in
      ap (λ (b : SealedBody Oid). unseal decryptor b.envelope_der b.ciphertext) (sym same)
      ∙ rw decoded recovered
