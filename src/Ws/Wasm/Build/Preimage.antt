-- ===== src/Ws/Wasm/Build/Preimage.antt =====
-- ws/tightbeam-ws-wasm/src/build.rs: what the preimage of a commitment tells apart.
use tightbeam_ext.Prelude.{
  ℕ, zero, suc, ◌*◌, ◌/◌, ◌%◌, ◌^◌, ◌<◌, ◌≡◌, refl, sym, ◌∙◌, ◌↔◌, [], ◌∷◌, ◌++◌, length,
  length-append, arith, Bytes,
}
use tightbeam_ext.Prelude.Result.{Result, ok, bind-ok, ok-injective}
use tightbeam_ext.Ws.Wasm.Build.Config.{
  CommitmentSalt, plain_salt, hiding, commitment_preimage, preimage, big_endian, to_be_bytes,
}

-- Equal strings whose heads are as long fall into the same parts.
append-split : (a b c d : Bytes) → length a ≡ length c → a ++ b ≡ c ++ d → (a ≡ c) × (b ≡ d)
append-split [] b [] d h e = (refl, e)
append-split [] b (y ∷ c) d h e = absurd (omega arith)
append-split (x ∷ a) b [] d h e = absurd (omega arith)
append-split (x ∷ a) b (y ∷ c) d h e = ground (arith, append-split a b c d (omega arith))

length-big_endian : (digits n : ℕ) → length (big_endian digits n) ≡ digits
unfolding big_endian
length-big_endian zero n = refl
length-big_endian (suc digits) n = omega (
  arith,
  length-append (big_endian digits (n / 256)) (n % 256 ∷ []),
  length-big_endian digits (n / 256),
)

-- How many numbers the digits tell apart.
abbrev pub reach : ℕ → ℕ
reach zero = 1
reach (suc digits) = 256 * reach digits

big_endian-injective :
    (digits m n : ℕ)
    → m < reach digits
    → n < reach digits
    → big_endian digits m ≡ big_endian digits n
    → m ≡ n
unfolding big_endian
big_endian-injective zero m n h k e = omega arith
big_endian-injective (suc digits) m n h k e =
    let sizes = length-big_endian digits (m / 256) ∙ sym (length-big_endian digits (n / 256)) in
    let (high, low) = append-split _ _ _ _ sizes e in
    let above = big_endian-injective digits (m / 256) (n / 256) (omega arith) (omega arith) high in
    let last : m % 256 ≡ n % 256 = cc in omega (arith, above, last)

to_be_bytes-split :
    (m n : ℕ) (b d : Bytes)
    → m < reach 8
    → n < reach 8
    → to_be_bytes m ++ b ≡ to_be_bytes n ++ d
    → (m ≡ n) × (b ≡ d)
unfolding to_be_bytes
to_be_bytes-split m n b d h k e =
    let parts =
      append-split (big_endian 8 m) b (big_endian 8 n) d
        (length-big_endian 8 m ∙ sym (length-big_endian 8 n)) e in
    (big_endian-injective 8 m n h k parts.0, parts.1)

module _ {Error : Type 0} (parse : Bytes → Result CommitmentSalt Error)
    (plain_iff : (salt : Bytes) → (parse salt ≡ ok plain_salt) ↔ (salt ≡ [])) where
  same_preimage :
      (s s' : CommitmentSalt) (salt salt' body body' : Bytes)
      → parse salt ≡ ok s
      → parse salt' ≡ ok s'
      → length salt < reach 8
      → length salt' < reach 8
      → preimage s salt body ≡ preimage s' salt' body'
      → (salt ≡ salt') × (body ≡ body')
  same_preimage plain_salt plain_salt salt salt' body body' p p' h h' e =
      ((plain_iff salt).0 p ∙ sym ((plain_iff salt').0 p'), cc)
  same_preimage plain_salt (hiding k) salt salt' body body' p p' h h' e = absurd (ground arith)
  same_preimage (hiding k) plain_salt salt salt' body body' p p' h h' e = absurd (ground arith)
  same_preimage (hiding k) (hiding k') salt salt' body body' p p' h h' e =
      let (sizes, rest) = to_be_bytes-split (length salt) (length salt') _ _ h h' (cc) in
      append-split salt body salt' body' sizes rest

  -- Two pairs of a salt and a body with the same preimage are the same pair, where the salts have
  -- fewer than 2 ^ 64 octets and the parser of salts takes the empty one alone as plain.
  pub commitment_preimage-injective :
      (salt salt' body body' bytes : Bytes)
      → length salt < 2 ^ 64
      → length salt' < 2 ^ 64
      → commitment_preimage parse salt body ≡ ok bytes
      → commitment_preimage parse salt' body' ≡ ok bytes
      → (salt ≡ salt') × (body ≡ body')
  unfolding commitment_preimage
  commitment_preimage-injective salt salt' body body' bytes h h' e e' =
      let (s, a1, a2) = bind-ok (parse salt) _ bytes e in
      let (s', b1, b2) = bind-ok (parse salt') _ bytes e' in
      same_preimage s s' salt salt' body body' a1 b1 (omega arith) (omega arith)
        (ok-injective (a2 ∙ sym b2))
