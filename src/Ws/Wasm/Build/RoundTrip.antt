-- ===== src/Ws/Wasm/Build/RoundTrip.antt =====
-- ws/tightbeam-ws-wasm/src/build.rs: raw sequences between bytes and components.
use mathlib.Core.List.{append-nil}
use mathlib.Core.Option
use tightbeam_ext.Prelude.{
  Option, Option-cases, none, some, if◌then◌else◌, is_nil, ℕ, zero, suc, ◌+◌, ◌≤◌, ◌<◌, ◌≡◌, refl,
  sym, ap, subst, ◌∙◌, inl, inr, [], ◌∷◌, ◌++◌, length, length-append, arith, Bytes,
}
use tightbeam_ext.Prelude.Result.{Result, ok, err, ◌>>=◌, bind-ok, Result-cases}
use tightbeam_ext.Ws.Wasm.Build.Der.{Any, Der, DerLaws}
use tightbeam_ext.Ws.Wasm.Build.Sequence.{
  RawSequence, put_first, loop_result, decode_components, decode_value, from_der, any_from_der, add,
  value_len, encode_value, to_der,
}

module _ {Error : Type 0} (der : Der Error) (laws : DerLaws der) where
  -- One TLV is not empty.
  pub decode-shrinks :
      (bytes rest : Bytes) (a : Any) → der.decode bytes ≡ ok (a, rest) → length rest < length bytes
  decode-shrinks bytes rest a h =
      let (own, encoded, split) = laws.decode_encodes bytes rest a h in
      omega (arith, laws.encode_pos a own encoded, ap length split, length-append own rest)

  -- With a round for each octet the loop is over, and further rounds change nothing.
  decode_components-ends :
      (f g : ℕ) (bytes : Bytes)
      → length bytes ≤ f
      → length bytes ≤ g
      → (result : Result RawSequence Error) × (decode_components der f bytes ≡ some result)
        × (decode_components der g bytes ≡ some result)
  unfolding decode_components
  decode_components-ends f g [] h k = (ok [], ground arith, ground arith)
  decode_components-ends zero g (b ∷ bytes) h k = absurd (omega arith)
  decode_components-ends (suc f) zero (b ∷ bytes) h k = absurd (omega arith)
  decode_components-ends (suc f) (suc g) (b ∷ bytes) h k =
      elim (Result-cases (der.decode (b ∷ bytes))) [
        | inl ((a, rest), e) ↦
            let shorter = decode-shrinks (b ∷ bytes) rest a e in
            let (result, ends_f, ends_g) =
              decode_components-ends f g rest (omega (arith, shorter)) (omega (arith, shorter)) in
            (
              put_first der a result,
              rw (e, ends_f, decode_components) refl,
              rw (e, ends_g, decode_components) refl,
            )
        | inr (x, e) ↦ (err x, rw (e, decode_components) refl, rw (e, decode_components) refl)
      ]

  decode_components-enough :
      (fuel : ℕ) (bytes : Bytes)
      → length bytes ≤ fuel
      → decode_components der fuel bytes ≡ some (decode_value der bytes)
  unfolding decode_value loop_result
  decode_components-enough fuel bytes h =
      let (result, ends, same) = decode_components-ends fuel (length bytes) bytes h (omega arith) in
      rw same ends

  -- One turn of the loop.
  decode_value-loop :
      (bytes : Bytes)
      → decode_value der bytes ≡ (
          if is_nil bytes then ok [] else do
            (component, rest) ← der.decode bytes
            components ← decode_value der rest
            ok (component ∷ components))
  unfolding decode_value decode_components loop_result put_first
  decode_value-loop [] = refl
  decode_value-loop (b ∷ bytes) = elim (Result-cases (der.decode (b ∷ bytes))) [
    | inr (x, e) ↦ rw (e, decode_components) refl
    | inl ((a, rest), e) ↦
        let shorter = decode-shrinks (b ∷ bytes) rest a e in
        rw (e, decode_components)
          (rw (decode_components-enough (length bytes) rest (omega (arith, shorter))) refl)
  ]

  -- Under a DER codec that keeps its laws, the loop over the contents of a SEQUENCE comes to an end
  -- within as many rounds as there are octets, whatever the octets are, and the result is that of
  -- the unbounded loop: nothing at the end of the contents, else the decoded component in front of
  -- what the loop gives for the octets behind it, and the first error ends it.
  pub decode_components-decode_value :
      (fuel : ℕ) (bytes : Bytes)
      → length bytes ≤ fuel
      → (decode_components der fuel bytes ≡ some (decode_value der bytes))
        × (decode_value der bytes ≡ (
            if is_nil bytes then ok [] else do
              (component, rest) ← der.decode bytes
              components ← decode_value der rest
              ok (component ∷ components)))
  decode_components-decode_value fuel bytes h =
      (decode_components-enough fuel bytes h, decode_value-loop bytes)

  pub value_len-exact :
      (total n : ℕ) (xs : RawSequence) (contents : Bytes)
      → value_len der total xs ≡ ok n
      → encode_value der xs ≡ ok contents
      → n ≡ total + length contents
  unfolding value_len encode_value
  value_len-exact total n [] contents h e = ground arith
  value_len-exact total n (x ∷ xs) contents h e =
      let (own, e1, e2) = bind-ok (der.encode x) _ contents e in
      let (more, e3, e4) = bind-ok (encode_value der xs) _ contents e2 in
      let (k, h1, h2) = bind-ok (der.encoded_len x) _ n h in
      let (t, h3, h4) = bind-ok (add der total k) _ n h2 in
      ground (
        arith,
        laws.encoded_len_exact x own e1,
        value_len-exact t n xs more h4 e3,
        length-append own more,
      )

  non_empty_decodes :
      (fuel : ℕ) (x : Any) (own more : Bytes) (xs : RawSequence)
      → der.encode x ≡ ok own
      → decode_components der fuel more ≡ some (ok xs)
      → decode_components der (suc fuel) (own ++ more) ≡ some (ok (x ∷ xs))
  unfolding decode_components put_first
  non_empty_decodes fuel x [] more xs e h = absurd (omega (arith, laws.encode_pos x [] e))
  non_empty_decodes fuel x (b ∷ own) more xs e h =
      rw (laws.encode_decodes x (b ∷ own) more e) (rw h refl)

  pub encode_value-decodes :
      (fuel : ℕ) (xs : RawSequence) (contents : Bytes)
      → encode_value der xs ≡ ok contents
      → length contents ≤ fuel
      → decode_components der fuel contents ≡ some (ok xs)
  unfolding encode_value
  encode_value-decodes fuel [] contents e h = unfold decode_components in ground arith
  encode_value-decodes fuel (x ∷ xs) contents e h =
      let (own, e1, e2) = bind-ok (der.encode x) _ contents e in
      let (more, e3, e4) = bind-ok (encode_value der xs) _ contents e2 in
      let eq : own ++ more ≡ contents = ground arith in
      subst (λ c. decode_components der fuel c ≡ some (ok (x ∷ xs))) eq
        (rounds fuel own more (omega (arith, ap length eq, length-append own more)) e1
          (λ f k. encode_value-decodes f xs more e3 k))
    where
      rounds :
          (fuel : ℕ) (own more : Bytes)
          → length own + length more ≤ fuel
          → der.encode x ≡ ok own
          → ((f : ℕ) → length more ≤ f → decode_components der f more ≡ some (ok xs))
          → decode_components der fuel (own ++ more) ≡ some (ok (x ∷ xs))
      rounds zero own more k e1 ih = absurd (omega (arith, laws.encode_pos x own e1))
      rounds (suc f) own more k e1 ih =
          non_empty_decodes f x own more xs e1 (ih f (omega (arith, laws.encode_pos x own e1)))

  -- What `to_der` wrote is read back, and is all that `from_der` needs.
  pub from_der-to_der :
      (xs : RawSequence) (bytes : Bytes) → to_der der xs ≡ ok bytes → from_der der bytes ≡ ok xs
  unfolding from_der to_der decode_value loop_result
  from_der-to_der xs bytes h =
      let (n, h1, h2) = bind-ok (value_len der 0 xs) _ bytes h in
      let (head, h3, h4) = bind-ok (der.header n) _ bytes h2 in
      let (contents, h5, h6) = bind-ok (encode_value der xs) _ bytes h4 in
      let exact : n ≡ length contents = omega (arith, value_len-exact 0 n xs contents h1 h5) in
      let heads : der.header (length contents) ≡ ok head = rw (← exact) h3 in
      let eq : head ++ (contents ++ []) ≡ bytes = rw append-nil (ground arith) in
      rw (← eq) (
        rw (laws.header_opens head contents [] heads)
          (rw (encode_value-decodes (length contents) xs contents h5 (omega arith)) refl))

  pub decode_components-encodes :
      (fuel : ℕ) (contents : Bytes) (xs : RawSequence)
      → decode_components der fuel contents ≡ some (ok xs)
      → encode_value der xs ≡ ok contents
  unfolding decode_components put_first encode_value
  decode_components-encodes fuel [] xs h = let eq : [] ≡ xs = ground arith in rw (← eq) refl
  decode_components-encodes zero (b ∷ contents) xs h = absurd (ground arith)
  decode_components-encodes (suc fuel) (b ∷ contents) xs h =
      elim (Result-cases (der.decode (b ∷ contents))) [
        | inr (cause, e) ↦ absurd (ground arith)
        | inl ((x, rest), e) ↦
            let (more, h3, eq) = later x rest (rw (e, decode_components) at h) in
            let (own, e1, e2) = laws.decode_encodes (b ∷ contents) rest x e in
            rw (← eq) (rw e1 (rw (decode_components-encodes fuel rest more h3) (rw (← e2) refl)))
      ]
    where
      later :
          (x : Any) (rest : Bytes)
          → Option.map (put_first der x) (decode_components der fuel rest) ≡ some (ok xs)
          → (more : RawSequence) × (decode_components der fuel rest ≡ some (ok more))
            × (x ∷ more ≡ xs)
      later x rest h = elim (Option-cases (decode_components der fuel rest)) [
        | inl none_left ↦ absurd (ground arith)
        | inr (result, ends) ↦ elim (Result-cases result) [
          | inl (more, e) ↦ (more, cc (ends, e), ground arith)
          | inr (cause, e) ↦ absurd (ground arith)
        ]
      ]

  value_len-fits :
      (total : ℕ) (xs : RawSequence) (contents : Bytes)
      → encode_value der xs ≡ ok contents
      → total + length contents ≤ der.max_len
      → value_len der total xs ≡ ok (total + length contents)
  unfolding value_len encode_value
  value_len-fits total [] contents e h = ground arith
  value_len-fits total (x ∷ xs) contents e h =
      let (own, e1, e2) = bind-ok (der.encode x) _ contents e in
      let (more, e3, e4) = bind-ok (encode_value der xs) _ contents e2 in
      let eq : own ++ more ≡ contents = ground arith in
      let size = ap length (sym eq) ∙ length-append own more in
      let fits : add der total (length own) ≡ ok (total + length own) = ground arith in
      rw (laws.encoded_len_exact x own e1) (
        rw fits (
          rw (value_len-fits (total + length own) xs more e3 (omega (arith, size)))
            (ap ok (omega (arith, size)))))

  to_der-parts :
      (xs : RawSequence) (head contents : Bytes)
      → der.header (length contents) ≡ ok head
      → encode_value der xs ≡ ok contents
      → length contents ≤ der.max_len
      → to_der der xs ≡ ok (head ++ contents)
  unfolding to_der
  to_der-parts xs head contents headed coded fits =
      let counted : value_len der 0 xs ≡ ok (length contents) =
        value_len-fits 0 xs contents coded (omega arith) ∙ ap ok (omega arith) in
      rw counted (rw headed (rw coded refl))

  finished :
      (loop : Option (Result RawSequence Error)) (xs : RawSequence)
      → loop_result der loop ≡ ok xs
      → loop ≡ some (ok xs)
  unfolding loop_result
  finished none xs h = absurd (ground arith)
  finished (some result) xs h = ap some h

  -- What `from_der` accepts is written back to the octet.
  pub to_der-from_der :
      (bytes : Bytes) (xs : RawSequence) → from_der der bytes ≡ ok xs → to_der der xs ≡ ok bytes
  unfolding from_der decode_value
  to_der-from_der bytes xs h =
      let ((contents, rest), h1, h2) = bind-ok (der.open_header bytes) _ xs h in
      let (components, h3, h4) = bind-ok (decode_value der contents) _ xs h2 in
      let (head, e1, e2, e3) = laws.open_header_heads bytes contents rest h1 in
      let same : components ≡ xs = ground arith in
      let over : rest ≡ [] = ground arith in
      let coded =
        decode_components-encodes (length contents) contents xs (finished _ xs (h3 ∙ ap ok same)) in
      let written = to_der-parts xs head contents e1 coded e3 in
      cc (written, e2, over, append-nil contents)

  pub any_from_der-encode :
      (a : Any) (bytes : Bytes) → der.encode a ≡ ok bytes → any_from_der der bytes ≡ ok a
  unfolding any_from_der
  any_from_der-encode a bytes h =
      let decoded = laws.encode_decodes a bytes [] h in rw (rw append-nil at decoded) refl

  pub encode-any_from_der :
      (a : Any) (bytes : Bytes) → any_from_der der bytes ≡ ok a → der.encode a ≡ ok bytes
  unfolding any_from_der
  encode-any_from_der a bytes h =
      let ((b, rest), h1, h2) = bind-ok (der.decode bytes) _ a h in
      let (own, e1, e2) = laws.decode_encodes bytes rest b h1 in
      let over : rest ≡ [] = ground arith in
      let same : b ≡ a = ground arith in
      let own_encoded = e1 in
      cc (ap (λ x. der.encode x) same, own_encoded, e2, over, append-nil own)
