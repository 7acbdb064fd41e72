-- ===== src/Ws/Wasm/Tests/Codec.antt =====
-- A small TLV codec for the examples: a number for the tag, a number for the length, the value.
use tightbeam_ext.Prelude.{
  ℕ, suc, ◌+◌, ◌-◌, ◌*◌, ◌/◌, ◌%◌, ◌≤◌, ◌≡◌, refl, sym, ap, ◌∙◌, true, false, Bool-cases, inl, inr,
  ◌&&◌, [], ◌∷◌, ◌++◌, length, length-append, take, drop, take-append_full, drop-append_full,
  take-append-drop, length-take, leb, ◌==◌, if◌then◌else◌, arith, Bytes,
}
use tightbeam_ext.Prelude.Result.{Result, ok, err, ok-injective}
use tightbeam_ext.Ws.Wasm.Errors.{TightBeamError, upstream}
use tightbeam_ext.Ws.Wasm.Build.Der.{Tag, sequence, context_specific, other, Any, Der, DerLaws}

abbrev pub Fault : Type 0
Fault = TightBeamError (Unit {0})

abbrev tag_code : Tag → ℕ
tag_code sequence = 0
tag_code (context_specific false n) = 3 * n + 1
tag_code (context_specific true n) = 3 * n + 2
tag_code (other n) = 3 * n + 3

abbrev tag_of : ℕ → Tag
tag_of t =
    if t == 0
    then sequence
    else (if t % 3 == 1
        then context_specific false (t / 3)
        else (if t % 3 == 2 then context_specific true (t / 3) else other (t / 3 - 1)))

tag_of-tag_code : (t : Tag) → tag_of (tag_code t) ≡ t
tag_of-tag_code sequence = refl
tag_of-tag_code (context_specific false n) = ground arith
tag_of-tag_code (context_specific true n) = ground arith
tag_of-tag_code (other n) = ground arith

tag_code-tag_of : (n : ℕ) → tag_code (tag_of n) ≡ n
tag_code-tag_of n = ground arith

abbrev encode : Any → Result Bytes Fault
encode a = ok (tag_code a.tag ∷ length a.value ∷ a.value)

abbrev decode : Bytes → Result (Any × Bytes) Fault
decode [] = err (upstream tt)
decode (t ∷ []) = err (upstream tt)
decode (t ∷ n ∷ bytes) =
    if leb n (length bytes)
    then ok (record { tag = tag_of t; value = take n bytes }, drop n bytes)
    else err (upstream tt)

abbrev limit : ℕ
limit = 255

abbrev header : ℕ → Result Bytes Fault
header n = if leb n limit then ok (0 ∷ n ∷ []) else err (upstream tt)

abbrev open_header : Bytes → Result (Bytes × Bytes) Fault
open_header [] = err (upstream tt)
open_header (t ∷ []) = err (upstream tt)
open_header (t ∷ n ∷ bytes) =
    if t == 0 && (leb n limit && leb n (length bytes))
    then ok (take n bytes, drop n bytes)
    else err (upstream tt)

abbrev pub der : Der Fault
der = record {
  new = λ tag value. ok (record { tag = tag; value = value });
  encode = encode;
  encoded_len = λ a. ok (suc (suc (length a.value)));
  decode = decode;
  header = header;
  open_header = open_header;
  new_octets = λ b. ok b;
  octet_string = λ b. encode (record { tag = other 4; value = b });
  max_len = limit;
  overflow = upstream tt;
  incomplete = upstream tt;
  trailing = upstream tt;
}

encode-decode :
    (a : Any) (rest : Bytes)
    → decode (tag_code a.tag ∷ length a.value ∷ (a.value ++ rest)) ≡ ok (a, rest)
encode-decode a rest =
    let fits : leb (length a.value) (length (a.value ++ rest)) ≡ true =
      ground (arith, length-append a.value rest) in
    rw fits (
      rw (tag_of-tag_code a.tag) (
        rw (take-append_full (length a.value) a.value rest refl)
          (rw (drop-append_full (length a.value) a.value rest refl) refl)))

decode-encode :
    (bytes rest : Bytes) (a : Any)
    → decode bytes ≡ ok (a, rest)
    → bytes ≡ tag_code a.tag ∷ length a.value ∷ (a.value ++ rest)
decode-encode [] rest a h = cc
decode-encode (t ∷ []) rest a h = cc
decode-encode (t ∷ n ∷ bytes) rest a h = elim (Bool-cases (leb n (length bytes))) [
  | inl e ↦
      let pair = ok-injective (rw e at h) in
      let own : t ∷ n ∷ bytes
          ≡ tag_code (tag_of t) ∷ length (take n bytes) ∷ (take n bytes ++ drop n bytes) =
        rw (tag_code-tag_of t)
          (rw (length-take n bytes (ground arith)) (rw (take-append-drop n bytes) refl)) in
      own ∙ ap (λ (p : Any × Bytes). tag_code p.0.tag ∷ length p.0.value ∷ (p.0.value ++ p.1)) pair
  | inr e ↦ cc (rw e at h)
]

open-header :
    (contents rest : Bytes) (head : Bytes)
    → header (length contents) ≡ ok head
    → open_header (head ++ (contents ++ rest)) ≡ ok (contents, rest)
open-header contents rest head h = elim (Bool-cases (leb (length contents) limit)) [
  | inl e ↦
      let same = ok-injective (rw e at h) in
      let fits : leb (length contents) (length (contents ++ rest)) ≡ true =
        ground (arith, length-append contents rest) in
      rw (← same) (
        rw (e, open_header)
          (rw fits (
            rw (take-append_full (length contents) contents rest refl)
              (rw (drop-append_full (length contents) contents rest refl) refl))))
  | inr e ↦ cc (rw e at h)
]

header-open :
    (bytes contents rest : Bytes)
    → open_header bytes ≡ ok (contents, rest)
    → (head : Bytes) × (header (length contents) ≡ ok head)
      × (bytes ≡ head ++ (contents ++ rest))
      × (length contents ≤ limit)
header-open [] contents rest h = cc
header-open (t ∷ []) contents rest h = cc
header-open (t ∷ n ∷ bytes) contents rest h =
    elim (Bool-cases (t == 0 && (leb n limit && leb n (length bytes)))) [
      | inl e ↦
          let pair = ok-injective (rw e at h) in
          let sizes : length contents ≡ n =
            sym (ap (λ (p : Bytes × Bytes). length p.0) pair)
            ∙ length-take n bytes (ground arith) in
          let small : n ≤ limit = ground arith in
          let whole : bytes ≡ contents ++ rest =
            sym (take-append-drop n bytes) ∙ ap (λ (p : Bytes × Bytes). p.0 ++ p.1) pair in
          (0 ∷ n ∷ [], rw sizes (ground arith), ground arith, omega (arith, sizes, small))
      | inr e ↦ cc (rw e at h)
    ]

pub laws : DerLaws der
laws = record {
  new_kept = λ tag value a h. sym (ok-injective h);
  encode_decodes = λ a bytes rest h.
      ap (λ (b : Bytes). decode (b ++ rest)) (sym (ok-injective h)) ∙ encode-decode a rest;
  decode_encodes = λ bytes rest a h. (_, refl, decode-encode bytes rest a h);
  encode_pos = λ a bytes h. omega (arith, ap length (ok-injective h));
  encoded_len_exact = λ a bytes h. ap (λ (b : Bytes). ok (length b)) (ok-injective h);
  header_opens = λ head contents rest h. open-header contents rest head h;
  open_header_heads = header-open;
  new_octets_kept = λ b octets h. sym (ok-injective h);
  octet_string_encodes = λ b bytes h. h;
}
