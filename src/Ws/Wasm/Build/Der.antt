-- ===== src/Ws/Wasm/Build/Der.antt =====
-- What ws/tightbeam-ws-wasm/src/build.rs calls of the der crate: tags, TLVs and headers. The crate
-- is an interface, and the laws are those of a canonical encoding.
use tightbeam_ext.Prelude.{ℕ, ◌≡◌, ◌<◌, ◌≤◌, Bool, true, false, ◌&&◌, ◌++◌, length, ◌==◌, Bytes}
use tightbeam_ext.Prelude.Result.{Result, ok}

-- `other` is any tag that the code does not name, by its identifier octet.
pub data Tag : Type 0 where
  sequence : Tag
  context_specific : Bool → ℕ → Tag
  other : ℕ → Tag

abbrev same_bool : Bool → Bool → Bool
same_bool true b = b
same_bool false true = false
same_bool false false = true

-- The derived equality of tags.
unfoldable pub tag_eq : Tag → Tag → Bool
tag_eq sequence sequence = true
tag_eq (context_specific c n) (context_specific d m) = same_bool c d && n == m
tag_eq (other n) (other m) = n == m
tag_eq _ _ = false

pub record Any : Type 0 where
  pub tag : Tag
  pub value : Bytes

-- `header` writes the tag and the length of a SEQUENCE and `open_header` reads them, giving the
-- contents and what follows them. `decode` takes one TLV off a reader. `new_octets` is
-- `OctetString::new`, and `octet_string` the encoding of what it made. `max_len` is the largest
-- `Length`, beyond which a sum of lengths fails with `overflow`.
pub record Der (Error : Type 0) : Type 0 where
  pub new : Tag → Bytes → Result Any Error
  pub encode : Any → Result Bytes Error
  pub encoded_len : Any → Result ℕ Error
  pub decode : Bytes → Result (Any × Bytes) Error
  pub header : ℕ → Result Bytes Error
  pub open_header : Bytes → Result (Bytes × Bytes) Error
  pub new_octets : Bytes → Result Bytes Error
  pub octet_string : Bytes → Result Bytes Error
  pub max_len : ℕ
  pub overflow : Error
  pub incomplete : Error
  pub trailing : Error

-- An encoding decodes to what it encodes, whatever follows it, and only the encoding of a value
-- decodes to it. An OCTET STRING has the identifier octet 4.
pub record DerLaws {Error : Type 0} (der : Der Error) : Type 0 where
  pub new_kept :
      (tag : Tag) (value : Bytes) (a : Any)
      → der.new tag value ≡ ok a
      → a ≡ record { tag = tag; value = value }
  pub encode_decodes :
      (a : Any) (bytes rest : Bytes)
      → der.encode a ≡ ok bytes
      → der.decode (bytes ++ rest) ≡ ok (a, rest)
  pub decode_encodes :
      (bytes rest : Bytes) (a : Any)
      → der.decode bytes ≡ ok (a, rest)
      → (own : Bytes) × (der.encode a ≡ ok own) × (bytes ≡ own ++ rest)
  pub encode_pos : (a : Any) (bytes : Bytes) → der.encode a ≡ ok bytes → 0 < length bytes
  pub encoded_len_exact :
      (a : Any) (bytes : Bytes) → der.encode a ≡ ok bytes → der.encoded_len a ≡ ok (length bytes)
  pub header_opens :
      (head contents rest : Bytes)
      → der.header (length contents) ≡ ok head
      → der.open_header (head ++ (contents ++ rest)) ≡ ok (contents, rest)
  pub open_header_heads :
      (bytes contents rest : Bytes)
      → der.open_header bytes ≡ ok (contents, rest)
      → (head : Bytes) × (der.header (length contents) ≡ ok head)
        × (bytes ≡ head ++ (contents ++ rest))
        × (length contents ≤ der.max_len)
  pub new_octets_kept : (b octets : Bytes) → der.new_octets b ≡ ok octets → octets ≡ b
  pub octet_string_encodes :
      (b bytes : Bytes)
      → der.octet_string b ≡ ok bytes
      → der.encode (record { tag = other 4; value = b }) ≡ ok bytes
