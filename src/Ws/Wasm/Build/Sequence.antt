-- ===== src/Ws/Wasm/Build/Sequence.antt =====
-- ws/tightbeam-ws-wasm/src/build.rs: a SEQUENCE held as its raw components, and its codec.
use mathlib.Core.Option
use tightbeam_ext.Prelude.{
  ℕ, zero, suc, ◌+◌, Option, none, some, List, [], ◌∷◌, ◌++◌, length, is_nil, leb, if◌then◌else◌,
  Bytes,
}
use tightbeam_ext.Prelude.Result.{Result, ok, err, ◌>>=◌}
use tightbeam_ext.Ws.Wasm.Build.Der.{Any, Der}

abbrev pub RawSequence : Type 0
RawSequence = List Any

module _ {Error : Type 0} (der : Der Error) where
  -- The component in front of what the later rounds give.
  unfoldable pub put_first : Any → Result RawSequence Error → Result RawSequence Error
  put_first component later = do components ← later; ok (component ∷ components)

  -- The loop of `decode_value` to the end of the nested reader, with a TLV for each round. No
  -- result at all is a loop that is not over after so many rounds.
  unfoldable pub decode_components : ℕ → Bytes → Option (Result RawSequence Error)
  unfolding put_first
  decode_components fuel [] = some (ok [])
  decode_components zero (b ∷ bytes) = none
  decode_components (suc fuel) (b ∷ bytes) = elim (der.decode (b ∷ bytes)) [
    | err cause ↦ some (err cause)
    | ok (component, rest) ↦ Option.map (put_first component) (decode_components fuel rest)
  ]

  -- The result of a loop that is over. The other case does not arise with a round for each octet.
  unfoldable pub loop_result : Option (Result RawSequence Error) → Result RawSequence Error
  loop_result none = err der.incomplete
  loop_result (some result) = result

  unfoldable pub decode_value : Bytes → Result RawSequence Error
  unfolding decode_components loop_result
  decode_value contents = loop_result (decode_components (length contents) contents)

  -- `Decode::from_der`: the header, the contents, and nothing after them.
  unfoldable pub from_der : Bytes → Result RawSequence Error
  unfolding decode_value
  from_der bytes = do
    (contents, rest) ← der.open_header bytes
    components ← decode_value contents
    if is_nil rest then ok components else err der.trailing

  -- `Any::from_der`.
  unfoldable pub any_from_der : Bytes → Result Any Error
  any_from_der bytes = do
    (component, rest) ← der.decode bytes
    if is_nil rest then ok component else err der.trailing

  -- The checked sum of two lengths.
  abbrev pub add : ℕ → ℕ → Result ℕ Error
  add m n = if leb (m + n) der.max_len then ok (m + n) else err der.overflow

  -- `value_len`, from the total so far.
  unfoldable pub value_len : ℕ → RawSequence → Result ℕ Error
  value_len total [] = ok total
  value_len total (component ∷ components) = do
    n ← der.encoded_len component
    more ← add total n
    value_len more components

  unfoldable pub encode_value : RawSequence → Result Bytes Error
  encode_value [] = ok []
  encode_value (component ∷ components) = do
    own ← der.encode component
    more ← encode_value components
    ok (own ++ more)

  -- `Encode::to_der`: the header for the length, and the contents.
  unfoldable pub to_der : RawSequence → Result Bytes Error
  to_der components = do
    n ← value_len 0 components
    head ← der.header n
    contents ← encode_value components
    ok (head ++ contents)
