-- ===== src/Ws/Wasm/Build/Tagged.antt =====
-- ws/tightbeam-ws-wasm/src/build.rs: `set_tagged`, which places a numbered field of a raw sequence.
use mathlib.Core.Option
use tightbeam_ext.Prelude.{
  ℕ, suc, Bool, true, false, Option, none, some, [], ◌∷◌, get_elem?, set, insert_at, length, leb,
  if◌then◌else◌, unwrap_or, Bytes,
}
use tightbeam_ext.Prelude.Result.{Result, ok, ◌>>=◌}
use tightbeam_ext.Ws.Wasm.Build.Der.{Tag, context_specific, tag_eq, Any, Der}
use tightbeam_ext.Ws.Wasm.Build.Sequence.{RawSequence}

abbrev pub tag_at_or_past : ℕ → Tag → Bool
tag_at_or_past number (context_specific constructed held) = leb number held
tag_at_or_past number _ = false

-- The closure `at_or_past`.
abbrev pub at_or_past : ℕ → Any → Bool
at_or_past number component = tag_at_or_past number component.tag

-- `Iterator::position`.
abbrev pub position : (Any → Bool) → RawSequence → Option ℕ
position test [] = none
position test (component ∷ components) =
    if test component then some 0 else Option.map suc (position test components)

-- What stands at the position is replaced if it is the same field, and pushed back otherwise.
abbrev pub place_at : Option Any → ℕ → Any → RawSequence → RawSequence
place_at (some held) position field components =
    if tag_eq held.tag field.tag
    then set components position field
    else insert_at position field components
place_at none position field components = insert_at position field components

unfoldable pub place : ℕ → Any → RawSequence → RawSequence
unfolding tag_eq
place number field components =
    let at = unwrap_or (length components) (position (at_or_past number) components) in
    place_at (get_elem? components at) at field components

module _ {Error : Type 0} (der : Der Error) where
  -- `value` is the encoding of the value, which comes first.
  unfoldable pub set_tagged : ℕ → Result Bytes Error → RawSequence → Result RawSequence Error
  set_tagged number value components = do
    contents ← value
    field ← der.new (context_specific true number) contents
    ok (place number field components)
