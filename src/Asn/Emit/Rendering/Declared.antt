-- ===== src/Asn/Emit/Rendering/Declared.antt =====
-- asn/tightbeam-asn/src/emit.rs: what the generated module has for each name.
use tightbeam_ext.Prelude.{
  ◌≡◌, refl, sym, ap, ◌∙◌, subst, true, List, [], ◌∷◌, ◌++◌, map, arith, Bool-cases, inl, inr,
  if◌then◌else◌, is_some, ascii,
}
use mathlib.Core.List.{append_assoc}
use tightbeam_ext.Prelude.IdSet.{contains}
use tightbeam_ext.Prelude.Keys.{nat_eq, list_eq, list_beq, list_beq_iff}
use tightbeam_ext.Asn.Emit.{Text, EmitOptions}
use tightbeam_ext.Asn.Emit.Rendering.{
  newline, tab, quote, end_quote, head, init_line, decode_lines, encode_lines, type_line,
  type_lines, as_codec, async_helpers, codec, codecs, emit_codecs_ts,
}

-- The part stands in the whole.
abbrev pub Within : Text → Text → Type 0
Within part whole = (front back : Text) × (whole ≡ front ++ (part ++ back))

Within-left : (part xs ys : Text) → Within part ys → Within part (xs ++ ys)
Within-left part xs ys (front, back, e) =
    (xs ++ front, back, ap (◌++◌ xs) e ∙ sym (append_assoc xs front (part ++ back)))

Within-right : (part xs ys : Text) → Within part xs → Within part (xs ++ ys)
Within-right part xs ys (front, back, e) = (
  front,
  back ++ ys,
  ap (λ (zs : Text). zs ++ ys) e
      ∙ append_assoc front (part ++ back) ys
      ∙ ap (◌++◌ front) (append_assoc part back ys),
)

Within-start : (part ys : Text) → Within part (part ++ ys)
Within-start part ys = ([], ys, refl)

-- A line for each of the names, one after another.
module _ (line : Text → Text) (all_lines : List Text → Text)
    (cons : (n : Text) (ns : List Text) → all_lines (n ∷ ns) ≡ line n ++ all_lines ns) where
  lines-Within :
      (names : List Text) (name : Text)
      → contains name names ≡ true
      → Within (line name) (all_lines names)
  unfolding contains
  lines-Within [] name c = absurd (ground arith)
  lines-Within (n ∷ names) name c =
      subst (Within (line name)) (sym (cons n names)) (elim (Bool-cases (list_beq n name)) [
        | inl same ↦
            subst (λ (m : Text). Within (line name) (line m ++ all_lines names))
              (sym ((list_beq_iff n name).0 same)) (Within-start (line name) (all_lines names))
        | inr other ↦
            Within-left (line name) (line n) (all_lines names)
              (lines-Within names name (ground arith))
      ])

type_lines-Within :
    (names : List Text) (name : Text)
    → contains name names ≡ true
    → Within (type_line name) (type_lines names)
unfolding type_lines
type_lines-Within = lines-Within type_line type_lines (λ n ns. refl)

codecs-Within :
    (names : List Text) (name : Text)
    → contains name names ≡ true
    → Within (codec name) (codecs names)
unfolding codecs
codecs-Within = lines-Within codec codecs (λ n ns. refl)

-- Lines, each of them ended.
abbrev pub text_of_lines : List Text → Text
text_of_lines [] = []
text_of_lines (line ∷ lines) = line ++ (newline ++ text_of_lines lines)

-- Items with a comma and the end of a line between each two of them.
abbrev followed_by : List Text → Text
followed_by [] = []
followed_by (item ∷ items) = ascii "," ++ (newline ++ (item ++ followed_by items))

abbrev pub listed : List Text → Text
listed [] = []
listed (item ∷ items) = item ++ followed_by items

abbrev pub decode_name : Text → Text
decode_name name = tab ++ (ascii "decode" ++ name)

abbrev pub encode_name : Text → Text
encode_name name = tab ++ (ascii "encode" ++ name)

-- The import of both functions of every name.
abbrev pub import_statement : List Text → Text → Text
import_statement names import =
    ascii "import {"
    ++ (newline
        ++ (listed (map decode_name names ++ map encode_name names)
            ++ (newline ++ (ascii "} from " ++ (quote ++ (import ++ end_quote))))))

abbrev pub type_declaration : Text → List Text
type_declaration name =
    (ascii "export type " ++ (name ++ (ascii " = Asn." ++ (name ++ ascii ";")))) ∷ []

abbrev pub codec_declaration : Text → List Text
codec_declaration name =
    (ascii "export const " ++ (name ++ (ascii ": MessageCodec<" ++ (name ++ ascii "> = asCodec("))))
    ∷ (encode_name name ++ ascii ",")
    ∷ (decode_name name ++ ascii ",")
    ∷ ascii ");"
    ∷ []

encode_lines-listed :
    (name : Text) (names : List Text)
    → encode_lines (name ∷ names) ≡ listed (map encode_name (name ∷ names)) ++ newline
unfolding encode_lines
encode_lines-listed name [] = simp append_assoc
encode_lines-listed name (next ∷ names) = rw (encode_lines-listed next names) (simp append_assoc)

-- A comma and the end of a line go before a list that is not empty.
followed_by-listed :
    (names : List Text) (item : Text) (items : List Text)
    → followed_by (map decode_name names ++ (item ∷ items))
      ≡ ascii "," ++ (newline ++ listed (map decode_name names ++ (item ∷ items)))
followed_by-listed [] item items = refl
followed_by-listed (name ∷ names) item items = refl

decode_lines-listed :
    (names : List Text) (item : Text) (items : List Text)
    → decode_lines names ++ listed (item ∷ items) ≡ listed (map decode_name names ++ (item ∷ items))
unfolding decode_lines
decode_lines-listed [] item items = refl
decode_lines-listed (name ∷ names) item items =
    rw (followed_by-listed names item items)
      (rw (← decode_lines-listed names item items) (simp append_assoc))

type_line-declaration : (name : Text) → type_line name ≡ text_of_lines (type_declaration name)
type_line-declaration name = simp append_assoc

codec-declaration : (name : Text) → newline ++ text_of_lines (codec_declaration name) ≡ codec name
codec-declaration name = simp append_assoc

rebracket : (xs ys zs ws : Text) → xs ++ ((ys ++ zs) ++ ws) ≡ (xs ++ ys) ++ (zs ++ ws)
rebracket xs ys zs ws = simp append_assoc

codec_declaration-Within :
    (names : List Text) (name : Text)
    → contains name names ≡ true
    → Within (text_of_lines (codec_declaration name)) (codecs names)
codec_declaration-Within names name c =
    let (front, back, e) = codecs-Within names name c in
    (
      front ++ newline,
      back,
      e
          ∙ ap (λ (m : Text). front ++ (m ++ back)) (sym (codec-declaration name))
          ∙ rebracket front newline (text_of_lines (codec_declaration name)) back,
    )

-- The text of an import, after its first line.
imports-listed :
    (name : Text) (names : List Text) (import rest : Text)
    → decode_lines (name ∷ names)
        ++ (encode_lines (name ∷ names)
            ++ (ascii "} from " ++ quote ++ import ++ end_quote ++ rest))
      ≡ (listed (map decode_name (name ∷ names) ++ map encode_name (name ∷ names))
          ++ (newline ++ (ascii "} from " ++ (quote ++ (import ++ end_quote)))))
        ++ rest
imports-listed name names import rest =
    let from = ascii "} from " ++ quote ++ import ++ end_quote ++ rest in
    ap (λ (e : Text). decode_lines (name ∷ names) ++ (e ++ from)) (encode_lines-listed name names)
    ∙ rebracket (decode_lines (name ∷ names)) (listed (map encode_name (name ∷ names))) newline from
    ∙ ap (λ (l : Text). l ++ (newline ++ from))
        (decode_lines-listed (name ∷ names) (encode_name name) (map encode_name names))
    ∙ closed (listed (map decode_name (name ∷ names) ++ map encode_name (name ∷ names)))
  where
    closed :
        (l : Text)
        → l ++ (newline ++ (ascii "} from " ++ quote ++ import ++ end_quote ++ rest))
          ≡ (l ++ (newline ++ (ascii "} from " ++ (quote ++ (import ++ end_quote))))) ++ rest
    closed l = simp append_assoc

import_statement-Within :
    (names : List Text) (name import types : Text)
    → contains name names ≡ true
    → Within (import_statement names import) (
        ascii "import {"
        ++ newline
        ++ (decode_lines names
            ++ (encode_lines names
                ++ (ascii "} from " ++ quote ++ import ++ end_quote ++ newline ++ types))))
unfolding contains
import_statement-Within [] name import types c = absurd (ground arith)
import_statement-Within (n ∷ names) name import types c = (
  [],
  newline ++ types,
  ap (λ (l : Text). ascii "import {" ++ newline ++ l)
      (ap (λ (l : Text). decode_lines (n ∷ names) ++ (encode_lines (n ∷ names) ++ l))
          (from_back import)
        ∙ imports-listed n names import (newline ++ types)),
)
  where
    from_back :
        (import : Text)
        → ascii "} from " ++ quote ++ import ++ end_quote ++ newline ++ types
          ≡ ascii "} from " ++ quote ++ import ++ end_quote ++ (newline ++ types)
    from_back import = simp append_assoc

-- For each of the names that it is given, the generated module declares the type and the codec of
-- that name's two functions, and an import statement in it names the decoder of every name and then
-- the encoder of every name, in the order given, from the module that the options say.
pub emit_codecs_ts-Within :
    (names : List Text) (opts : EmitOptions) (name : Text)
    → contains name names ≡ true
    → Within (import_statement names opts.import) (emit_codecs_ts names opts)
      × Within (text_of_lines (type_declaration name)) (emit_codecs_ts names opts)
      × Within (text_of_lines (codec_declaration name)) (emit_codecs_ts names opts)
unfolding emit_codecs_ts
emit_codecs_ts-Within names opts name c =
    let helpers : Text = if is_some opts.init_import then async_helpers else [] in
    let consts = helpers ++ codecs names in
    let bodies = newline ++ as_codec ++ consts in
    let types = type_lines names ++ bodies in
    let from = ascii "} from " ++ quote ++ opts.import ++ end_quote ++ newline in
    let encodes = encode_lines names ++ (from ++ types) in
    let decodes = ascii "import {" ++ newline ++ (decode_lines names ++ encodes) in
    let up : (part : Text) → Within part decodes → Within part (emit_codecs_ts names opts) =
      λ part w.
        Within-left part (head opts) (init_line opts.init_import ++ decodes)
          (Within-left part (init_line opts.init_import) decodes w) in
    let under : (part : Text) → Within part types → Within part decodes = λ part w.
      Within-left part (ascii "import {" ++ newline) (decode_lines names ++ encodes) (
        Within-left part (decode_lines names) encodes (
          Within-left part (encode_lines names) (from ++ types) (Within-left part from types w))) in
    (
      up (import_statement names opts.import)
          (import_statement-Within names name opts.import types c),
      up (text_of_lines (type_declaration name)) (
          under (text_of_lines (type_declaration name)) (
            Within-right (text_of_lines (type_declaration name)) (type_lines names) bodies (
              subst (λ (part : Text). Within part (type_lines names)) (type_line-declaration name)
                (type_lines-Within names name c)))),
      up (text_of_lines (codec_declaration name)) (
          under (text_of_lines (codec_declaration name)) (
            Within-left (text_of_lines (codec_declaration name)) (type_lines names) bodies (
              Within-left (text_of_lines (codec_declaration name)) (newline ++ as_codec) consts (
                Within-left (text_of_lines (codec_declaration name)) helpers (codecs names)
                  (codec_declaration-Within names name c))))),
    )
