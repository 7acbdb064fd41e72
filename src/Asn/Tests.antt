-- ===== src/Asn/Tests.antt =====
-- Concrete inputs for the theorems about asn/tightbeam-asn/src/emit.rs.
use tightbeam_ext.Prelude.{◌≡◌, ◌↔◌, refl, true, List, [], ◌∷◌, ◌++◌, ascii}
use tightbeam_ext.Prelude.Octets.{strip_prefix}
use tightbeam_ext.Prelude.IdSet.{contains}
use tightbeam_ext.Prelude.Keys.{nat_eq, list_eq}
use tightbeam_ext.Prelude.Ordered
use tightbeam_ext.Prelude.Ordered.{IsAscending, intersection}
use tightbeam_ext.Asn.Emit.{
  Text, default_options, discover_pairs, collect_export_names, collect, export_name, before,
  trim_start, split_lines, drop_return,
}
use tightbeam_ext.Asn.Emit.Discovery.{Exports, discover_pairs-ok}
use tightbeam_ext.Asn.Emit.Rendering.{emit_codecs_ts}
use tightbeam_ext.Asn.Emit.Rendering.Declared.{
  Within, import_statement, text_of_lines, type_declaration, codec_declaration,
  emit_codecs_ts-Within,
}

-- One pair, and an encoder alone.
abbrev declarations : Text
declarations =
    ascii "export function encodeZ(v);"
    ++ 10 ∷ []
    ++ ascii " export function encodeA(v);"
    ++ 13 ∷ 10 ∷ []
    ++ ascii "export function decodeA(b);"

discover_pairs-ok_example :
    IsAscending (ascii "A" ∷ [])
    × ((name : Text)
        → (contains name (ascii "A" ∷ []) ≡ true) ↔ (
            Exports declarations (ascii "encode") name
            × Exports declarations (ascii "decode") name))
unfolding discover_pairs collect_export_names collect export_name before trim_start split_lines
    drop_return strip_prefix intersection Ordered.insert Ordered.lt contains
discover_pairs-ok_example = discover_pairs-ok {IoError = Unit} declarations (ascii "A" ∷ []) refl

abbrev two_names : List Text
two_names = ascii "A" ∷ ascii "B" ∷ []

emit_codecs_ts-Within_example :
    Within
      (import_statement two_names (ascii "#apollyon-asn"))
      (emit_codecs_ts two_names default_options)
    × Within
        (text_of_lines (type_declaration (ascii "B")))
        (emit_codecs_ts two_names default_options)
    × Within
        (text_of_lines (codec_declaration (ascii "B")))
        (emit_codecs_ts two_names default_options)
unfolding contains
emit_codecs_ts-Within_example = emit_codecs_ts-Within two_names default_options (ascii "B") refl
