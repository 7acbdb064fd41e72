-- ===== src/Asn/Emit/Rendering.antt =====
-- asn/tightbeam-asn/src/emit.rs: the text of the generated module, and the run over files. The
-- filesystem is an interface.
pub mod Declared
pub mod Runs
use tightbeam_ext.Prelude.{
  Bool, true, false, Option, none, some, List, [], ◌∷◌, ◌++◌, is_some, if◌then◌else◌, ascii,
}
use tightbeam_ext.Prelude.Result.{Result, ok, err}
use tightbeam_ext.Asn.Emit.{Text, EmitError, EmitOptions, io, no_codec_pairs, discover_pairs}

abbrev pub newline : Text
newline = 10 ∷ []

abbrev pub tab : Text
tab = 9 ∷ []

abbrev pub quote : Text
quote = 34 ∷ []

-- What ends an import.
abbrev pub end_quote : Text
end_quote = quote ++ ascii ";" ++ newline

unfoldable pub head : EmitOptions → Text
head opts =
    ascii "// Generated by tightbeam-asn-emit. DO NOT EDIT."
    ++ newline
    ++ ascii "// Regenerate after wasm-pack via the consumer asn-wasm script."
    ++ newline
    ++ newline
    ++ ascii "import type { MessageCodec } from "
    ++ quote
    ++ opts.message_codec_from
    ++ end_quote
    ++ newline
    ++ ascii "import type * as Asn from "
    ++ quote
    ++ opts.import
    ++ end_quote

unfoldable pub init_line : Option Text → Text
init_line none = []
init_line (some init_import) =
    ascii "import { ensureAsnInit } from " ++ quote ++ init_import ++ end_quote

abbrev pub decode_line : Text → Text
decode_line name = tab ++ ascii "decode" ++ name ++ ascii "," ++ newline

unfoldable pub decode_lines : List Text → Text
decode_lines [] = []
decode_lines (name ∷ names) = decode_line name ++ decode_lines names

-- The last name has no comma.
unfoldable pub encode_lines : List Text → Text
encode_lines [] = []
encode_lines (name ∷ []) = tab ++ ascii "encode" ++ name ++ newline
encode_lines (name ∷ next ∷ names) =
    tab ++ ascii "encode" ++ name ++ ascii "," ++ newline ++ encode_lines (next ∷ names)

abbrev pub type_line : Text → Text
type_line name = ascii "export type " ++ name ++ ascii " = Asn." ++ name ++ ascii ";" ++ newline

unfoldable pub type_lines : List Text → Text
type_lines [] = []
type_lines (name ∷ names) = type_line name ++ type_lines names

abbrev pub as_codec : Text
as_codec =
    ascii "function asCodec<T>("
    ++ newline
    ++ tab
    ++ ascii "encode: (value: T) => Uint8Array,"
    ++ newline
    ++ tab
    ++ ascii "decode: (bodyDer: Uint8Array) => T,"
    ++ newline
    ++ ascii "): MessageCodec<T> {"
    ++ newline
    ++ tab
    ++ ascii "return { encode, decode };"
    ++ newline
    ++ ascii "}"
    ++ newline

abbrev pub async_helpers : Text
async_helpers =
    newline
    ++ ascii "export async function encodeAsn<T>("
    ++ newline
    ++ tab
    ++ ascii "codec: MessageCodec<T>,"
    ++ newline
    ++ tab
    ++ ascii "value: T,"
    ++ newline
    ++ ascii "): Promise<Uint8Array> {"
    ++ newline
    ++ tab
    ++ ascii "await ensureAsnInit();"
    ++ newline
    ++ tab
    ++ ascii "return codec.encode(value);"
    ++ newline
    ++ ascii "}"
    ++ newline
    ++ newline
    ++ ascii "export async function decodeAsn<T>("
    ++ newline
    ++ tab
    ++ ascii "codec: MessageCodec<T>,"
    ++ newline
    ++ tab
    ++ ascii "bodyDer: Uint8Array,"
    ++ newline
    ++ ascii "): Promise<T> {"
    ++ newline
    ++ tab
    ++ ascii "await ensureAsnInit();"
    ++ newline
    ++ tab
    ++ ascii "return codec.decode(bodyDer);"
    ++ newline
    ++ ascii "}"
    ++ newline

abbrev pub codec : Text → Text
codec name =
    newline
    ++ ascii "export const "
    ++ name
    ++ ascii ": MessageCodec<"
    ++ name
    ++ ascii "> = asCodec("
    ++ newline
    ++ tab
    ++ ascii "encode"
    ++ name
    ++ ascii ","
    ++ newline
    ++ tab
    ++ ascii "decode"
    ++ name
    ++ ascii ","
    ++ newline
    ++ ascii ");"
    ++ newline

unfoldable pub codecs : List Text → Text
codecs [] = []
codecs (name ∷ names) = codec name ++ codecs names

unfoldable pub emit_codecs_ts : List Text → EmitOptions → Text
unfolding head init_line decode_lines encode_lines type_lines codecs
emit_codecs_ts names opts =
    head opts
    ++ (init_line opts.init_import
        ++ (ascii "import {"
            ++ newline
            ++ (decode_lines names
                ++ (encode_lines names
                    ++ (ascii "} from "
                        ++ quote
                        ++ opts.import
                        ++ end_quote
                        ++ newline
                        ++ (type_lines names
                            ++ (newline
                                ++ as_codec
                                ++ ((if is_some opts.init_import then async_helpers else [])
                                    ++ codecs names))))))))

-- The calls of the standard library on files, over the state of the filesystem.
pub record FileSystem (World Location IoError : Type 0) : Type 0 where
  pub read_to_string : World → Location → Result Text IoError
  pub parent : Location → Option Location
  pub is_empty : Location → Bool
  pub create_dir_all : World → Location → World × Result (Unit {0}) IoError
  pub write : World → Location → Text → World × Result (Unit {0}) IoError

module _ {World Location IoError : Type 0} (fs : FileSystem World Location IoError) where
  -- The directory of the output is created if the path names one.
  unfoldable pub prepare : World → Location → World × Result (Unit {0}) IoError
  prepare world out = elim (fs.parent out) [
    | none ↦ (world, ok tt)
    | some dir ↦ if fs.is_empty dir then (world, ok tt) else fs.create_dir_all world dir
  ]

  unfoldable pub emit_from_paths :
      World → Location → Location → EmitOptions → World × Result (List Text) (EmitError IoError)
  unfolding prepare
  emit_from_paths world from_dts out opts = elim (fs.read_to_string world from_dts) [
    | err cause ↦ (world, err (io cause))
    | ok dts ↦ elim (discover_pairs {IoError = IoError} dts) [
      | err cause ↦ (world, err cause)
      | ok names ↦
          let (world', prepared) = prepare world out in
          elim prepared [
            | err cause ↦ (world', err (io cause))
            | ok _ ↦
                let (world'', written) = fs.write world' out (emit_codecs_ts names opts) in
                elim written [ err cause ↦ (world'', err (io cause)) | ok _ ↦ (world'', ok names) ]
          ]
    ]
  ]
