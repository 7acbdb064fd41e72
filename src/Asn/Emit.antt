-- ===== src/Asn/Emit.antt =====
-- asn/tightbeam-asn/src/emit.rs: the discovery of codec pairs in a `.d.ts` and the text of the
-- module that is generated for them. A text is the list of its characters' numbers.
pub mod Discovery
pub mod Rendering
use tightbeam_ext.Prelude.{
  ℕ, ◌+◌, Bool, true, false, ◌&&◌, ◌||◌, Option, none, some, List, [], ◌∷◌, ◌++◌, all, any, is_nil,
  is_some, leb, if◌then◌else◌, ◌==◌, ascii,
}
use tightbeam_ext.Prelude.Octets.{strip_prefix}
use tightbeam_ext.Prelude.Ordered.{insert, intersection}
use tightbeam_ext.Prelude.Result.{Result, ok, err, ◌>>=◌}

abbrev pub Text : Type 0
Text = List ℕ

pub data EmitError (IoError : Type 0) : Type 0 where
  io : IoError → EmitError IoError
  no_codec_pairs : EmitError IoError

pub record EmitOptions : Type 0 where
  pub import : Text
  pub init_import : Option Text
  pub message_codec_from : Text

abbrev pub default_options : EmitOptions
default_options = record {
  import = ascii "#apollyon-asn";
  init_import = none;
  message_codec_from = ascii "@wahidgroup/tightbeam-ws-client";
}

abbrev pub between : ℕ → ℕ → ℕ → Bool
between low high c = leb low c && leb c high

-- `char::is_whitespace`: the Unicode property White_Space.
abbrev pub is_whitespace : ℕ → Bool
is_whitespace c =
    between 9 13 c
    || any (◌==◌ c) (32 ∷ 133 ∷ 160 ∷ 5760 ∷ 8232 ∷ 8233 ∷ 8239 ∷ 8287 ∷ 12288 ∷ [])
    || between 8192 8202 c

unfoldable pub trim_start : Text → Text
trim_start [] = []
trim_start (c ∷ cs) = let rest = trim_start cs in if is_whitespace c then rest else c ∷ cs

-- `str::lines` takes the newline off a line, and a carriage return before it.
unfoldable pub drop_return : Text → Text
drop_return [] = []
drop_return (c ∷ []) = if c == 13 then [] else c ∷ []
drop_return (c ∷ d ∷ cs) = c ∷ drop_return (d ∷ cs)

unfoldable pub split_lines : Text → Text → List Text
unfolding drop_return
split_lines line [] = if is_nil line then [] else line ∷ []
split_lines line (c ∷ cs) = elim (c == 10) [
  | true ↦ drop_return line ∷ split_lines [] cs
  | false ↦ split_lines (line ++ c ∷ []) cs
]

abbrev pub lines : Text → List Text
lines text = split_lines [] text

-- `rest[..rest.find(c)?]`.
unfoldable pub before : ℕ → Text → Option Text
before c [] = none
before c (d ∷ ds) =
    let rest = before c ds in
    if d == c then some [] else elim rest [ none ↦ none | some name ↦ some (d ∷ name) ]

-- `is_ascii_alphanumeric() || '_'`.
abbrev pub is_word : ℕ → Bool
is_word c = between 48 57 c || between 65 90 c || between 97 122 c || (c == 95)

abbrev pub marker : Text → Text
marker pre = ascii "export function " ++ pre

-- The body of the loop of `collect_export_names`: the name that one line exports.
unfoldable pub export_name : Text → Text → Option Text
unfolding trim_start before
export_name pre line = elim (strip_prefix (marker pre) (trim_start line)) [
  | none ↦ none
  | some rest ↦ elim (before 40 rest) [
    | none ↦ none
    | some name ↦ if is_nil name then none else if all is_word name then some name else none
  ]
]

unfoldable pub collect : Text → List Text → List Text → List Text
unfolding export_name
collect pre names [] = names
collect pre names (line ∷ ls) = elim (export_name pre line) [
  | none ↦ collect pre names ls
  | some name ↦ collect pre (insert name names) ls
]

unfoldable pub collect_export_names : Text → Text → List Text
unfolding collect split_lines
collect_export_names dts pre = collect pre [] (lines dts)

unfoldable pub discover_pairs : {IoError : Type 0} → Text → Result (List Text) (EmitError IoError)
discover_pairs dts =
    let names =
      intersection (collect_export_names dts (ascii "encode"))
        (collect_export_names dts (ascii "decode")) in
    if is_nil names then err no_codec_pairs else ok names
