-- ===== src/Pubsub/Topic/Utf8.antt =====
-- `core::str::from_utf8`, which topic.rs calls: the well-formed octet sequences of the Unicode
-- standard (table 3-7), and the position and length that `Utf8Error` reports.
use tightbeam_ext.Prelude.{
  ℕ, ◌+◌, ◌-◌, max, Bool, ◌&&◌, ◌||◌, Option, none, some, [], ◌∷◌, ltb, leb, ◌==◌, if◌then◌else◌,
  Bytes,
}
use tightbeam_ext.Prelude.Result.{Result, ok, err}

pub record Utf8Error : Type 0 where
  pub valid_up_to : ℕ
  pub error_len : Option ℕ

-- The character being read: where it starts, how many of its octets are read and missing, and the
-- range that the next one must lie in.
pub record Scan : Type 0 where
  pub start : ℕ
  pub seen : ℕ
  pub missing : ℕ
  pub low : ℕ
  pub high : ℕ

abbrev pub fresh : ℕ → Scan
fresh n = record { start = n; seen = 0; missing = 0; low = 0x80; high = 0xbf }

abbrev lead : Scan → ℕ → ℕ → ℕ → Option Scan
lead s missing low high = some (record s { seen = 1; missing = missing; low = low; high = high })

abbrev between : ℕ → ℕ → ℕ → Bool
between low high b = leb low b && leb b high

-- The first octet of a character.
unfoldable pub first_octet : Scan → ℕ → Option Scan
first_octet s b =
    if ltb b 0x80
    then some (fresh (s.start + 1))
    else if between 0xc2 0xdf b
    then lead s 1 0x80 0xbf
    else if b == 0xe0
    then lead s 2 0xa0 0xbf
    else if between 0xe1 0xec b || between 0xee 0xef b
    then lead s 2 0x80 0xbf
    else if b == 0xed
    then lead s 2 0x80 0x9f
    else if b == 0xf0
    then lead s 3 0x90 0xbf
    else if between 0xf1 0xf3 b
    then lead s 3 0x80 0xbf
    else if b == 0xf4
    then lead s 3 0x80 0x8f
    else none

-- An octet that continues a character.
unfoldable pub next_octet : Scan → ℕ → Option Scan
next_octet s b =
    if between s.low s.high b
    then (if s.missing == 1
        then some (fresh (s.start + s.seen + 1))
        else some
            (record s { seen = s.seen + 1; missing = s.missing - 1; low = 0x80; high = 0xbf }))
    else none

unfoldable pub feed : Scan → ℕ → Option Scan
unfolding first_octet next_octet
feed s b = if s.missing == 0 then first_octet s b else next_octet s b

unfoldable pub scan : Scan → Bytes → Option Utf8Error
scan s [] =
    if s.missing == 0 then none else some (record { valid_up_to = s.start; error_len = none })
scan s (b ∷ bs) = elim (feed s b) [
  | none ↦ some (record { valid_up_to = s.start; error_len = some (max 1 s.seen) })
  | some s' ↦ scan s' bs
]

unfoldable pub from_utf8 : Bytes → Result Bytes Utf8Error
unfolding feed scan
from_utf8 octets = elim (scan (fresh 0) octets) [ none ↦ ok octets | some e ↦ err e ]
