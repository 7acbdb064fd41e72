-- ===== src/Pubsub/Topic.antt =====
-- pubsub/tightbeam-pubsub/src/topic.rs: topic names and their validation. A `str` is its UTF-8
-- octets.
pub mod Utf8
pub mod Names
use tightbeam_ext.Prelude.{
  ℕ, ◌≡◌, ◌↔◌, refl, Bool, true, false, List, [], ◌∷◌, ◌++◌, arith, if◌then◌else◌, is_nil, Bytes,
  ascii,
}
use tightbeam_ext.Prelude.Octets.{starts_with}
use tightbeam_ext.Prelude.Keys.{Eq, list_beq, list_beq_iff, nat_eq}
use tightbeam_ext.Prelude.Result.{Result, ok, err, ◌>>=◌, map_err}
use Utf8.{Utf8Error, from_utf8}

abbrev pub sub_prefix : Bytes
sub_prefix = ascii "sub/"

abbrev pub unsub_prefix : Bytes
unsub_prefix = ascii "unsub/"

abbrev pub pub_prefix : Bytes
pub_prefix = ascii "pub/"

abbrev pub end_prefix : Bytes
end_prefix = ascii "end/"

abbrev pub reserved_prefixes : List Bytes
reserved_prefixes = sub_prefix ∷ unsub_prefix ∷ pub_prefix ∷ end_prefix ∷ []

pub record Topic : Type 0 where
  pub name : Bytes

pub data TopicError : Type 0 where
  empty : TopicError
  reserved_prefix : Bytes → TopicError
  not_utf8 : Utf8Error → TopicError

-- The derived equality compares the names.
abbrev pub topic_beq : Topic → Topic → Bool
topic_beq s t = list_beq s.name t.name

pub topic_beq_iff : (s t : Topic) → (topic_beq s t ≡ true) ↔ (s ≡ t)
topic_beq_iff s t = ground (arith, list_beq_iff s.name t.name)

instance abbrev pub topic_eq : Eq Topic
topic_eq = record { beq = topic_beq; beq_iff = topic_beq_iff }

-- The loop of `from_str` over the prefixes that it has still to try.
unfoldable pub check_prefixes : List Bytes → Bytes → Result Topic TopicError
check_prefixes [] name = ok (record { name = name })
check_prefixes (p ∷ ps) name =
    if starts_with p name then err (reserved_prefix p) else check_prefixes ps name

-- `FromStr`, which `TryFrom<&str>` calls.
unfoldable pub from_str : Bytes → Result Topic TopicError
unfolding check_prefixes
from_str name = if is_nil name then err empty else check_prefixes reserved_prefixes name

-- `TryFrom<&[u8]>`.
unfoldable pub try_from : Bytes → Result Topic TopicError
try_from octets = do text ← map_err not_utf8 (from_utf8 octets); from_str text
