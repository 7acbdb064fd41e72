-- ===== src/Pubsub/Topic/Names.antt =====
-- Which octets `from_str` and `try_from` of topic.rs accept as topic names.
use tightbeam_ext.Prelude.{
  ◌≡◌, ◌≢◌, ◌↔◌, refl, inl, inr, true, false, List, [], ◌∷◌, ◌++◌, arith, ap, Bool-cases,
  Option-cases, Bytes,
}
use tightbeam_ext.Prelude.Octets.{
  strip_prefix, starts_with, strip_prefix-append, strip_prefix→append,
}
use tightbeam_ext.Prelude.Result.{ok, err, Result-cases}
use tightbeam_ext.Pubsub.Topic.{
  Topic, reserved_prefix, check_prefixes, from_str, try_from, sub_prefix, unsub_prefix, pub_prefix,
  end_prefix, reserved_prefixes,
}
use tightbeam_ext.Pubsub.Topic.Utf8.{from_utf8}

-- No octets follow the prefix to make up the name.
abbrev pub NotUnder : Bytes → Bytes → Type 0
NotUnder p name = (rest : Bytes) → name ≢ p ++ rest

abbrev pub NoneUnder : List Bytes → Bytes → Type 0
NoneUnder [] name = Unit {0}
NoneUnder (p ∷ ps) name = NotUnder p name × NoneUnder ps name

-- A name that a topic may have.
pub record IsName (name : Bytes) : Type 0 where
  pub nonempty : name ≢ []
  pub unreserved : NoneUnder reserved_prefixes name

starts_with_of : (p rest : Bytes) → starts_with p (p ++ rest) ≡ true
unfolding starts_with
starts_with_of p rest = rw (strip_prefix-append p rest)

pub not_under : (p name : Bytes) → starts_with p name ≡ false → NotUnder p name
not_under p name h rest e = cc (starts_with_of p rest, ap (starts_with p) e)

pub starts_with→append :
    (p name : Bytes) → starts_with p name ≡ true → (rest : Bytes) × (name ≡ p ++ rest)
unfolding starts_with
starts_with→append p name h = elim (Option-cases (strip_prefix p name)) [
  | inl e ↦ absurd (ground arith)
  | inr (rest, e) ↦ (rest, strip_prefix→append p name rest e)
]

not_under→starts_with : (p name : Bytes) → NotUnder p name → starts_with p name ≡ false
not_under→starts_with p name h = elim (Bool-cases (starts_with p name)) [
  | inl e ↦ let (rest, q) = starts_with→append p name e in absurd (h rest q)
  | inr e ↦ e
]

check_prefixes-ok :
    (ps : List Bytes) (name : Bytes) (t : Topic)
    → check_prefixes ps name ≡ ok t
    → NoneUnder ps name × (t.name ≡ name)
unfolding check_prefixes
check_prefixes-ok [] name t h = (tt, ground arith)
check_prefixes-ok (p ∷ ps) name t h = elim (Bool-cases (starts_with p name)) [
  | inl e ↦ absurd (ground arith)
  | inr e ↦
      let (under, named) = check_prefixes-ok ps name t (ground arith) in
      ((not_under p name e, under), named)
]

ok-check_prefixes :
    (ps : List Bytes) (name : Bytes)
    → NoneUnder ps name
    → check_prefixes ps name ≡ ok (record { name = name })
unfolding check_prefixes
ok-check_prefixes [] name h = refl
ok-check_prefixes (p ∷ ps) name h =
    rw (not_under→starts_with p name h.0) (ok-check_prefixes ps name h.1)

-- `from_str` accepts a name exactly when it is non-empty and nothing follows a reserved prefix to
-- make it up, and the topic that it returns has that name.
pub from_str-ok_iff :
    (name : Bytes) (t : Topic) → (from_str name ≡ ok t) ↔ (IsName name × (t.name ≡ name))
unfolding from_str
from_str-ok_iff [] t = (λ h. absurd (ground arith), λ h. absurd (h.0.nonempty refl))
from_str-ok_iff (c ∷ name) t = (
  λ h.
      let (under, named) = check_prefixes-ok reserved_prefixes (c ∷ name) t h in
      (record { nonempty = λ e. cc; unreserved = under }, named),
  λ h. rw (ok-check_prefixes reserved_prefixes (c ∷ name) h.0.unreserved) (ground arith),
)

-- What follows one of the four prefixes never parses: the refusal names the prefix.
pub from_str-reserved :
    (rest : Bytes)
    → (from_str (sub_prefix ++ rest) ≡ err (reserved_prefix sub_prefix))
      × (from_str (unsub_prefix ++ rest) ≡ err (reserved_prefix unsub_prefix))
      × (from_str (pub_prefix ++ rest) ≡ err (reserved_prefix pub_prefix))
      × (from_str (end_prefix ++ rest) ≡ err (reserved_prefix end_prefix))
unfolding from_str starts_with
from_str-reserved rest = (refl, refl, refl, refl)

from_utf8-ok : (octets text : Bytes) → from_utf8 octets ≡ ok text → text ≡ octets
unfolding from_utf8
from_utf8-ok octets text h = ground arith

-- Octets parse exactly when they are well-formed UTF-8 and a topic name as text, and the topic has
-- those octets for its name.
pub try_from-ok_iff :
    (octets : Bytes) (t : Topic)
    → (try_from octets ≡ ok t)
      ↔ ((from_utf8 octets ≡ ok octets) × IsName octets × (t.name ≡ octets))
unfolding try_from
try_from-ok_iff octets t = elim (Result-cases (from_utf8 octets)) [
  | inl (text, e) ↦
      let same = from_utf8-ok octets text e in
      (
        λ h.
            let parsed : from_str octets ≡ ok t = ground arith in
            let (named, e') = (from_str-ok_iff octets t).0 parsed in (ground arith, named, e'),
        λ h. let parsed = (from_str-ok_iff octets t).1 (h.1, h.2) in ground arith,
      )
  | inr (bad, e) ↦ (λ h. absurd (ground arith), λ h. absurd (ground arith))
]
