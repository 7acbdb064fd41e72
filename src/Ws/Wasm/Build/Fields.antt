-- ===== src/Ws/Wasm/Build/Fields.antt =====
-- ws/tightbeam-ws-wasm/src/build.rs: the numbered fields that close a SEQUENCE, as a record of
-- optional values, and what `set_tagged` does to them.
use tightbeam_ext.Prelude.{
  ℕ, suc, ◌≤◌, ◌≡◌, refl, inl, inr, Bool-cases, Option-cases, Bool, true, false, Option, none, some,
  [], ◌∷◌, ◌==◌, if◌then◌else◌, arith, Bytes,
}
use tightbeam_ext.Ws.Wasm.Build.Der.{Tag, sequence, context_specific, other, tag_eq, Any}
use tightbeam_ext.Ws.Wasm.Build.Sequence.{RawSequence}
use tightbeam_ext.Ws.Wasm.Build.Tagged.{tag_at_or_past, at_or_past, position, place_at, place}

-- The field of that number, for the reader of a SEQUENCE with EXPLICIT fields.
abbrev pub field_number : Tag → Option ℕ
field_number (context_specific constructed held) = some held
field_number _ = none

abbrev pub is_field : ℕ → Tag → Bool
is_field number (context_specific constructed held) = held == number
is_field number _ = false

unfoldable pub field : ℕ → RawSequence → Option Bytes
field number [] = none
field number (x ∷ xs) = if is_field number x.tag then some x.value else field number xs

-- The components that carry no number.
abbrev pub is_plain : Tag → Bool
is_plain (context_specific constructed held) = false
is_plain _ = true

unfoldable pub plain : RawSequence → RawSequence
plain [] = []
plain (x ∷ xs) = if is_plain x.tag then x ∷ plain xs else plain xs

-- Numbers from `least` on, ascending, each tag constructed.
abbrev pub FieldAt : ℕ → Tag → (ℕ → Type 0) → Type 0
FieldAt least (context_specific true held) rest = (least ≤ held) × rest (suc held)
FieldAt least _ rest = ⊥

abbrev pub Ascend : ℕ → RawSequence → Type 0
Ascend least [] = Unit
Ascend least (x ∷ xs) = FieldAt least x.tag (λ next. Ascend next xs)

-- Plain components, and then the numbered ones.
abbrev pub Closing : Tag → Type 0 → Type 0 → Type 0
Closing (context_specific constructed held) fields rest = fields
Closing _ fields rest = rest

abbrev pub Closes : RawSequence → Type 0
Closes [] = Unit
Closes (x ∷ xs) = Closing x.tag (Ascend 0 (x ∷ xs)) (Closes xs)

place_at-suc :
    (o : Option Any) (n : ℕ) (f x : Any) (xs : RawSequence)
    → place_at o (suc n) f (x ∷ xs) ≡ x ∷ place_at o n f xs
place_at-suc none n f x xs = refl
place_at-suc (some held) n f x xs = elim (Bool-cases (tag_eq held.tag f.tag)) [
  | inl e ↦ rw e refl
  | inr e ↦ rw e refl
]

-- `place` by recursion on the components.
pub place-cons :
    (number : ℕ) (f x : Any) (xs : RawSequence)
    → place number f (x ∷ xs) ≡ (
        if at_or_past number x
        then (if tag_eq x.tag f.tag then f ∷ xs else f ∷ x ∷ xs)
        else x ∷ place number f xs)
unfolding place
place-cons number f x xs = elim (Bool-cases (at_or_past number x)) [
  | inl e ↦ rw e refl
  | inr e ↦ elim (Option-cases (position (at_or_past number) xs)) [
    | inl p ↦ rw e (rw p (place_at-suc _ _ f x xs))
    | inr (n, p) ↦ rw e (rw p (place_at-suc _ n f x xs))
  ]
]

abbrev pub tagged : ℕ → Bytes → Any
tagged number value = record { tag = context_specific true number; value = value }

abbrev pub component : Tag → Bytes → Any
component tag value = record { tag = tag; value = value }

-- Induction on numbered fields.
pub Ascend-elim :
    (P : ℕ → RawSequence → Type 0)
    → ((least : ℕ) → P least [])
    → ((least held : ℕ) (v : Bytes) (xs : RawSequence)
        → least ≤ held
        → Ascend (suc held) xs
        → P (suc held) xs
        → P least (component (context_specific true held) v ∷ xs))
    → (least : ℕ) (xs : RawSequence) → Ascend least xs
    → P least xs
Ascend-elim P none_left more least [] a = none_left least
Ascend-elim P none_left more least (x ∷ xs) a =
    before x.tag x.value a (λ next. Ascend-elim P none_left more next xs)
  where
    before :
        (t : Tag) (v : Bytes)
        → FieldAt least t (λ next. Ascend next xs)
        → ((next : ℕ) → Ascend next xs → P next xs)
        → P least (component t v ∷ xs)
    before (context_specific true held) v a ih = more least held v xs a.0 a.1 (ih (suc held) a.1)
    before (context_specific false held) v a ih = absurd a
    before sequence v a ih = absurd a
    before (other o) v a ih = absurd a

-- Induction on plain components before numbered fields.
pub Closes-elim :
    (P : RawSequence → Type 0)
    → ((xs : RawSequence) → Ascend 0 xs → P xs)
    → ((x : Any) (xs : RawSequence) → is_plain x.tag ≡ true → P xs → P (x ∷ xs))
    → (xs : RawSequence) → Closes xs
    → P xs
Closes-elim P numbered more [] c = numbered [] tt
Closes-elim P numbered more (x ∷ xs) c = before x.tag x.value c (Closes-elim P numbered more xs)
  where
    before :
        (t : Tag) (v : Bytes)
        → Closes (component t v ∷ xs)
        → (Closes xs → P xs)
        → P (component t v ∷ xs)
    before (context_specific constructed held) v c ih = numbered _ c
    before sequence v c ih = more _ xs refl (ih c)
    before (other o) v c ih = more _ xs refl (ih c)

pub Ascend-Closes : (least : ℕ) (xs : RawSequence) → Ascend least xs → Closes xs
Ascend-Closes =
    Ascend-elim (λ least xs. Closes xs) (λ least. tt) (λ least held v xs h a ih. (omega arith, a))

pub plain-Closes :
    (x : Any) (xs : RawSequence) → is_plain x.tag ≡ true → Closes xs → Closes (x ∷ xs)
plain-Closes x xs h c = before x.tag x.value h
  where
    before : (t : Tag) (v : Bytes) → is_plain t ≡ true → Closes (component t v ∷ xs)
    before (context_specific constructed held) v h = cc
    before sequence v h = c
    before (other o) v h = c

pub is_plain-at_or_past :
    (number : ℕ) (t : Tag) → is_plain t ≡ true → tag_at_or_past number t ≡ false
is_plain-at_or_past number (context_specific constructed held) h = cc
is_plain-at_or_past number sequence h = refl
is_plain-at_or_past number (other o) h = refl

pub is_plain-is_field : (number : ℕ) (t : Tag) → is_plain t ≡ true → is_field number t ≡ false
is_plain-is_field number (context_specific constructed held) h = cc
is_plain-is_field number sequence h = refl
is_plain-is_field number (other o) h = refl

pub plain-Ascend : (least : ℕ) (xs : RawSequence) → Ascend least xs → plain xs ≡ []
unfolding plain
plain-Ascend =
    Ascend-elim (λ least xs. plain xs ≡ []) (λ least. refl) (λ least held v xs h a ih. ih)
