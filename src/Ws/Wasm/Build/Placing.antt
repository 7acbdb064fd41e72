-- ===== src/Ws/Wasm/Build/Placing.antt =====
-- ws/tightbeam-ws-wasm/src/build.rs: what `set_tagged` makes of the fields of a SEQUENCE.
use tightbeam_ext.Prelude.{
  ℕ, zero, suc, ◌≤◌, ◌<◌, ◌≡◌, ◌≢◌, refl, sym, ◌∙◌, true, some, [], ◌∷◌, get_elem?, ◌==◌,
  if◌then◌else◌, ltb, arith, Bytes,
}
use tightbeam_ext.Ws.Wasm.Build.Der.{context_specific, tag_eq, Any}
use tightbeam_ext.Ws.Wasm.Build.Sequence.{RawSequence}
use tightbeam_ext.Ws.Wasm.Build.Tagged.{place}
use tightbeam_ext.Ws.Wasm.Build.Fields.{
  field, is_plain, plain, Ascend, Closes, place-cons, tagged, component, Ascend-elim, Closes-elim,
  Ascend-Closes, plain-Closes, is_plain-at_or_past, is_plain-is_field, plain-Ascend,
}

module _ (number : ℕ) (value : Bytes) where
  -- The three ways that a field stands to the one that is placed.
  place-field :
      (held : ℕ) (v : Bytes) (xs : RawSequence)
      → place number (tagged number value) (component (context_specific true held) v ∷ xs) ≡ (
          if ltb held number
          then component (context_specific true held) v ∷ place number (tagged number value) xs
          else (if held == number
              then tagged number value ∷ xs
              else tagged number value ∷ component (context_specific true held) v ∷ xs))
  place-field held v xs =
      rw (place-cons number (tagged number value) _ xs) (unfold tag_eq in ground arith)

  place-plain :
      (x : Any) (xs : RawSequence)
      → is_plain x.tag ≡ true
      → place number (tagged number value) (x ∷ xs) ≡ x ∷ place number (tagged number value) xs
  place-plain x xs h =
      rw (place-cons number (tagged number value) x xs)
        (rw (is_plain-at_or_past number x.tag h) refl)

  place-Ascend :
      (least : ℕ) (xs : RawSequence)
      → Ascend least xs
      → least ≤ number
      → Ascend least (place number (tagged number value) xs)
  place-Ascend =
      Ascend-elim
        (λ least xs. least ≤ number → Ascend least (place number (tagged number value) xs))
        (λ least h. unfold place in ground arith)
        (λ least held v xs h a ih k. rw (place-field held v xs) (ground (arith, ih)))

  field-place-Ascend :
      (m least : ℕ) (xs : RawSequence)
      → Ascend least xs
      → field m (place number (tagged number value) xs)
        ≡ (if number == m then some value else field m xs)
  unfolding field
  field-place-Ascend m =
      Ascend-elim
        (λ least xs.
          field m (place number (tagged number value) xs)
          ≡ (if number == m then some value else field m xs))
        (λ least. unfold place in ground arith)
        (λ least held v xs h a ih. rw (place-field held v xs) (ground (arith, ih)))

  -- Placing keeps the form of the components, replaces or adds the one field, and leaves every
  -- other field and the plain components.
  pub record Placed (xs : RawSequence) : Type 0 where
    pub closes : Closes (place number (tagged number value) xs)
    pub plain_kept : plain (place number (tagged number value) xs) ≡ plain xs
    pub fields :
        (m : ℕ)
        → field m (place number (tagged number value) xs)
          ≡ (if number == m then some value else field m xs)

  Ascend-Placed : (xs : RawSequence) → Ascend 0 xs → Placed xs
  Ascend-Placed xs a =
      let kept = place-Ascend 0 xs a (omega arith) in
      record {
        closes = Ascend-Closes 0 _ kept;
        plain_kept = plain-Ascend 0 _ kept ∙ sym (plain-Ascend 0 xs a);
        fields = λ m. field-place-Ascend m 0 xs a;
      }

  plain-Placed : (x : Any) (xs : RawSequence) → is_plain x.tag ≡ true → Placed xs → Placed (x ∷ xs)
  unfolding plain field
  plain-Placed x xs h p = record {
    closes = rw (place-plain x xs h) (plain-Closes x _ h p.closes);
    plain_kept = rw (place-plain x xs h) (rw h (rw p.plain_kept refl));
    fields = λ m. rw (place-plain x xs h) (rw (is_plain-is_field m x.tag h) (p.fields m));
  }

  pub place-Placed : (xs : RawSequence) → Closes xs → Placed xs
  place-Placed = Closes-elim Placed Ascend-Placed plain-Placed

module _ (m n : ℕ) (f g : Bytes) (distinct : m ≢ n) where
  commute_Ascend :
      (least : ℕ) (xs : RawSequence)
      → Ascend least xs
      → place m (tagged m f) (place n (tagged n g) xs)
        ≡ place n (tagged n g) (place m (tagged m f) xs)
  commute_Ascend =
      Ascend-elim
        (λ least xs.
          place m (tagged m f) (place n (tagged n g) xs)
          ≡ place n (tagged n g) (place m (tagged m f) xs))
        (λ least. unfold place tag_eq in ground (arith, distinct))
        (λ least held v xs h a ih. rw (place-field m f held v xs) (
          rw (place-field n g held v xs) (
            ground (
              arith,
              distinct,
              ih,
              place-field m f held v (place n (tagged n g) xs),
              place-field n g held v (place m (tagged m f) xs),
              place-field m f held v xs,
              place-field n g held v xs,
              place-field m f n g xs,
              place-field n g m f xs,
              place-field m f n g (component (context_specific true held) v ∷ xs),
              place-field n g m f (component (context_specific true held) v ∷ xs),
            ))))

  -- Two fields of different numbers can be placed in either order.
  pub place_comm :
      (xs : RawSequence)
      → Closes xs
      → place m (tagged m f) (place n (tagged n g) xs)
        ≡ place n (tagged n g) (place m (tagged m f) xs)
  place_comm =
      Closes-elim
        (λ xs.
          place m (tagged m f) (place n (tagged n g) xs)
          ≡ place n (tagged n g) (place m (tagged m f) xs))
        (commute_Ascend 0)
        (λ x xs h ih. rw (place-plain n g x xs h) (
          rw (place-plain m f x xs h)
            (rw (place-plain m f x _ h) (rw (place-plain n g x _ h) (rw ih refl)))))

-- The components of a frame: version, metadata and message, and its numbered fields.
abbrev pub IsFrame : RawSequence → Type 0
IsFrame (version ∷ metadata ∷ message ∷ fields) =
    (is_plain version.tag ≡ true)
    × (is_plain metadata.tag ≡ true)
    × (is_plain message.tag ≡ true)
    × Ascend 0 fields
IsFrame _ = ⊥

pub IsFrame-Closes : (xs : RawSequence) → IsFrame xs → Closes xs
IsFrame-Closes [] f = absurd f
IsFrame-Closes (x ∷ []) f = absurd f
IsFrame-Closes (x ∷ y ∷ []) f = absurd f
IsFrame-Closes (x ∷ y ∷ z ∷ xs) f =
    plain-Closes x (y ∷ z ∷ xs) f.0
      (plain-Closes y (z ∷ xs) f.1 (plain-Closes z xs f.2 (Ascend-Closes 0 xs f.3)))

-- A numbered field leaves the three components before it in their places.
pub place-IsFrame :
    (number : ℕ) (value : Bytes) (xs : RawSequence) (i : ℕ)
    → IsFrame xs
    → i < 3
    → get_elem? (place number (tagged number value) xs) i ≡ get_elem? xs i
place-IsFrame number value [] i f h = absurd f
place-IsFrame number value (x ∷ []) i f h = absurd f
place-IsFrame number value (x ∷ y ∷ []) i f h = absurd f
place-IsFrame number value (x ∷ y ∷ z ∷ xs) i f h =
    rw (place-plain number value x _ f.0)
      (rw (place-plain number value y _ f.1) (rw (place-plain number value z xs f.2) (below i h)))
  where
    below :
        (i : ℕ)
        → i < 3
        → get_elem? (x ∷ y ∷ z ∷ place number (tagged number value) xs) i
          ≡ get_elem? (x ∷ y ∷ z ∷ xs) i
    below zero h = refl
    below (suc zero) h = refl
    below (suc (suc zero)) h = refl
    below (suc (suc (suc i))) h = absurd (omega arith)

pub IsFrame-message : (xs : RawSequence) → IsFrame xs → (x : Any) × (get_elem? xs 2 ≡ some x)
IsFrame-message [] f = absurd f
IsFrame-message (x ∷ []) f = absurd f
IsFrame-message (x ∷ y ∷ []) f = absurd f
IsFrame-message (x ∷ y ∷ z ∷ xs) f = (z, refl)
