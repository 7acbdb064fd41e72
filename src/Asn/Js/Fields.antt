-- ===== src/Asn/Js/Fields.antt =====
-- js.rs: fields that are set and read.
use tightbeam_ext.Prelude.{ℕ, ◌≡◌, ◌≤◌, ◌<◌, ◌^◌, refl, inl, true, false, some, ap}
use tightbeam_ext.Prelude.Result.{Result, ok}
use tightbeam_ext.Asn.Emit.{Text}
use tightbeam_ext.Asn.Js.{ℤ, pos, F64, integral, Failed, Js, object_field}
use tightbeam_ext.Asn.Js.Scalars.{
  u8_field, u16_field, u32_field, set_object, set_number, set_u8, set_u16, set_u32,
}
use tightbeam_ext.Asn.Js.Numbers.{
  Width, eight, sixteen, thirty_two, width_max, as_width, as_width-ok_iff,
}

-- What the JavaScript engine and its bindings document: a field that was set reads as what it was
-- set to, and a number or a big integer that was made is one and is neither null nor undefined.
pub record JsLaws {V : Type 0} (js : Js V) : Type 0 where
  pub set_kept :
      (object object' value : V) (name : Text)
      → js.set object name value ≡ (object', some true)
      → js.get object' name ≡ some value
  pub number_kept : (number : F64) → js.as_f64 (js.of_f64 number) ≡ some number
  pub number_present :
      (number : F64)
      → (js.is_undefined (js.of_f64 number) ≡ false) × (js.is_null (js.of_f64 number) ≡ false)
  pub bigint_kept :
      (z : ℤ) → (js.is_bigint (js.of_bigint z) ≡ true) × (js.to_bigint (js.of_bigint z) ≡ some z)
  pub bigint_present :
      (z : ℤ) → (js.is_undefined (js.of_bigint z) ≡ false) × (js.is_null (js.of_bigint z) ≡ false)
  pub u64_kept : (n : ℕ) → n < 2 ^ 64 → js.u64_try_from (pos n) ≡ some n

-- `set_u8`, `set_u16` and `set_u32`, and the fields that read them.
abbrev pub set_width : {V : Type 0} → Js V → Width → V → Text → ℕ → V × Result (Unit {0}) Failed
set_width js eight object name value = set_u8 js object name value
set_width js sixteen object name value = set_u16 js object name value
set_width js thirty_two object name value = set_u32 js object name value

abbrev pub width_field : {V : Type 0} → Js V → Width → V → Text → Result ℕ Failed
width_field js eight value name = u8_field js value name
width_field js sixteen value name = u16_field js value name
width_field js thirty_two value name = u32_field js value name

module _ {V : Type 0} (js : Js V) (laws : JsLaws js) where
  object_field_set :
      (object object' value : V) (name : Text)
      → js.set object name value ≡ (object', some true)
      → js.is_undefined value ≡ false
      → js.is_null value ≡ false
      → object_field js object' name ≡ ok value
  unfolding object_field
  object_field_set object object' value name s u n =
      rw (laws.set_kept object object' value name s, u, n, object_field) refl

  set_object_done :
      (object object' value : V) (name : Text)
      → js.set object name value ≡ (object', some true)
      → set_object js object name value ≡ (object', ok tt)
  unfolding set_object
  set_object_done object object' value name s =
      let answered : (js.set object name value).1 ≡ some true = ap (λ x. x.1) s in
      let left : (js.set object name value).0 ≡ object' = ap (λ x. x.0) s in
      rw (answered, left, set_object) refl

  number_read :
      (width : Width) (n : ℕ)
      → n ≤ width_max width
      → as_width js width (js.of_f64 (integral (pos n))) ≡ ok n
  number_read width n fits =
      (as_width-ok_iff js width (js.of_f64 (integral (pos n))) n).1
        (fits, (integral (pos n), laws.number_kept (integral (pos n)), inl refl))

  -- If the object takes the field, an unsigned number within its width that is set as a field of
  -- the object reads back as itself, for each of the three widths.
  pub set_width-width_field :
      (width : Width) (object object' : V) (name : Text) (n : ℕ)
      → n ≤ width_max width
      → js.set object name (js.of_f64 (integral (pos n))) ≡ (object', some true)
      → (set_width js width object name n ≡ (object', ok tt))
        × (width_field js width object' name ≡ ok n)
  unfolding set_u8 set_u16 set_u32 set_number u8_field u16_field u32_field
  set_width-width_field eight object object' name n fits s =
      let (present, not_null) = laws.number_present (integral (pos n)) in
      let there =
        object_field_set object object' (js.of_f64 (integral (pos n))) name s present not_null in
      (
        set_object_done object object' (js.of_f64 (integral (pos n))) name s,
        rw (there, u8_field) (number_read eight n fits),
      )
  set_width-width_field sixteen object object' name n fits s =
      let (present, not_null) = laws.number_present (integral (pos n)) in
      let there =
        object_field_set object object' (js.of_f64 (integral (pos n))) name s present not_null in
      (
        set_object_done object object' (js.of_f64 (integral (pos n))) name s,
        rw (there, u16_field) (number_read sixteen n fits),
      )
  set_width-width_field thirty_two object object' name n fits s =
      let (present, not_null) = laws.number_present (integral (pos n)) in
      let there =
        object_field_set object object' (js.of_f64 (integral (pos n))) name s present not_null in
      (
        set_object_done object object' (js.of_f64 (integral (pos n))) name s,
        rw (there, u32_field) (number_read thirty_two n fits),
      )
