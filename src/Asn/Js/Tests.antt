-- ===== src/Asn/Js/Tests.antt =====
-- Concrete inputs for the theorems about js.rs: a few kinds of values, and objects of one field.
use tightbeam_ext.Prelude.{
  ℕ, ◌≡◌, ◌≤◌, ◌↔◌, ◌^◌, refl, subst, ap, Bool, true, false, Option, none, some, arith, ltb,
  if◌then◌else◌, ascii,
}
use tightbeam_ext.Prelude.Keys.{nat_eq, list_eq, list_beq, list_beq_iff}
use tightbeam_ext.Prelude.Result.{ok}
use tightbeam_ext.Asn.Emit.{Text}
use tightbeam_ext.Asn.Js.{ℤ, pos, negsuc, F64, integral, Js}
use tightbeam_ext.Asn.Js.Scalars.{u16_max}
use tightbeam_ext.Asn.Js.Numbers.{eight, sixteen, as_width, Reads, as_width-ok_iff}
use tightbeam_ext.Asn.Js.Fields.{JsLaws, set_width, width_field, set_width-width_field}

data Value : Type 0 where
  undefined nothing : Value
  number : F64 → Value
  bigint : ℤ → Value
  object : Text → Value → Value

abbrev get_from : Value → Text → Option Value
get_from (object key value) name = if list_beq key name then some value else some undefined
get_from value name = none

abbrev number_of : Value → Option F64
number_of (number x) = some x
number_of value = none

abbrev bigint_of : Value → Option ℤ
bigint_of (bigint z) = some z
bigint_of value = none

abbrev is_big : Value → Bool
is_big (bigint z) = true
is_big value = false

abbrev is_undefined_value : Value → Bool
is_undefined_value undefined = true
is_undefined_value value = false

abbrev is_null_value : Value → Bool
is_null_value nothing = true
is_null_value value = false

abbrev u64_of : ℤ → Option ℕ
u64_of (pos n) = if ltb n (2 ^ 64) then some n else none
u64_of (negsuc n) = none

abbrev engine : Js Value
engine = record {
  get = get_from;
  set = λ value name field. (object name field, some true);
  is_undefined = is_undefined_value;
  is_null = is_null_value;
  is_bigint = is_big;
  as_f64 = number_of;
  to_bool = λ value. none;
  to_string = λ value. none;
  to_octets = λ value. none;
  to_bigint = bigint_of;
  u64_try_from = u64_of;
  i64_try_from = λ z. some z;
  of_f64 = number;
  of_bool = λ b. undefined;
  of_string = λ s. undefined;
  of_octets = λ b. undefined;
  of_bigint = bigint;
  null = nothing;
}

engine-JsLaws : JsLaws engine
engine-JsLaws = record {
  set_kept = λ object' after value name e.
      subst (λ (o : Value). get_from o name ≡ some value) (ap (λ x. x.0) e)
        (rw ((list_beq_iff name name).1 refl) refl);
  number_kept = λ x. refl;
  number_present = λ x. (refl, refl);
  bigint_kept = λ z. (refl, refl);
  bigint_present = λ z. (refl, refl);
  u64_kept = λ n below. ground arith;
}

as_width-ok_iff_example : (as_width engine sixteen (number (integral (pos 300))) ≡ ok 300) ↔ (
    (300 ≤ u16_max)
    × ((x : F64) × (engine.as_f64 (number (integral (pos 300))) ≡ some x) × Reads x 300))
as_width-ok_iff_example = as_width-ok_iff engine sixteen (number (integral (pos 300))) 300

set_width-width_field_example :
    (set_width engine eight undefined (ascii "n") 200
      ≡ (object (ascii "n") (number (integral (pos 200))), ok tt))
    × (width_field engine eight (object (ascii "n") (number (integral (pos 200)))) (ascii "n")
        ≡ ok 200)
set_width-width_field_example =
    set_width-width_field engine engine-JsLaws eight undefined
      (object (ascii "n") (number (integral (pos 200)))) (ascii "n") 200 (omega arith) refl
