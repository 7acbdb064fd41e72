-- ===== src/Asn/Js/Scalars.antt =====
-- js.rs: the functions on each kind of value, and on a field of an object.
use tightbeam_ext.Prelude.{ℕ, ◌-◌, ◌^◌, Bool, not, none, some, if◌then◌else◌, Bytes}
use tightbeam_ext.Prelude.Result.{Result, ok, err, ◌>>=◌}
use tightbeam_ext.Asn.Emit.{Text}
use tightbeam_ext.Asn.Js.{
  ℤ, pos, F64, integral, Failed, failed, Js, ok_or_failed, object_field, as_number, as_unsigned,
  as_signed,
}

abbrev pub u8_max : ℕ
u8_max = 2 ^ 8 - 1

abbrev pub u16_max : ℕ
u16_max = 2 ^ 16 - 1

abbrev pub u32_max : ℕ
u32_max = 2 ^ 32 - 1

abbrev pub i8_max : ℕ
i8_max = 2 ^ 7 - 1

abbrev pub i16_max : ℕ
i16_max = 2 ^ 15 - 1

abbrev pub i32_max : ℕ
i32_max = 2 ^ 31 - 1

module _ {V : Type 0} (js : Js V) where
  unfoldable pub as_u8 : V → Result ℕ Failed
  as_u8 value = as_unsigned js u8_max value

  unfoldable pub as_u16 : V → Result ℕ Failed
  as_u16 value = as_unsigned js u16_max value

  unfoldable pub as_u32 : V → Result ℕ Failed
  as_u32 value = as_unsigned js u32_max value

  unfoldable pub as_i8 : V → Result ℤ Failed
  as_i8 value = as_signed js i8_max value

  unfoldable pub as_i16 : V → Result ℤ Failed
  as_i16 value = as_signed js i16_max value

  unfoldable pub as_i32 : V → Result ℤ Failed
  as_i32 value = as_signed js i32_max value

  unfoldable pub as_string : V → Result Text Failed
  as_string value = ok_or_failed (js.to_string value)

  unfoldable pub as_octets : V → Result Bytes Failed
  as_octets value = ok_or_failed (js.to_octets value)

  unfoldable pub as_bool : V → Result Bool Failed
  as_bool value = ok_or_failed (js.to_bool value)

  unfoldable pub as_null : V → Result (Unit {0}) Failed
  as_null value = if js.is_null value then ok tt else err failed

  unfoldable pub as_bigint : V → Result ℤ Failed
  as_bigint value =
      if not (js.is_bigint value) then err failed else ok_or_failed (js.to_bigint value)

  unfoldable pub as_u64 : V → Result ℕ Failed
  as_u64 value = do bigint ← as_bigint value; ok_or_failed (js.u64_try_from bigint)

  unfoldable pub as_i64 : V → Result ℤ Failed
  as_i64 value = do bigint ← as_bigint value; ok_or_failed (js.i64_try_from bigint)

  unfoldable pub u8_field : V → Text → Result ℕ Failed
  u8_field value name = do field ← object_field js value name; as_u8 field

  unfoldable pub u16_field : V → Text → Result ℕ Failed
  u16_field value name = do field ← object_field js value name; as_u16 field

  unfoldable pub u32_field : V → Text → Result ℕ Failed
  u32_field value name = do field ← object_field js value name; as_u32 field

  unfoldable pub i8_field : V → Text → Result ℤ Failed
  i8_field value name = do field ← object_field js value name; as_i8 field

  unfoldable pub i16_field : V → Text → Result ℤ Failed
  i16_field value name = do field ← object_field js value name; as_i16 field

  unfoldable pub i32_field : V → Text → Result ℤ Failed
  i32_field value name = do field ← object_field js value name; as_i32 field

  unfoldable pub u64_field : V → Text → Result ℕ Failed
  u64_field value name = do field ← object_field js value name; as_u64 field

  unfoldable pub i64_field : V → Text → Result ℤ Failed
  i64_field value name = do field ← object_field js value name; as_i64 field

  unfoldable pub bool_field : V → Text → Result Bool Failed
  bool_field value name = do field ← object_field js value name; as_bool field

  unfoldable pub string_field : V → Text → Result Text Failed
  string_field value name = do field ← object_field js value name; as_string field

  unfoldable pub octet_field : V → Text → Result Bytes Failed
  octet_field value name = do field ← object_field js value name; as_octets field

  unfoldable pub number_field : V → Text → Result F64 Failed
  number_field value name = do field ← object_field js value name; as_number js field

  -- A field that is null is no error here.
  unfoldable pub null_field : V → Text → Result (Unit {0}) Failed
  null_field value name = do field ← ok_or_failed (js.get value name); as_null field

  abbrev pub from_u8 : ℕ → V
  from_u8 value = js.of_f64 (integral (pos value))

  abbrev pub from_u16 : ℕ → V
  from_u16 value = js.of_f64 (integral (pos value))

  abbrev pub from_u32 : ℕ → V
  from_u32 value = js.of_f64 (integral (pos value))

  abbrev pub from_i8 : ℤ → V
  from_i8 value = js.of_f64 (integral value)

  abbrev pub from_i16 : ℤ → V
  from_i16 value = js.of_f64 (integral value)

  abbrev pub from_i32 : ℤ → V
  from_i32 value = js.of_f64 (integral value)

  abbrev pub from_u64 : ℕ → V
  from_u64 value = js.of_bigint (pos value)

  abbrev pub from_i64 : ℤ → V
  from_i64 value = js.of_bigint value

  abbrev pub from_bool : Bool → V
  from_bool value = js.of_bool value

  abbrev pub from_null : V
  from_null = js.null

  abbrev pub from_octets : Bytes → V
  from_octets value = js.of_octets value

  -- The answer of `Reflect::set` is not read: only a throw fails.
  unfoldable pub set_object : V → Text → V → V × Result (Unit {0}) Failed
  set_object object name value = elim (js.set object name value).1 [
    | none ↦ ((js.set object name value).0, err failed)
    | some set ↦ ((js.set object name value).0, ok tt)
  ]

  unfoldable pub set_number : V → Text → F64 → V × Result (Unit {0}) Failed
  unfolding set_object
  set_number object name value = set_object object name (js.of_f64 value)

  unfoldable pub set_u8 : V → Text → ℕ → V × Result (Unit {0}) Failed
  unfolding set_number
  set_u8 object name value = set_number object name (integral (pos value))

  unfoldable pub set_u16 : V → Text → ℕ → V × Result (Unit {0}) Failed
  unfolding set_number
  set_u16 object name value = set_number object name (integral (pos value))

  unfoldable pub set_u32 : V → Text → ℕ → V × Result (Unit {0}) Failed
  unfolding set_number
  set_u32 object name value = set_number object name (integral (pos value))

  unfoldable pub set_i8 : V → Text → ℤ → V × Result (Unit {0}) Failed
  unfolding set_number
  set_i8 object name value = set_number object name (integral value)

  unfoldable pub set_i16 : V → Text → ℤ → V × Result (Unit {0}) Failed
  unfolding set_number
  set_i16 object name value = set_number object name (integral value)

  unfoldable pub set_i32 : V → Text → ℤ → V × Result (Unit {0}) Failed
  unfolding set_number
  set_i32 object name value = set_number object name (integral value)

  unfoldable pub set_u64 : V → Text → ℕ → V × Result (Unit {0}) Failed
  unfolding set_object
  set_u64 object name value = set_object object name (from_u64 value)

  unfoldable pub set_i64 : V → Text → ℤ → V × Result (Unit {0}) Failed
  unfolding set_object
  set_i64 object name value = set_object object name (from_i64 value)

  unfoldable pub set_bool : V → Text → Bool → V × Result (Unit {0}) Failed
  unfolding set_object
  set_bool object name value = set_object object name (from_bool value)

  unfoldable pub set_string : V → Text → Text → V × Result (Unit {0}) Failed
  unfolding set_object
  set_string object name value = set_object object name (js.of_string value)

  unfoldable pub set_octets : V → Text → Bytes → V × Result (Unit {0}) Failed
  unfolding set_object
  set_octets object name value = set_object object name (from_octets value)

  unfoldable pub set_null : V → Text → V × Result (Unit {0}) Failed
  unfolding set_object
  set_null object name = set_object object name from_null
