-- ===== src/Asn/Js.antt =====
-- asn/tightbeam-asn/src/js.rs: numbers, big integers, booleans, texts and octets between JavaScript
-- values and Rust. The values are those of js-sys and wasm-bindgen: an interface. A value that is
-- written to is passed on as its new state.
pub mod Scalars
pub mod Numbers
pub mod Fields
pub mod Tests
use tightbeam_ext.Prelude.{
  ℕ, zero, suc, ◌+◌, ◌-◌, ◌^◌, min, Bool, true, false, not, ◌||◌, Option, none, some, List, ltb,
  leb, if◌then◌else◌, Bytes,
}
use tightbeam_ext.Prelude.Result.{Result, ok, err, ◌>>=◌}
use tightbeam_ext.Asn.Emit.{Text}

pub data ℤ : Type 0 where
  pos negsuc : ℕ → ℤ

-- `f64`: the integers, the negative zero, a number strictly between an integer and the next (with
-- what else tells it from the others there), and those that are not finite.
pub data F64 : Type 0 where
  integral : ℤ → F64
  negative_zero : F64
  fractional : ℤ → ℕ → F64
  infinity negative_infinity : F64
  nan : ℕ → F64

abbrev pub below : ℤ → ℤ → Bool
below (pos a) (pos b) = ltb a b
below (pos a) (negsuc b) = false
below (negsuc a) (pos b) = true
below (negsuc a) (negsuc b) = ltb b a

abbrev pub is_finite : F64 → Bool
is_finite infinity = false
is_finite negative_infinity = false
is_finite (nan bits) = false
is_finite number = true

-- `number.fract() != 0.0`.
abbrev pub has_fraction : F64 → Bool
has_fraction (integral z) = false
has_fraction negative_zero = false
has_fraction number = true

-- `number < bound` at an integer.
abbrev pub less_than : F64 → ℤ → Bool
less_than (integral z) bound = below z bound
less_than negative_zero bound = below (pos 0) bound
less_than (fractional floor bits) bound = below floor bound
less_than infinity bound = false
less_than negative_infinity bound = true
less_than (nan bits) bound = false

-- `number > bound` at an integer.
abbrev pub more_than : F64 → ℤ → Bool
more_than (integral z) bound = below bound z
more_than negative_zero bound = below bound (pos 0)
more_than (fractional floor bits) bound = not (below floor bound)
more_than infinity bound = true
more_than negative_infinity bound = false
more_than (nan bits) bound = false

-- `number as u8` and so on: towards zero, and to the nearer end out of range.
abbrev pub cast_unsigned : ℕ → F64 → ℕ
cast_unsigned high (integral (pos n)) = min n high
cast_unsigned high (fractional (pos n) bits) = min n high
cast_unsigned high infinity = high
cast_unsigned high number = 0

-- `number as i8` and so on, from `negsuc low` to `pos low`.
abbrev pub cast_signed : ℕ → F64 → ℤ
cast_signed low (integral (pos n)) = pos (min n low)
cast_signed low (integral (negsuc n)) = negsuc (min n low)
cast_signed low (fractional (pos n) bits) = pos (min n low)
cast_signed low (fractional (negsuc zero) bits) = pos 0
cast_signed low (fractional (negsuc (suc n)) bits) = negsuc (min n low)
cast_signed low infinity = pos low
cast_signed low negative_infinity = negsuc low
cast_signed low number = pos 0

-- `ErrorKind::Failed`.
pub data Failed : Type 0 where
  failed : Failed

unfoldable pub f64_as_unsigned : F64 → ℕ → Result F64 Failed
f64_as_unsigned number high =
    if not (is_finite number)
    then err failed
    else if has_fraction number
    then err failed
    else if less_than number (pos 0) || more_than number (pos high)
    then err failed
    else ok number

unfoldable pub f64_as_signed : F64 → ℤ → ℤ → Result F64 Failed
f64_as_signed number low high =
    if not (is_finite number)
    then err failed
    else if has_fraction number
    then err failed
    else if less_than number low || more_than number high
    then err failed
    else ok number

-- `Reflect::get` and `Reflect::set` fail when the engine throws; `set` also says whether it set.
pub record Js (V : Type 0) : Type 0 where
  pub get : V → Text → Option V
  pub set : V → Text → V → V × Option Bool
  pub is_undefined : V → Bool
  pub is_null : V → Bool
  pub is_bigint : V → Bool
  pub as_f64 : V → Option F64
  pub to_bool : V → Option Bool
  pub to_string : V → Option Text
  pub to_octets : V → Option Bytes
  pub to_bigint : V → Option ℤ
  pub u64_try_from : ℤ → Option ℕ
  pub i64_try_from : ℤ → Option ℤ
  pub of_f64 : F64 → V
  pub of_bool : Bool → V
  pub of_string : Text → V
  pub of_octets : Bytes → V
  pub of_bigint : ℤ → V
  pub null : V

-- `ok_or_else(|| Error::from(ErrorKind::Failed))`.
abbrev pub ok_or_failed : {A : Type 0} → Option A → Result A Failed
ok_or_failed none = err failed
ok_or_failed (some a) = ok a

module _ {V : Type 0} (js : Js V) where
  unfoldable pub object_field : V → Text → Result V Failed
  object_field value name = do
    field ← ok_or_failed (js.get value name)
    if js.is_undefined field || js.is_null field then err failed else ok field

  unfoldable pub optional_field : V → Text → Result (Option V) Failed
  optional_field value name = do
    field ← ok_or_failed (js.get value name)
    if js.is_undefined field || js.is_null field then ok none else ok (some field)

  unfoldable pub as_number : V → Result F64 Failed
  as_number value = ok_or_failed (js.as_f64 value)

  -- The six of `as_u8`, `as_u16`, `as_u32` and `as_i8`, `as_i16`, `as_i32`, at their ranges.
  unfoldable pub as_unsigned : ℕ → V → Result ℕ Failed
  as_unsigned high value = do
    number ← as_number value
    checked ← f64_as_unsigned number high
    ok (cast_unsigned high checked)

  unfoldable pub as_signed : ℕ → V → Result ℤ Failed
  as_signed low value = do
    number ← as_number value
    checked ← f64_as_signed number (negsuc low) (pos low)
    ok (cast_signed low checked)
