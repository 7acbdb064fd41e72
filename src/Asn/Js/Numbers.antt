-- ===== src/Asn/Js/Numbers.antt =====
-- js.rs: which JavaScript values read as an unsigned number.
use tightbeam_ext.Prelude.{
  ℕ, ◌≡◌, ◌≤◌, ◌↔◌, ◌⊎◌, refl, sym, ap, subst, some, arith, Option-cases, inl, inr,
}
use tightbeam_ext.Prelude.Result.{Result, ok, ◌>>=◌}
use tightbeam_ext.Asn.Js.{
  pos, negsuc, F64, integral, negative_zero, fractional, infinity, negative_infinity, nan, Failed,
  Js, f64_as_unsigned, as_number, as_unsigned, cast_unsigned,
}
use tightbeam_ext.Asn.Js.Scalars.{as_u8, as_u16, as_u32, u8_max, u16_max, u32_max}

-- The unsigned numbers that travel as JavaScript numbers.
pub data Width : Type 0 where
  eight sixteen thirty_two : Width

abbrev pub width_max : Width → ℕ
width_max eight = u8_max
width_max sixteen = u16_max
width_max thirty_two = u32_max

-- `as_u8`, `as_u16` and `as_u32`.
abbrev pub as_width : {V : Type 0} → Js V → Width → V → Result ℕ Failed
as_width js eight value = as_u8 js value
as_width js sixteen value = as_u16 js value
as_width js thirty_two value = as_u32 js value

-- The number that reads as `n`.
abbrev pub Reads : F64 → ℕ → Type 0
Reads number n = (number ≡ integral (pos n)) ⊎ ((n ≡ 0) × (number ≡ negative_zero))

-- The range check and the cast.
abbrev checked : ℕ → F64 → Result ℕ Failed
checked high number = f64_as_unsigned number high >>= λ c. ok (cast_unsigned high c)

checked_iff :
    (high : ℕ) (number : F64) (n : ℕ) → (checked high number ≡ ok n) ↔ ((n ≤ high) × Reads number n)
unfolding f64_as_unsigned
checked_iff high (integral (pos m)) n = (
  λ h.
      let fits : m ≤ high = ground arith in
      let same : m ≡ n = ground arith in (ground arith, inl (ap (λ k. integral (pos k)) same)),
  λ h. ground arith,
)
checked_iff high (integral (negsuc m)) n = (λ h. absurd (ground arith), λ h. ground arith)
checked_iff high negative_zero n = (
  λ h. let zero_is_n : 0 ≡ n = ground arith in (omega arith, inr (sym zero_is_n, refl)),
  λ h. ground arith,
)
checked_iff high (fractional floor bits) n = (λ h. absurd (ground arith), λ h. ground arith)
checked_iff high infinity n = (λ h. absurd (ground arith), λ h. ground arith)
checked_iff high negative_infinity n = (λ h. absurd (ground arith), λ h. ground arith)
checked_iff high (nan bits) n = (λ h. absurd (ground arith), λ h. ground arith)

module _ {V : Type 0} (js : Js V) where
  unsigned_iff :
      (high : ℕ) (value : V) (n : ℕ)
      → (as_unsigned js high value ≡ ok n)
        ↔ ((n ≤ high) × ((number : F64) × (js.as_f64 value ≡ some number) × Reads number n))
  unfolding as_unsigned as_number
  unsigned_iff high value n = elim (Option-cases (js.as_f64 value)) [
    | inl e ↦
        rw (e, as_unsigned, as_number) (λ h. absurd (ground arith), λ h. absurd (ground arith))
    | inr (number, e) ↦
        rw (e, as_unsigned, as_number)
          (
            λ h.
                let (fits, reads) = (checked_iff high number n).0 h in
                (fits, (number, refl, reads)),
            λ h.
                let (fits, found) = h in
                let (number', same, reads) = found in
                (checked_iff high number n).1
                  (fits, subst (λ (x : F64). Reads x n) (ground arith) reads),
          )
  ]

  -- A value reads as an unsigned number of a width exactly when the number is within the width and
  -- the value is the JavaScript number for it: no other number, no fraction and no other kind.
  pub as_width-ok_iff :
      (width : Width) (value : V) (n : ℕ)
      → (as_width js width value ≡ ok n) ↔ (
          (n ≤ width_max width)
          × ((number : F64) × (js.as_f64 value ≡ some number) × Reads number n))
  unfolding as_u8 as_u16 as_u32
  as_width-ok_iff eight value n = unsigned_iff u8_max value n
  as_width-ok_iff sixteen value n = unsigned_iff u16_max value n
  as_width-ok_iff thirty_two value n = unsigned_iff u32_max value n
