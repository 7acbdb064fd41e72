-- ===== src/Ws/Wasm/Mux/Reasons.antt =====
-- ws/tightbeam-ws-wasm/src/mux.rs: the reasons of a shutdown, between labels, codes and the
-- `GoAwayReason` of the tightbeam crate, whose codes are an interface. Numbers are those of the
-- value bridge.
use tightbeam_ext.Prelude.{
  ℕ, ◌-◌, ◌^◌, ◌≡◌, refl, ◌||◌, Option, none, some, List, [], ◌∷◌, leb, if◌then◌else◌, String,
  arith,
}
use tightbeam_ext.Prelude.Result.{Result, ok, err}
use tightbeam_ext.Asn.Js.{
  F64, integral, negative_zero, fractional, infinity, negative_infinity, nan, pos, negsuc,
  has_fraction, less_than, more_than, cast_unsigned,
}
use tightbeam_ext.Ws.Wasm.Mux.Statuses.{arm}

pub data GoAwayReason : Type 0 where
  shutdown protocol_error enhance_your_calm budget_exhausted settlement_failed : GoAwayReason
  application : ℕ → GoAwayReason

abbrev pub goaway_label : GoAwayReason → String
goaway_label shutdown = "Shutdown"
goaway_label protocol_error = "ProtocolError"
goaway_label enhance_your_calm = "EnhanceYourCalm"
goaway_label budget_exhausted = "BudgetExhausted"
goaway_label settlement_failed = "SettlementFailed"
goaway_label (application code) = "Application"

-- A JavaScript value, as far as `as_f64` and `as_string` tell.
pub data Value : Type 0 where
  number : F64 → Value
  text : String → Value
  other_value : Value

abbrev pub u32_max : ℕ
u32_max = 2 ^ 32 - 1

abbrev pub reason_arms : List (String × GoAwayReason)
reason_arms =
    ("Shutdown", shutdown)
    ∷ ("ProtocolError", protocol_error)
    ∷ ("EnhanceYourCalm", enhance_your_calm)
    ∷ ("BudgetExhausted", budget_exhausted)
    ∷ ("SettlementFailed", settlement_failed)
    ∷ []

-- The two messages.
pub data ReasonFault : Type 0 where
  not_a_code not_a_reason : ReasonFault

abbrev reason_or : Option GoAwayReason → Result GoAwayReason ReasonFault
reason_or none = err not_a_reason
reason_or (some reason) = ok reason

module _ (from_code : ℕ → GoAwayReason) where
  unfoldable pub reason_from_js : Value → Result GoAwayReason ReasonFault
  unfolding arm
  reason_from_js (number code) =
      if has_fraction code || (less_than code (pos 0) || more_than code (pos u32_max))
      then err not_a_code
      else ok (from_code (cast_unsigned u32_max code))
  reason_from_js (text label) = reason_or (arm label reason_arms)
  reason_from_js other_value = err not_a_reason

  -- The label of a reason other than an application's is read back, and that of an application's is
  -- refused, for it carries no code.
  pub reason_from_js-goaway_label :
      (reason : GoAwayReason)
      → reason_from_js (text (goaway_label reason))
        ≡ elim reason [ application code ↦ err not_a_reason | r ↦ ok r ]
  unfolding reason_from_js
  reason_from_js-goaway_label shutdown = refl
  reason_from_js-goaway_label protocol_error = refl
  reason_from_js-goaway_label enhance_your_calm = refl
  reason_from_js-goaway_label budget_exhausted = refl
  reason_from_js-goaway_label settlement_failed = refl
  reason_from_js-goaway_label (application code) = refl

  -- What a number stands for: an integer of 32 bits is a code, zero of either sign included.
  abbrev pub code_of : F64 → Option ℕ
  code_of (integral (pos n)) = if leb n u32_max then some n else none
  code_of negative_zero = some 0
  code_of other = none

  abbrev pub of_code : Option ℕ → Result GoAwayReason ReasonFault
  of_code none = err not_a_code
  of_code (some n) = ok (from_code n)

  -- A number is accepted exactly if it is an integer of 32 bits, zero of either sign included, and
  -- then it is the code of the reason.
  pub reason_from_js-number : (code : F64) → reason_from_js (number code) ≡ of_code (code_of code)
  unfolding reason_from_js
  reason_from_js-number (integral (pos n)) = ground arith
  reason_from_js-number (integral (negsuc n)) = ground arith
  reason_from_js-number negative_zero = ground arith
  reason_from_js-number (fractional floor bits) = ground arith
  reason_from_js-number infinity = ground arith
  reason_from_js-number negative_infinity = ground arith
  reason_from_js-number (nan bits) = ground arith
