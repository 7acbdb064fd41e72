-- ===== src/Ws/Wasm/Approver.antt =====
-- ws/tightbeam-ws-wasm/src/approver.rs: the receipt approver, the budgets and the authorization that
-- JavaScript gives. Values are those of js-sys and wasm-bindgen: an interface.
pub mod Checks
use tightbeam_ext.Prelude.{
  ◌≡◌, ◌≤◌, ◌↔◌, refl, sym, ap, ◌∙◌, inl, inr, ℕ, ◌^◌, ◌-◌, min, Bool, true, false, Bool-cases,
  ◌||◌, Option, none, some, length, ltb, if◌then◌else◌, arith, Bytes, String,
}
use tightbeam_ext.Prelude.Result.{Result, ok, err, ◌>>=◌, ok_or, map_err, bind-ok, Result-cases}
use tightbeam_ext.Asn.Js.{F64, pos, has_fraction, less_than, cast_unsigned}
use tightbeam_ext.Ws.Wasm.Faults.{JsFault, validation}

-- What becomes of a value that is awaited, and of one that is no promise.
pub data Settlement (Value : Type 0) : Type 0 where
  plain pending : Settlement Value
  fulfilled rejected : Value → Settlement Value

-- How a call ends that gives no value: with the error that it returns, with an exception of
-- JavaScript that nothing catches, or not at all, since it waits for a promise for ever.
pub data Halt (Error Value : Type 0) : Type 0 where
  failed : Error → Halt Error Value
  uncaught : Value → Halt Error Value
  unsettled : Halt Error Value

-- `to_bytes` is `Uint8Array::new(..).to_vec()`, whose constructor throws for what it cannot make an
-- array of. `new_octets` is `OctetString::new`, `receipt_to_der` the codec of receipts, and `input`
-- the object that the callback is given.
pub record ApproverHost (Value Function Receipt : Type 0) : Type 0 where
  pub is_nullish : Value → Bool
  pub as_f64 : Value → Option F64
  pub as_function : Value → Option Function
  pub get : Value → String → Result Value Value
  pub to_bytes : Value → Result Bytes Value
  pub new_octets : Bytes → Option Bytes
  pub settle : Value → Settlement Value
  pub call : Function → Value → Result Value Value
  pub receipt_to_der : Receipt → Option Bytes
  pub ancillary : Receipt → Option Bytes
  pub input : Bytes → Option Bytes → Result Value Value

abbrev pub approver_refusal : ℕ
approver_refusal = 0x74627761

abbrev pub max_settlement_answer : ℕ
max_settlement_answer = 4096

pub record MuxBudgets : Type 0 where
  pub client_to_server : ℕ
  pub server_to_client : ℕ

abbrev pub u64_max : ℕ
u64_max = 2 ^ 64 - 1

module _ {Value Function Receipt : Type 0} (host : ApproverHost Value Function Receipt) where
  -- `map_err` to a refusal.
  abbrev pub or_refuse : {A E : Type 0} → Result A E → Result A (Halt ℕ Value)
  or_refuse outcome = map_err (λ e. failed approver_refusal) outcome

  abbrev pub resolved : Value → Settlement Value → Result Value (Halt ℕ Value)
  resolved invoked plain = ok invoked
  resolved invoked (fulfilled outcome) = ok outcome
  resolved invoked (rejected cause) = err (failed approver_refusal)
  resolved invoked pending = err unsettled

  abbrev pub bounded_answer : Bytes → Result (Option Bytes) (Halt ℕ Value)
  bounded_answer bytes =
      if ltb max_settlement_answer (length bytes)
      then err (failed approver_refusal)
      else (ok_or (failed approver_refusal) (host.new_octets bytes) >>= λ answer. ok (some answer))

  abbrev pub settlement_answer : Value → Result (Option Bytes) (Halt ℕ Value)
  settlement_answer outcome =
      if host.is_nullish outcome
      then ok none
      else (map_err uncaught (host.to_bytes outcome) >>= bounded_answer)

  -- `JsReceiptApprover::approve`; a refusal is its code.
  unfoldable pub approve : Function → Receipt → Result (Option Bytes) (Halt ℕ Value)
  approve callback receipt = do
    receipt_der ← ok_or (failed approver_refusal) (host.receipt_to_der receipt)
    input ← or_refuse (host.input receipt_der (host.ancillary receipt))
    invoked ← or_refuse (host.call callback input)
    outcome ← resolved invoked (host.settle invoked)
    settlement_answer outcome

module _ {Value Function Receipt Transport : Type 0} (host : ApproverHost Value Function Receipt)
    (fault_value : JsFault Transport → Value) where
  unfoldable pub approver_from_js : Value → Result (Option Function) Value
  approver_from_js value =
      if host.is_nullish value
      then ok none
      else (ok_or
            (fault_value (validation "InvalidApproveReceipt" "approveReceipt must be a function"))
            (host.as_function value)
          >>= λ function. ok (some function))

  -- One number of the pair.
  abbrev pub credits : Value → String → String → Result F64 Value
  credits value name message = do
    held ← host.get value name
    ok_or (fault_value (validation "InvalidBudgets" message)) (host.as_f64 held)

  abbrev pub checked_budgets : F64 → F64 → Result (Option MuxBudgets) Value
  checked_budgets client server =
      if has_fraction client
        || (has_fraction server || (less_than client (pos 0) || less_than server (pos 0)))
      then err
          (fault_value (validation "InvalidBudgets" "budget credits must be non-negative integers"))
      else ok (
          some (record {
            client_to_server = cast_unsigned u64_max client;
            server_to_client = cast_unsigned u64_max server;
          }))

  unfoldable pub budgets_from_js : Value → Result (Option MuxBudgets) Value
  budgets_from_js value = if host.is_nullish value then ok none else (do
    client ← credits value "clientToServer" "budgets.clientToServer must be a number"
    server ← credits value "serverToClient" "budgets.serverToClient must be a number"
    checked_budgets client server)

  abbrev pub token_from : Bytes → Result (Option Bytes) (Halt Value Value)
  token_from bytes =
      ok_or
        (failed (
          fault_value
            (validation "InvalidAuthorization" "authorization token is not a valid OCTET STRING")))
        (host.new_octets bytes)
      >>= λ token. ok (some token)

  unfoldable pub authorization_from_js : Value → Result (Option Bytes) (Halt Value Value)
  authorization_from_js value =
      if host.is_nullish value
      then ok none
      else (map_err uncaught (host.to_bytes value) >>= token_from)
