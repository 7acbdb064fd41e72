-- ===== src/Ws/Wasm/Approver/Checks.antt =====
-- ws/tightbeam-ws-wasm/src/approver.rs: what an approver can answer, and which budgets are accepted.
use tightbeam_ext.Prelude.{
  ◌≡◌, ◌≤◌, refl, ap, ℕ, ◌⊎◌, inl, inr, Bool-cases, min, Bool, true, false, Option, none, some,
  length, ltb, if◌then◌else◌, arith, Bytes,
}
use tightbeam_ext.Prelude.Result.{Result, ok, err, ◌>>=◌, ok_or, Result-cases}
use tightbeam_ext.Asn.Js.{F64, integral, negative_zero, pos}
use tightbeam_ext.Ws.Wasm.Faults.{JsFault, validation}
use tightbeam_ext.Ws.Wasm.Approver.{
  Settlement, plain, pending, fulfilled, rejected, Halt, failed, uncaught, unsettled,
  bounded_answer, ApproverHost, approver_refusal, max_settlement_answer, MuxBudgets, u64_max,
  or_refuse, resolved, settlement_answer, approve, checked_budgets, budgets_from_js,
}

module _ {Value Function Receipt : Type 0} (host : ApproverHost Value Function Receipt)
    (callback : Function) where
  -- The callback, called with some object, gives the value.
  abbrev pub Gives : Value → Type 0
  Gives invoked = (input : Value) × (host.call callback input ≡ ok invoked)

  -- The callback gives the value, or a promise of it.
  abbrev pub Yields : Value → Type 0
  Yields outcome =
      (invoked : Value) × Gives invoked
      × (((host.settle invoked ≡ plain) × (invoked ≡ outcome))
          ⊎ (host.settle invoked ≡ fulfilled outcome))

  -- An answer is within the bound and a refusal has the one code. An exception is that of making
  -- octets of what the callback yields, and waiting without end is for a promise that it gave.
  abbrev pub Settles : Result (Option Bytes) (Halt ℕ Value) → Type 0
  Settles (ok none) = Unit
  Settles (ok (some answer)) = length answer ≤ max_settlement_answer
  Settles (err (failed code)) = code ≡ approver_refusal
  Settles (err (uncaught cause)) =
      (outcome : Value) × Yields outcome
      × (host.is_nullish outcome ≡ false)
      × (host.to_bytes outcome ≡ err cause)
  Settles (err unsettled) = (promise : Value) × Gives promise × (host.settle promise ≡ pending)

module _ {Value Function Receipt : Type 0} (host : ApproverHost Value Function Receipt)
    (new_octets_kept : (bytes answer : Bytes)
      → host.new_octets bytes ≡ some answer
      → answer ≡ bytes) where
  bounded_answer-Settles :
      (callback : Function) (bytes : Bytes) → Settles host callback (bounded_answer host bytes)
  bounded_answer-Settles callback bytes =
      decided (ltb max_settlement_answer (length bytes)) (host.new_octets bytes) refl refl
    where
      decided :
          (long : Bool) (octets : Option Bytes)
          → ltb max_settlement_answer (length bytes) ≡ long
          → host.new_octets bytes ≡ octets
          → Settles host callback (
              if long
              then err (failed approver_refusal)
              else (ok_or (failed approver_refusal) octets >>= λ (answer : Bytes).
                  ok (some answer)))
      decided true octets l o = refl
      decided false none l o = refl
      decided false (some answer) l o = ground (arith, ap length (new_octets_kept bytes answer o))

  settlement_answer-Settles :
      (callback : Function) (outcome : Value)
      → Yields host callback outcome
      → Settles host callback (settlement_answer host outcome)
  settlement_answer-Settles callback outcome yields = elim (Bool-cases (host.is_nullish outcome)) [
    | inl nothing ↦ rw nothing tt
    | inr there ↦ rw there (elim (Result-cases (host.to_bytes outcome)) [
      | inl (bytes, e) ↦ rw e (bounded_answer-Settles callback bytes)
      | inr (cause, e) ↦ rw e (outcome, yields, there, e)
    ])
  ]

  -- Each step of `approve` before the last refuses with the code.
  refuse-Settles :
      {A E : Type 0} (callback : Function) (m : Result A E)
      (f : A → Result (Option Bytes) (Halt ℕ Value))
      → ((a : A) → m ≡ ok a → Settles host callback (f a))
      → Settles host callback (or_refuse host m >>= f)
  refuse-Settles callback (ok a) f h = h a refl
  refuse-Settles callback (err e) f h = refl

  or-Settles :
      {A : Type 0} (callback : Function) (m : Option A)
      (f : A → Result (Option Bytes) (Halt ℕ Value))
      → ((a : A) → Settles host callback (f a))
      → Settles host callback (ok_or (failed approver_refusal) m >>= f)
  or-Settles callback none f h = refl
  or-Settles callback (some a) f h = h a

  awaited-Settles :
      (callback : Function) (invoked : Value) (settlement : Settlement Value)
      → host.settle invoked ≡ settlement
      → Gives host callback invoked
      → Settles host callback (resolved host invoked settlement >>= settlement_answer host)
  awaited-Settles callback invoked plain s gives =
      settlement_answer-Settles callback invoked (invoked, gives, inl (s, refl))
  awaited-Settles callback invoked (fulfilled outcome) s gives =
      settlement_answer-Settles callback outcome (invoked, gives, inr s)
  awaited-Settles callback invoked (rejected cause) s gives = refl
  awaited-Settles callback invoked pending s gives = (invoked, gives, s)

  -- Where an octet string keeps its octets, the approver of JavaScript comes to nothing, to an answer
  -- of at most 4096 octets, or to the one refusal; or an exception leaves it that nothing catches,
  -- and then it is that of making octets of a value which the callback returned or promised and
  -- which is neither null nor undefined; or it never ends, and then the callback gave a promise that
  -- never settles.
  pub approve-Settles :
      (callback : Function) (receipt : Receipt)
      → Settles host callback (approve host callback receipt)
  unfolding approve
  approve-Settles callback receipt =
      or-Settles callback (host.receipt_to_der receipt) _ (λ receipt_der.
        refuse-Settles callback (host.input receipt_der (host.ancillary receipt)) _ (λ input made.
          refuse-Settles callback (host.call callback input) _ (λ invoked called.
            awaited-Settles callback invoked (host.settle invoked) refl (input, called))))

-- The credits that a number stands for: an integer that is not negative, as far as 64 bits go.
abbrev pub credits_of : F64 → Option ℕ
credits_of (integral (pos n)) = some (min n u64_max)
credits_of negative_zero = some 0
credits_of other = none

module _ {Value Function Receipt Transport : Type 0} (host : ApproverHost Value Function Receipt)
    (fault_value : JsFault Transport → Value) where
  abbrev pub paired : Option ℕ → Option ℕ → Result (Option MuxBudgets) Value
  paired (some client) (some server) =
      ok (some (record { client_to_server = client; server_to_client = server }))
  paired _ _ =
      err (fault_value (validation "InvalidBudgets" "budget credits must be non-negative integers"))

  checked_budgets-paired :
      (client server : F64)
      → checked_budgets host fault_value client server
        ≡ paired (credits_of client) (credits_of server)
  checked_budgets-paired client server = ground arith

  -- A value that is there, and holds two numbers, gives budgets exactly if both are integers that
  -- are not negative, zero of either sign included, and one that 64 bits do not hold is the largest
  -- that they do.
  pub budgets_from_js-paired :
      (value client_value server_value : Value) (client server : F64)
      → host.is_nullish value ≡ false
      → host.get value "clientToServer" ≡ ok client_value
      → host.as_f64 client_value ≡ some client
      → host.get value "serverToClient" ≡ ok server_value
      → host.as_f64 server_value ≡ some server
      → budgets_from_js host fault_value value ≡ paired (credits_of client) (credits_of server)
  unfolding budgets_from_js
  budgets_from_js-paired value client_value server_value client server there c1 c2 s1 s2 =
      rw there (rw c1 (rw c2 (rw s1 (rw s2 (checked_budgets-paired client server)))))
