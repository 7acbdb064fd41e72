-- ===== src/Ws/Wasm/Streaming/Keeping.antt =====
-- ws/tightbeam-ws-wasm/src/streaming.rs: the phases of a `MuxRequestStream`, and how a call and a
-- resumption move it from one to another.
use tightbeam_ext.Prelude.{
  ℕ, zero, suc, ◌-◌, ◌≤◌, ◌≡◌, refl, sym, ap, ◌∙◌, inl, inr, Option, none, some, true, List, [],
  ◌∷◌, ◌++◌, any, arith, Bytes,
}
use mathlib.Core.List.{append-nil}
use tightbeam_ext.Prelude.Result.{Result, ok, err, ◌>>=◌, Result-cases, map_err}
use tightbeam_ext.Ws.Wasm.Faults.{transport_to_js}
use tightbeam_ext.Ws.Wasm.Streaming.Slots.{MuxStreams, finish_push, response_der}
use tightbeam_ext.Ws.Wasm.Streaming.Request.{
  Call, push, close, close_with, Flight, resolving, Settled, rejected, push_outcome,
  response_outcome, suspend_with, start, resume, resolve_response, closed,
}
use tightbeam_ext.Ws.Wasm.Streaming.Session.{
  Record, chunk, last, Session, call, wake, record_of, land, step,
}
use tightbeam_ext.Ws.Wasm.Streaming.Sequential.{
  is_last, IsBody, IsOpen, IsBody-append, IsOpen-append, ended-append, sink_after, push_answer,
  ended_by, frame_answer, end_answer, answers_to, sink_after-append, answers_to-append,
}

-- No call is suspended and the body is open; a call is; a call has ended the body and awaits the
-- response; the body is ended and no call is suspended. Each has the records that were accepted
-- before the call.
pub data Phase (Response : Type 0) : Type 0 where
  idle : List Record → Phase Response
  busy : Call → List Record → Phase Response
  awaiting : Option Bytes → List Record → Phase Response
  over : Option Response → List Record → Phase Response

-- How many resumptions the suspended call may take.
abbrev pub rounds : {Response : Type 0} → Phase Response → ℕ
rounds (idle rs) = 0
rounds (busy method rs) = 2
rounds (awaiting end rs) = 1
rounds (over slot rs) = 0

abbrev pub records : {Response : Type 0} → Phase Response → List Record
records (idle rs) = rs
records (busy method rs) = rs ++ record_of method ∷ []
records (awaiting end rs) = rs ++ last end ∷ []
records (over slot rs) = rs

module _ {Sink Body Response Frame Transport : Type 0}
    (streams : MuxStreams Sink Body Response Frame Transport) (sink : Sink)
    (response : Response) where
  abbrev pub Valid : Phase Response → Type 0
  Valid (idle rs) = IsOpen rs
  Valid (busy method rs) = IsOpen rs
  Valid (awaiting end rs) = IsOpen rs × (ended_by streams (sink_after streams sink rs) end ≡ ok tt)
  Valid (over slot rs) = IsBody rs × (any is_last rs ≡ true)

  abbrev pub session :
      Option Sink
      → Option Response
      → List (Flight Sink Response)
      → List Record
      → List (Settled Transport)
      → Session Sink Response Transport
  session slot future flights accepted answers = record {
    inner = record { sink = slot; response = future };
    flights = flights;
    accepted = accepted;
    answers = answers;
  }

  abbrev pub answers_so_far : List Record → List (Settled Transport)
  answers_so_far rs = answers_to streams response sink rs

  abbrev pub state : Phase Response → Session Sink Response Transport
  state (idle rs) =
      session (some (sink_after streams sink rs)) (some response) [] rs (answers_so_far rs)
  state (busy method rs) =
      session none (some response) (suspend_with method (sink_after streams sink rs) ∷ [])
        (rs ++ record_of method ∷ []) (answers_so_far rs)
  state (awaiting end rs) =
      session none none (resolving response ∷ []) (rs ++ last end ∷ []) (answers_so_far rs)
  state (over slot rs) = session none slot [] rs (answers_so_far rs)

  -- Nothing is added to what was accepted.
  unchanged :
      (slot : Option Sink) (future : Option Response) (flights : List (Flight Sink Response))
      (rs : List Record) (answers : List (Settled Transport))
      → session slot future flights (rs ++ []) answers ≡ session slot future flights rs answers
  unchanged slot future flights rs answers =
      ap (λ (l : List Record). session slot future flights l answers) (append-nil rs)

  -- A call suspends with the sink if it finds it, and else leaves the handle.
  pub call-state :
      (method : Call) (p : Phase Response)
      → Valid p
      → (p' : Phase Response) × Valid p' × (step streams (call method) (state p) ≡ state p')
  unfolding step start
  call-state method (idle rs) v = (busy method rs, v, refl)
  call-state method (busy held rs) v = (
    busy held rs,
    v,
    unchanged none (some response) (suspend_with held (sink_after streams sink rs) ∷ [])
        (rs ++ record_of held ∷ []) (answers_so_far rs),
  )
  call-state method (awaiting end rs) v = (
    awaiting end rs,
    v,
    unchanged none none (resolving response ∷ []) (rs ++ last end ∷ []) (answers_so_far rs),
  )
  call-state method (over slot rs) v =
      (over slot rs, v, unchanged none slot [] rs (answers_so_far rs))

  -- What the methods answer is what the sequential answers are.
  push_outcome-answer :
      (outcome : Result (Unit {0}) Transport)
      → push_outcome (map_err transport_to_js outcome) ≡ push_answer streams outcome
  push_outcome-answer (ok done) = refl
  push_outcome-answer (err error) = refl

  response_outcome-answer :
      (outcome : Result (Option Frame) Transport)
      → response_outcome
          (map_err transport_to_js outcome >>= λ (frame : Option Frame). response_der streams frame)
        ≡ frame_answer streams outcome
  response_outcome-answer (err error) = refl
  response_outcome-answer (ok none) = refl
  response_outcome-answer (ok (some frame)) = elim (Result-cases (streams.frame_to_der frame)) [
    | inl (der, e) ↦ rw (e, frame_answer) refl
    | inr (fault, e) ↦ rw (e, frame_answer) refl
  ]

  -- One more answer, which is the sequential one.
  one_more :
      (slot slot' : Option Sink) (future : Option Response) (rs : List Record) (r : Record)
      (answer : Settled Transport)
      → IsOpen rs
      → slot ≡ slot'
      → answer ∷ [] ≡ answers_to streams response (sink_after streams sink rs) (r ∷ [])
      → session slot future [] (rs ++ r ∷ []) (answers_so_far rs ++ answer ∷ [])
        ≡ session slot' future [] (rs ++ r ∷ []) (answers_so_far (rs ++ r ∷ []))
  one_more slot slot' future rs r answer o same right =
      ap
        (λ (l : Option Sink). session l future [] (rs ++ r ∷ []) (answers_so_far rs ++ answer ∷ []))
        same
      ∙ ap
          (λ (l : List (Settled Transport)).
            session slot' future [] (rs ++ r ∷ []) (answers_so_far rs ++ l))
          right
      ∙ ap (session slot' future [] (rs ++ r ∷ []))
          (sym (answers_to-append streams response sink rs r o))

  -- Where a method that ends the body goes from its close.
  close-state :
      (end : Option Bytes) (rs : List Record) (outcome : Result (Unit {0}) Transport)
      → IsOpen rs
      → ended_by streams (sink_after streams sink rs) end ≡ outcome
      → (p' : Phase Response) × Valid p'
        × (land 0 (closed outcome (record { sink = none; response = some response })) (
              session none
                (some response)
                (resolving response ∷ [])
                (rs ++ last end ∷ [])
                (answers_so_far rs))
            ≡ state p')
        × (records p' ≡ rs ++ last end ∷ [])
        × (rounds p' ≤ 1)
  unfolding resolve_response
  close-state end rs (ok done) o e = (
    awaiting end rs,
    (o, e),
    ap (session none none (resolving response ∷ []) (rs ++ last end ∷ []))
        (append-nil (answers_so_far rs)),
    refl,
    omega arith,
  )
  close-state end rs (err error) o e = (
    over (some response) (rs ++ last end ∷ []),
    (IsBody-append rs (last end) o, ended-append rs end),
    one_more none none (some response) rs (last end) (rejected (transport_to_js error)) o refl
        (rw (e, end_answer) refl),
    refl,
    omega arith,
  )

  -- A resumption moves the suspended call on, if there is one.
  pub wake-state :
      (p : Phase Response)
      → Valid p
      → (p' : Phase Response) × Valid p'
        × (step streams (wake zero) (state p) ≡ state p')
        × (records p' ≡ records p)
        × (rounds p' ≤ rounds p - 1)
  unfolding step resume finish_push resolve_response
  wake-state (idle rs) v = (idle rs, v, refl, refl, omega arith)
  wake-state (over slot rs) v = (over slot rs, v, refl, refl, omega arith)
  wake-state (busy (push bytes) rs) v =
      let held = sink_after streams sink rs in
      (
        idle (rs ++ chunk bytes ∷ []),
        IsOpen-append rs bytes v,
        one_more (some (streams.push held bytes).0)
            (some (sink_after streams sink (rs ++ chunk bytes ∷ []))) (some response) rs
            (chunk bytes) (push_outcome (map_err transport_to_js (streams.push held bytes).1)) v
            (ap some (sym (sink_after-append streams sink rs bytes v)))
            (ap (λ (a : Settled Transport). a ∷ [])
              (push_outcome-answer (streams.push held bytes).1)),
        refl,
        omega arith,
      )
  wake-state (busy close rs) v =
      close-state none rs (streams.close (sink_after streams sink rs)) v refl
  wake-state (busy (close_with bytes) rs) v =
      close-state (some bytes) rs (streams.close_with (sink_after streams sink rs) bytes) v refl
  wake-state (awaiting end rs) (o, closes) = (
    over none (rs ++ last end ∷ []),
    (IsBody-append rs (last end) o, ended-append rs end),
    one_more none none none rs (last end)
        (response_outcome (
          map_err transport_to_js (streams.response response) >>= λ (frame : Option Frame).
          response_der streams frame))
        o refl
        (rw (closes, end_answer)
          (ap (λ (a : Settled Transport). a ∷ [])
            (response_outcome-answer (streams.response response)))),
    refl,
    omega arith,
  )

  -- No other call is suspended.
  pub wake_other-state :
      (i : ℕ) (p : Phase Response) → step streams (wake (suc i)) (state p) ≡ state p
  unfolding step
  wake_other-state i (idle rs) = refl
  wake_other-state i (busy method rs) = refl
  wake_other-state i (awaiting end rs) = refl
  wake_other-state i (over slot rs) = refl
