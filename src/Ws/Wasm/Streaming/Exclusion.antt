-- ===== src/Ws/Wasm/Streaming/Exclusion.antt =====
-- ws/tightbeam-ws-wasm/src/streaming.rs: `MuxRequestStream` does one call at a time, whatever the
-- order of calls and resumptions.
use tightbeam_ext.Prelude.{
  zero, suc, ◌≤◌, ◌≡◌, refl, sym, ap, subst, ◌∙◌, none, some, true, List, [], ◌∷◌, ◌++◌, any,
  length, arith,
}
use mathlib.Core.List.{append-nil}
use tightbeam_ext.Ws.Wasm.Streaming.Slots.{MuxStreams, stream_closed}
use tightbeam_ext.Ws.Wasm.Streaming.Request.{Call, Settled, settled, rejected, start}
use tightbeam_ext.Ws.Wasm.Streaming.Session.{
  Record, chunk, last, Session, Event, call, wake, record_of, step, run, opened,
}
use tightbeam_ext.Ws.Wasm.Streaming.Sequential.{
  is_last, IsBody, IsOpen, IsOpen-IsBody, IsBody-append, sink_after, answers_to, answers_to-append,
}
use tightbeam_ext.Ws.Wasm.Streaming.Keeping.{
  Phase, idle, busy, awaiting, over, rounds, records, Valid, state, call-state, wake-state,
  wake_other-state,
}

module _ {Sink Body Response Frame Transport : Type 0}
    (streams : MuxStreams Sink Body Response Frame Transport) (sink : Sink)
    (response : Response) where
  -- The session is in a phase.
  abbrev InPhase : Session Sink Response Transport → Type 0
  InPhase s =
      (p : Phase Response) × Valid streams sink response p × (s ≡ state streams sink response p)

  -- `free`: the sink in its slot is the one that the accepted records leave, and then the response
  -- is there and no call is suspended. `alone`: at most one call is suspended. `answered`: the
  -- answers so far are those of sequential calls, all but the one of the suspended call. `finishes`:
  -- that one comes when the call is resumed to its end. `ended`: a handle without its sink and
  -- without a suspended call has the end of the body behind it. `refused`: what a call meets then.
  pub record Kept (s : Session Sink Response Transport) : Type 0 where
    pub body : IsBody s.accepted
    pub free :
        (held : Sink)
        → s.inner.sink ≡ some held
        → (held ≡ sink_after streams sink s.accepted)
          × (s.inner.response ≡ some response)
          × (s.flights ≡ [])
    pub alone : length s.flights ≤ 1
    pub answered :
        (missing : List (Settled Transport)) × (s.answers ++ missing
          ≡ answers_to streams response sink s.accepted)
        × (length missing ≡ length s.flights)
    pub finishes :
        let finished = run streams (wake 0 ∷ wake 0 ∷ []) s in
        (finished.answers ≡ answers_to streams response sink s.accepted) × (finished.flights ≡ [])
    pub refused :
        s.inner.sink ≡ none
        → (method : Call)
        → start {Transport = Transport} method s.inner ≡ (s.inner, settled (rejected stream_closed))
    pub ended : s.inner.sink ≡ none → s.flights ≡ [] → any is_last s.accepted ≡ true

  step-InPhase :
      (event : Event) (p : Phase Response)
      → Valid streams sink response p
      → InPhase (step streams event (state streams sink response p))
  step-InPhase (call method) p v = call-state streams sink response method p v
  step-InPhase (wake zero) p v =
      let (p', v', e, same, fewer) = wake-state streams sink response p v in (p', v', e)
  step-InPhase (wake (suc i)) p v = (p, v, wake_other-state streams sink response i p)

  run-InPhase :
      (events : List Event) (s : Session Sink Response Transport)
      → InPhase s
      → InPhase (run streams events s)
  unfolding run
  run-InPhase [] s h = h
  run-InPhase (event ∷ events) s (p, v, e) = run-InPhase events (step streams event s) (
      subst (λ (t : Session Sink Response Transport). InPhase (step streams event t)) (sym e)
        (step-InPhase event p v))

  -- A suspended call is over after two resumptions.
  quiet-answers :
      (p : Phase Response)
      → Valid streams sink response p
      → rounds p ≤ 0
      → ((state streams sink response p).answers ≡ answers_to streams response sink (records p))
        × ((state streams sink response p).flights ≡ [])
  quiet-answers (idle rs) v h = (refl, refl)
  quiet-answers (over slot rs) v h = (refl, refl)
  quiet-answers (busy method rs) v h = absurd (omega arith)
  quiet-answers (awaiting end rs) v h = absurd (omega arith)

  rounds-le : (p : Phase Response) → rounds p ≤ 2
  rounds-le (idle rs) = omega arith
  rounds-le (busy method rs) = omega arith
  rounds-le (awaiting end rs) = omega arith
  rounds-le (over slot rs) = omega arith

  -- Each record has one answer.
  one_answer : (held : Sink) (r : Record) → length (answers_to streams response held (r ∷ [])) ≡ 1
  one_answer held (chunk bytes) = refl
  one_answer held (last bytes) = refl

  -- The answer of the suspended call is missing.
  missing :
      (rs : List Record) (r : Record)
      → IsOpen rs
      → (later : List (Settled Transport)) × (answers_to streams response sink rs ++ later
          ≡ answers_to streams response sink (rs ++ r ∷ []))
        × (length later ≡ 1)
  missing rs r o = (
    answers_to streams response (sink_after streams sink rs) (r ∷ []),
    sym (answers_to-append streams response sink rs r o),
    one_answer (sink_after streams sink rs) r,
  )

  state-finishes :
      (p : Phase Response)
      → Valid streams sink response p
      → let finished = run streams (wake 0 ∷ wake 0 ∷ []) (state streams sink response p) in
        (finished.answers ≡ answers_to streams response sink (records p)) × (finished.flights ≡ [])
  unfolding run step
  state-finishes p v =
      let (p1, v1, e1, same1, fewer1) = wake-state streams sink response p v in
      let (p2, v2, e2, same2, fewer2) = wake-state streams sink response p1 v1 in
      let (answers, flights) = quiet-answers p2 v2 (omega (arith, rounds-le p, fewer1, fewer2)) in
      let whole = ap (step streams (wake 0)) e1 ∙ e2 in
      (
        ap (λ (s : Session Sink Response Transport). s.answers) whole
            ∙ answers
            ∙ ap (answers_to streams response sink) (same2 ∙ same1),
        ap (λ (s : Session Sink Response Transport). s.flights) whole ∙ flights,
      )

  state-Kept :
      (p : Phase Response) → Valid streams sink response p → Kept (state streams sink response p)
  unfolding start
  state-Kept (idle rs) v = record {
    body = IsOpen-IsBody rs v;
    free = λ held h. (ground arith, refl, refl);
    alone = omega arith;
    answered = ([], append-nil (answers_to streams response sink rs), refl);
    finishes = state-finishes (idle rs) v;
    refused = λ e method. absurd (ground arith);
    ended = λ e f. absurd (ground arith);
  }
  state-Kept (busy method rs) v = record {
    body = IsBody-append rs (record_of method) v;
    free = λ held h. absurd (ground arith);
    alone = omega arith;
    answered = missing rs (record_of method) v;
    finishes = state-finishes (busy method rs) v;
    refused = λ e method. refl;
    ended = λ e f. absurd (ground arith);
  }
  state-Kept (awaiting end rs) (o, closes) = record {
    body = IsBody-append rs (last end) o;
    free = λ held h. absurd (ground arith);
    alone = omega arith;
    answered = missing rs (last end) o;
    finishes = state-finishes (awaiting end rs) (o, closes);
    refused = λ e method. refl;
    ended = λ e f. absurd (ground arith);
  }
  state-Kept (over slot rs) (b, ends) = record {
    body = b;
    free = λ held h. absurd (ground arith);
    alone = omega arith;
    answered = ([], append-nil (answers_to streams response sink rs), refl);
    finishes = state-finishes (over slot rs) (b, ends);
    refused = λ e method. refl;
    ended = λ e f. ends;
  }

  -- From the opening of a stream, for any calls and resumptions in any order, what the promises of
  -- the calls that found the sink have settled with so far is what the calls come to if each of them
  -- is awaited before the next, the response of the stream included, all but the answer of the one
  -- call that may be suspended; two resumptions of it bring that answer. The sink in its slot is the
  -- one that those pushes leave, and then no call is suspended and the response has not been taken;
  -- nothing is accepted after the end of the body; and a handle without its sink has a suspended
  -- call or the end of the body behind it, and a further call is then rejected as closed and leaves
  -- it as it is.
  pub run-Kept_opened : (events : List Event) → Kept (run streams events (opened sink response))
  run-Kept_opened events =
      let (p, v, e) = run-InPhase events (opened sink response) (idle [], tt, refl) in
      subst (λ (s : Session Sink Response Transport). Kept s) (sym e) (state-Kept p v)
