-- ===== src/Pubsub/Registry/Runs/Completion.antt =====
-- registry.rs: the queues of a registry that drains, over a history.
use tightbeam_ext.Prelude.{
  ℕ, ◌≡◌, refl, sym, ◌∙◌, ap, Bool, true, false, List, [], ◌∷◌, ◌++◌, arith, Option-cases, inl, inr,
  all, Bytes,
}
use mathlib.Core.List.{append_assoc}
use tightbeam_ext.Prelude.Map
use tightbeam_ext.Prelude.Map.{Map, get-insert, values}
use tightbeam_ext.Prelude.Keys.{nat_eq}
use tightbeam_ext.Pubsub.Topic.{Topic, topic_eq}
use tightbeam_ext.Pubsub.Frame.{FrameKit}
use tightbeam_ext.Pubsub.Registry.{Registry, Subscriber, Phase, popping}
use tightbeam_ext.Pubsub.Registry.Lanes.{close}
use tightbeam_ext.Pubsub.Registry.Members.{
  admit_connection, register, unregister, remove_subscriber, remove_all, drop_connection,
}
use tightbeam_ext.Pubsub.Registry.Delivery.{deliver}
use tightbeam_ext.Pubsub.Registry.Drain.{Signal, drain, drain_step, pop, resume}
use tightbeam_ext.Pubsub.Registry.Quiesce.{begin_quiesce}
use tightbeam_ext.Pubsub.Registry.Runs.Arcs.{
  EachArc, IsKept, EachArc-same, EachArc-chain, insert-EachArc, unregister-EachArc,
  drop_connection-EachArc,
}
use tightbeam_ext.Pubsub.Registry.Runs.{
  Call, admits, registers, unregisters, drops, delivers, drains, begins, completes, step, run,
}

-- Only the front of the queue is gone.
abbrev pub Shrinks : {Frame : Type 0} → Subscriber Frame → Subscriber Frame → Type 0
Shrinks {Frame} s s' = (front : List Frame) × (s.lane.queue ≡ front ++ s'.lane.queue)

module _ {Frame : Type 0} where
  pop-Shrinks :
      (queue : List Frame) (s : Subscriber Frame) → s.lane.queue ≡ queue → Shrinks s (pop queue s).0
  unfolding pop
  pop-Shrinks [] s e = ([], e)
  pop-Shrinks (update ∷ queue) s e = (update ∷ [], e)

  drain-Shrinks :
      (phase : Phase Frame) (signal : Signal) (s : Subscriber Frame)
      → Shrinks s (drain phase signal s).0
  unfolding drain close
  drain-Shrinks popping resume s = pop-Shrinks s.lane.queue s refl
  drain-Shrinks phase signal s = ([], ground arith)

  Shrinks-IsKept : IsKept (Shrinks {Frame = Frame})
  unfolding close
  Shrinks-IsKept = record {
    same = λ s. ([], refl);
    chain = λ s t u h g.
        (h.0 ++ g.0, h.1 ∙ ap (◌++◌ h.0) g.1 ∙ sym (append_assoc h.0 g.0 u.lane.queue));
    closes = λ s. ([], refl);
  }

  -- Each subscriber is still there, with only the front of its queue gone.
  abbrev pub AllShrink : Map ℕ (Subscriber Frame) → Map ℕ (Subscriber Frame) → Type 0
  AllShrink = EachArc Shrinks

  AllShrink-same : (m : Map ℕ (Subscriber Frame)) → AllShrink m m
  AllShrink-same = EachArc-same Shrinks Shrinks-IsKept

module _ {Frame Handle : Type 0} where
  -- A step of a delivery task takes at most the front.
  drain_step-AllShrink :
      (r : Registry Frame Handle) (id : ℕ) (signal : Signal)
      → AllShrink r.arcs (drain_step r id signal).arcs
  unfolding drain_step
  drain_step-AllShrink r id signal = elim (Option-cases (Map.get id r.tasks)) [
    | inl e ↦ rw (e, drain_step) (AllShrink-same r.arcs)
    | inr (task, e) ↦ elim (Option-cases (Map.get id r.arcs)) [
      | inl g ↦ rw (e, g, drain_step) (AllShrink-same r.arcs)
      | inr (s, g) ↦
          rw (e, g, drain_step)
            (insert-EachArc Shrinks Shrinks-IsKept r.arcs id s (drain task.phase signal s).0 g
              (drain-Shrinks task.phase signal s))
    ]
  ]

  -- Every call but `complete`.
  abbrev pub is_quiet : Call Frame Handle → Bool
  is_quiet (completes ends) = false
  is_quiet call = true

  remove_all-draining :
      (r : Registry Frame Handle) (ids : List ℕ) → (remove_all r ids).draining ≡ r.draining
  unfolding remove_all remove_subscriber
  remove_all-draining r [] = refl
  remove_all-draining r (id ∷ ids) =
      ground (arith, remove_all-draining (remove_subscriber r id) ids)

  drop_connection-draining :
      (r : Registry Frame Handle) (c : ℕ) → (drop_connection r c).draining ≡ r.draining
  unfolding drop_connection
  drop_connection-draining r c = grind (arith, remove_all-draining)

  -- A draining registry admits no subscription and no update.
  register_refused :
      (r : Registry Frame Handle) (c : ℕ) (t : Topic) → r.draining ≡ true → (register r c t).0 ≡ r
  unfolding register
  register_refused r c t d = ground arith

  module _ {Octets Cause : Type 0} (k : FrameKit Octets Frame Cause) where
    deliver_refused :
        (r : Registry Frame Handle) (t : Topic) (order : ℕ) (payload : Bytes)
        → r.draining ≡ true
        → (deliver k r t order payload).0 ≡ r
    unfolding deliver
    deliver_refused r t order payload d = ground arith

    step-draining :
        (r : Registry Frame Handle) (call : Call Frame Handle)
        → is_quiet call ≡ true
        → r.draining ≡ true
        → (step k r call).draining ≡ true
    unfolding step admit_connection begin_quiesce unregister remove_subscriber drain_step
    step-draining r (admits handle identity) q d = d
    step-draining r (registers c t) q d = rw (register_refused r c t d) d
    step-draining r (unregisters c t) q d = ground arith
    step-draining r (drops c) q d = drop_connection-draining r c ∙ d
    step-draining r (delivers t order payload) q d = rw (deliver_refused r t order payload d) d
    step-draining r (drains id signal) q d = ground arith
    step-draining r begins q d = refl
    step-draining r (completes ends) q d = absurd (ground arith)

    step-AllShrink :
        (r : Registry Frame Handle) (call : Call Frame Handle)
        → is_quiet call ≡ true
        → r.draining ≡ true
        → AllShrink r.arcs (step k r call).arcs
    unfolding step admit_connection begin_quiesce
    step-AllShrink r (admits handle identity) q d = AllShrink-same r.arcs
    step-AllShrink r (registers c t) q d = rw (register_refused r c t d) (AllShrink-same r.arcs)
    step-AllShrink r (unregisters c t) q d = unregister-EachArc Shrinks Shrinks-IsKept r c t
    step-AllShrink r (drops c) q d = drop_connection-EachArc Shrinks Shrinks-IsKept r c
    step-AllShrink r (delivers t order payload) q d =
        rw (deliver_refused r t order payload d) (AllShrink-same r.arcs)
    step-AllShrink r (drains id signal) q d = drain_step-AllShrink r id signal
    step-AllShrink r begins q d = AllShrink-same r.arcs
    step-AllShrink r (completes ends) q d = absurd (ground arith)

    -- Once a registry drains, no call but another completion adds to any queue: after any
    -- history without one, each subscriber is still there and its queue is an end part of what
    -- it was.
    pub run-AllShrink :
        (r : Registry Frame Handle) (calls : List (Call Frame Handle))
        → all is_quiet calls ≡ true
        → r.draining ≡ true
        → AllShrink r.arcs (run k r calls).arcs
    unfolding run
    run-AllShrink r [] q d = AllShrink-same r.arcs
    run-AllShrink r (call ∷ calls) q d =
        let quiet : is_quiet call ≡ true = ground arith in
        EachArc-chain Shrinks Shrinks-IsKept r.arcs (step k r call).arcs
          (run k (step k r call) calls).arcs (step-AllShrink r call quiet d)
          (run-AllShrink (step k r call) calls (ground arith) (step-draining r call quiet d))
