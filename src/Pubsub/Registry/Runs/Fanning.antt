-- ===== src/Pubsub/Registry/Runs/Fanning.antt =====
-- registry.rs: what `deliver` and `quiesce` do to the subscribers, one at a time.
use tightbeam_ext.Prelude.{ℕ, List, [], ◌∷◌, Option-cases, inl, inr, Bytes}
use tightbeam_ext.Prelude.Map
use tightbeam_ext.Prelude.Map.{Map, get-insert, values}
use tightbeam_ext.Prelude.Keys.{nat_eq}
use tightbeam_ext.Prelude.Result.{Result}
use tightbeam_ext.Pubsub.Topic.{Topic, topic_eq}
use tightbeam_ext.Pubsub.Frame.{FrameKit}
use tightbeam_ext.Pubsub.Backplane.{DeliverError}
use tightbeam_ext.Pubsub.Registry.{Registry, RegistryOptions, TopicState, Subscriber, live}
use tightbeam_ext.Pubsub.Registry.Lanes.{push, finish}
use tightbeam_ext.Pubsub.Registry.Delivery.{
  push_members, fan_out, disconnect, disconnect_all, deliver,
}
use tightbeam_ext.Pubsub.Registry.Delivery.Outcomes.{
  marked, Delivers, is_draining, is_unbuilt, is_fanned, deliver-Delivers,
}
use tightbeam_ext.Pubsub.Registry.Quiesce.{End, finish_members, complete}
use tightbeam_ext.Pubsub.Registry.Consistency.Lanewise.{live-get}
use tightbeam_ext.Pubsub.Registry.Runs.Arcs.{
  EachArc, IsKept, EachArc-same, EachArc-chain, insert-EachArc, drop_connection-EachArc,
}

module _ {Frame Handle : Type 0} (Rel : Subscriber Frame → Subscriber Frame → Type 0)
    (kept : IsKept Rel) where
  module _ (update : Frame)
      (pushes : (options : RegistryOptions) (s : Subscriber Frame)
        → Rel s (push options update s).0) where
    push_members-EachArc :
        (r : Registry Frame Handle) (ids : List ℕ)
        → EachArc Rel r.arcs (push_members r update ids).0.arcs
    unfolding push_members
    push_members-EachArc r [] = EachArc-same Rel kept r.arcs
    push_members-EachArc r (id ∷ ids) = elim (Option-cases (live r id)) [
      | inl e ↦ rw (e, push_members) (push_members-EachArc r ids)
      | inr (s, e) ↦
          let pushed = (push r.options update s).0 in
          let r' : Registry Frame Handle = record r { arcs = Map.insert id pushed r.arcs } in
          rw (e, push_members)
            (EachArc-chain Rel kept r.arcs r'.arcs (push_members r' update ids).0.arcs
              (insert-EachArc Rel kept r.arcs id s pushed (live-get r id s e) (pushes r.options s))
              (push_members-EachArc r' ids))
    ]

    pub fan_out-EachArc :
        (r : Registry Frame Handle) (t : Topic) → EachArc Rel r.arcs (fan_out r t update).0.arcs
    unfolding fan_out
    fan_out-EachArc r t = elim (Option-cases (Map.get t r.topics)) [
      | inl e ↦ rw (e, fan_out) (EachArc-same Rel kept r.arcs)
      | inr (entry, e) ↦ rw (e, fan_out) (push_members-EachArc r entry.members)
    ]

  disconnect-EachArc :
      (r : Registry Frame Handle) (c : ℕ) → EachArc Rel r.arcs (disconnect r c).arcs
  unfolding disconnect
  disconnect-EachArc r c = elim (Option-cases (Map.get c r.connections)) [
    | inl e ↦ rw (e, disconnect) (drop_connection-EachArc Rel kept r c)
    | inr (connected, e) ↦ rw (e, disconnect) (drop_connection-EachArc Rel kept r c)
  ]

  pub disconnect_all-EachArc :
      (r : Registry Frame Handle) (doomed : List ℕ)
      → EachArc Rel r.arcs (disconnect_all r doomed).arcs
  unfolding disconnect_all
  disconnect_all-EachArc r [] = EachArc-same Rel kept r.arcs
  disconnect_all-EachArc r (c ∷ doomed) =
      EachArc-chain Rel kept r.arcs (disconnect r c).arcs (disconnect_all r (c ∷ doomed)).arcs
        (disconnect-EachArc r c) (disconnect_all-EachArc (disconnect r c) doomed)

  module _ {Octets Cause : Type 0} (k : FrameKit Octets Frame Cause) where
    pub deliver-EachArc :
        (pushes : (options : RegistryOptions) (update : Frame) (s : Subscriber Frame)
          → Rel s (push options update s).0)
        (r : Registry Frame Handle) (t : Topic) (order : ℕ) (payload : Bytes)
        → EachArc Rel r.arcs (deliver k r t order payload).0.arcs
    deliver-EachArc pushes r t order payload = split (deliver-Delivers k r t order payload)
      where
        split :
            {r' : Registry Frame Handle} {a : Result (Unit {0}) (DeliverError Cause)}
            → Delivers k r t order payload r' a
            → EachArc Rel r.arcs r'.arcs
        split (is_draining _) = EachArc-same Rel kept r.arcs
        split (is_unbuilt _ _ _) = EachArc-same Rel kept r.arcs
        split (is_fanned update _ _) =
            let stamped = marked k r t order payload in
            let fanned = fan_out stamped t update in
            EachArc-chain Rel kept r.arcs fanned.0.arcs (disconnect_all fanned.0 fanned.1).arcs
              (fan_out-EachArc update (λ options s. pushes options update s) stamped t)
              (disconnect_all-EachArc fanned.0 fanned.1)

  module _ (finishes : (end : Frame) (s : Subscriber Frame) → Rel s (finish end s)) where
    finish_members-EachArc :
        (r : Registry Frame Handle) (end : Frame) (ids : List ℕ)
        → EachArc Rel r.arcs (finish_members r end ids).0.arcs
    unfolding finish_members
    finish_members-EachArc r end [] = EachArc-same Rel kept r.arcs
    finish_members-EachArc r end (id ∷ ids) = elim (Option-cases (live r id)) [
      | inl e ↦ rw (e, finish_members) (finish_members-EachArc r end ids)
      | inr (s, e) ↦
          let r' : Registry Frame Handle = record r {
            arcs = Map.insert id (finish end s) r.arcs;
          } in
          rw (e, finish_members)
            (EachArc-chain Rel kept r.arcs r'.arcs (finish_members r' end ids).0.arcs
              (insert-EachArc Rel kept r.arcs id s (finish end s) (live-get r id s e)
                (finishes end s))
              (finish_members-EachArc r' end ids))
    ]

    pub complete-EachArc :
        (r : Registry Frame Handle) (ends : List (End Frame))
        → EachArc Rel r.arcs (complete r ends).0.arcs
    unfolding complete
    complete-EachArc r [] = EachArc-same Rel kept r.arcs
    complete-EachArc r (end ∷ ends) =
        let marked : Registry Frame Handle = record r {
          topics =
              Map.modify end.topic (λ (e : TopicState). record e { last_order = end.order })
                r.topics;
        } in
        let r' = (finish_members marked end.frame end.members).0 in
        EachArc-chain Rel kept r.arcs r'.arcs (complete r' ends).0.arcs
          (finish_members-EachArc marked end.frame end.members) (complete-EachArc r' ends)
