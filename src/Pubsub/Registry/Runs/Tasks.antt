-- ===== src/Pubsub/Registry/Runs/Tasks.antt =====
-- registry.rs: which calls touch the delivery tasks.
use tightbeam_ext.Prelude.{ℕ, ◌≡◌, refl, ◌∙◌, List, [], ◌∷◌, arith, Option-cases, inl, inr, Bytes}
use tightbeam_ext.Prelude.Map
use tightbeam_ext.Prelude.Map.{Map, get-insert, values}
use tightbeam_ext.Prelude.Keys.{nat_eq}
use tightbeam_ext.Prelude.Result.{Result}
use tightbeam_ext.Pubsub.Topic.{Topic, topic_eq}
use tightbeam_ext.Pubsub.Frame.{FrameKit}
use tightbeam_ext.Pubsub.Backplane.{DeliverError}
use tightbeam_ext.Pubsub.Registry.{Registry, TopicState, live}
use tightbeam_ext.Pubsub.Registry.Lanes.{push, finish}
use tightbeam_ext.Pubsub.Registry.Members.{
  unregister, remove_subscriber, remove_all, drop_connection,
}
use tightbeam_ext.Pubsub.Registry.Delivery.{
  push_members, fan_out, disconnect, disconnect_all, deliver,
}
use tightbeam_ext.Pubsub.Registry.Delivery.Outcomes.{
  marked, Delivers, is_draining, is_unbuilt, is_fanned, deliver-Delivers,
}
use tightbeam_ext.Pubsub.Registry.Quiesce.{End, finish_members, complete}

module _ {Frame Handle : Type 0} where
  remove_all-tasks : (r : Registry Frame Handle) (ids : List ℕ) → (remove_all r ids).tasks ≡ r.tasks
  unfolding remove_all remove_subscriber
  remove_all-tasks r [] = refl
  remove_all-tasks r (id ∷ ids) = ground (arith, remove_all-tasks (remove_subscriber r id) ids)

  pub drop_connection-tasks :
      (r : Registry Frame Handle) (c : ℕ) → (drop_connection r c).tasks ≡ r.tasks
  unfolding drop_connection
  drop_connection-tasks r c = grind (arith, remove_all-tasks)

  pub unregister-tasks :
      (r : Registry Frame Handle) (c : ℕ) (t : Topic) → (unregister r c t).0.tasks ≡ r.tasks
  unfolding unregister remove_subscriber
  unregister-tasks r c t = ground arith

  push_members-tasks :
      (r : Registry Frame Handle) (update : Frame) (ids : List ℕ)
      → (push_members r update ids).0.tasks ≡ r.tasks
  unfolding push_members
  push_members-tasks r update [] = refl
  push_members-tasks r update (id ∷ ids) = elim (Option-cases (live r id)) [
    | inl e ↦ rw (e, push_members) (push_members-tasks r update ids)
    | inr (s, e) ↦
        rw (e, push_members)
          (push_members-tasks (record r { arcs = Map.insert id (push r.options update s).0 r.arcs })
            update ids)
  ]

  fan_out-tasks :
      (r : Registry Frame Handle) (t : Topic) (update : Frame)
      → (fan_out r t update).0.tasks ≡ r.tasks
  unfolding fan_out
  fan_out-tasks r t update = grind (arith, push_members-tasks)

  disconnect_all-tasks :
      (r : Registry Frame Handle) (doomed : List ℕ) → (disconnect_all r doomed).tasks ≡ r.tasks
  unfolding disconnect_all disconnect
  disconnect_all-tasks r [] = refl
  disconnect_all-tasks r (c ∷ doomed) =
      grind (arith, disconnect_all-tasks (disconnect r c) doomed, drop_connection-tasks r c)

  pub deliver-tasks :
      {Octets Cause : Type 0} (k : FrameKit Octets Frame Cause) (r : Registry Frame Handle)
      (t : Topic) (order : ℕ) (payload : Bytes)
      → (deliver k r t order payload).0.tasks ≡ r.tasks
  deliver-tasks {Octets} {Cause} k r t order payload = split (deliver-Delivers k r t order payload)
    where
      split :
          {r' : Registry Frame Handle} {a : Result (Unit {0}) (DeliverError Cause)}
          → Delivers k r t order payload r' a
          → r'.tasks ≡ r.tasks
      split (is_draining _) = refl
      split (is_unbuilt _ _ _) = refl
      split (is_fanned update _ _) =
          let stamped = marked k r t order payload in
          let fanned = fan_out stamped t update in
          disconnect_all-tasks fanned.0 fanned.1 ∙ fan_out-tasks stamped t update

  finish_members-tasks :
      (r : Registry Frame Handle) (end : Frame) (ids : List ℕ)
      → (finish_members r end ids).0.tasks ≡ r.tasks
  unfolding finish_members
  finish_members-tasks r end [] = refl
  finish_members-tasks r end (id ∷ ids) = elim (Option-cases (live r id)) [
    | inl e ↦ rw (e, finish_members) (finish_members-tasks r end ids)
    | inr (s, e) ↦
        rw (e, finish_members)
          (finish_members-tasks (record r { arcs = Map.insert id (finish end s) r.arcs }) end ids)
  ]

  pub complete-tasks :
      (r : Registry Frame Handle) (ends : List (End Frame)) → (complete r ends).0.tasks ≡ r.tasks
  unfolding complete
  complete-tasks r [] = refl
  complete-tasks r (end ∷ ends) =
      let marked : Registry Frame Handle = record r {
        topics =
            Map.modify end.topic (λ (e : TopicState). record e { last_order = end.order }) r.topics;
      } in
      complete-tasks (finish_members marked end.frame end.members).0 ends
      ∙ finish_members-tasks marked end.frame end.members
