-- ===== src/Pubsub/Registry/Consistency/Delivering.antt =====
-- The three maps of a registry across delivery, the steps of the tasks and completion.
use tightbeam_ext.Prelude.{
  ℕ, max, ◌≡◌, refl, Bool, List, [], ◌∷◌, arith, Option-cases, inl, inr, Bytes,
}
use tightbeam_ext.Prelude.Map
use tightbeam_ext.Prelude.Map.{Map, get-insert, get-modify}
use tightbeam_ext.Prelude.Keys.{nat_eq}
use tightbeam_ext.Prelude.Result.{Result}
use tightbeam_ext.Pubsub.Topic.{Topic, topic_eq}
use tightbeam_ext.Pubsub.Backplane.{DeliverError}
use tightbeam_ext.Pubsub.Frame.{FrameKit}
use tightbeam_ext.Pubsub.Registry.{Registry, TopicState, Subscriber, Phase, Task, live}
use tightbeam_ext.Pubsub.Registry.Lanes.{finish, close}
use tightbeam_ext.Pubsub.Registry.Members.{drop_connection}
use tightbeam_ext.Pubsub.Registry.Delivery.{fan_out, disconnect, disconnect_all, deliver}
use tightbeam_ext.Pubsub.Registry.Delivery.Outcomes.{
  Delivers, is_draining, is_unbuilt, is_fanned, deliver-Delivers, marked,
}
use tightbeam_ext.Pubsub.Registry.Drain.{Signal, drain, drain_step}
use tightbeam_ext.Pubsub.Registry.Quiesce.{End, finish_members, complete}
use tightbeam_ext.Pubsub.Registry.Views.{place, Consistent}
use tightbeam_ext.Pubsub.Registry.Consistency.Leaving.{drop_connection-Consistent}
use tightbeam_ext.Pubsub.Registry.Consistency.Lanewise.{
  Unmoved, Unmoved-Consistent, Unmoved-trans, Unmoved-refl, set_arc-Unmoved, live-get,
  retopic-Unmoved, fan_out-Unmoved,
}

module _ {Frame : Type 0} where
  drain-identity :
      (phase : Phase Frame) (signal : Signal) (s : Subscriber Frame)
      → ((drain phase signal s).0.topic ≡ s.topic)
        × ((drain phase signal s).0.connection ≡ s.connection)
  unfolding drain close
  drain-identity phase signal s = ground arith

module _ {Frame Handle : Type 0} where
  tasks-Consistent :
      (r : Registry Frame Handle) (tasks : Map ℕ (Task Frame Handle)) (flush : Bool)
      → Consistent r
      → Consistent (record r { tasks = tasks; flush = flush })
  unfolding place
  tasks-Consistent r tasks flush v = record {
    joins = record { joined = v.joins.joined; owned = v.joins.owned };
    listed = v.listed;
    placed = v.placed;
    inhabited = v.inhabited;
    keyed = v.keyed;
    fresh = v.fresh;
  }

  goaways-Consistent :
      (r : Registry Frame Handle) (links : List Handle)
      → Consistent r
      → Consistent (record r { goaways = links })
  unfolding place
  goaways-Consistent r links v = record {
    joins = record { joined = v.joins.joined; owned = v.joins.owned };
    listed = v.listed;
    placed = v.placed;
    inhabited = v.inhabited;
    keyed = v.keyed;
    fresh = v.fresh;
  }

  pub disconnect_all-Consistent :
      (r : Registry Frame Handle) (doomed : List ℕ)
      → Consistent r
      → Consistent (disconnect_all r doomed)
  unfolding disconnect_all disconnect
  disconnect_all-Consistent r [] v = v
  disconnect_all-Consistent r (c ∷ doomed) v =
      let left = drop_connection-Consistent r c v in
      disconnect_all-Consistent (disconnect r c) doomed
        (elim (Option-cases (Map.get c r.connections)) [
          | inl e ↦ rw (e, disconnect) left
          | inr (connected, e) ↦
              rw (e, disconnect) (goaways-Consistent (drop_connection r c) _ left)
        ])

  -- Delivering an update keeps the maps in agreement, also where the policy votes connections off.
  pub deliver-Consistent :
      {Octets Cause : Type 0} (k : FrameKit Octets Frame Cause) (r : Registry Frame Handle)
      (t : Topic) (order : ℕ) (payload : Bytes)
      → Consistent r
      → Consistent (deliver k r t order payload).0
  deliver-Consistent {Octets} {Cause} k r t order payload v =
      kept (deliver-Delivers k r t order payload)
    where
      kept :
          {r' : Registry Frame Handle} {a : Result (Unit {0}) (DeliverError Cause)}
          → Delivers k r t order payload r' a
          → Consistent r'
      kept (is_draining _) = v
      kept (is_unbuilt _ _ _) = v
      kept (is_fanned update _ _) =
          let stamped = marked k r t order payload in
          let fanned = fan_out stamped t update in
          disconnect_all-Consistent fanned.0 fanned.1 (
            Unmoved-Consistent r fanned.0
              (Unmoved-trans r stamped fanned.0 (retopic-Unmoved r t (λ n. max n order))
                (fan_out-Unmoved stamped t update))
              v)

  -- A step of a delivery task keeps the maps in agreement.
  pub drain_step-Consistent :
      (r : Registry Frame Handle) (id : ℕ) (signal : Signal)
      → Consistent r
      → Consistent (drain_step r id signal)
  unfolding drain_step
  drain_step-Consistent r id signal v = elim (Option-cases (Map.get id r.tasks)) [
    | inl e ↦ rw (e, drain_step) v
    | inr (task, e) ↦ elim (Option-cases (Map.get id r.arcs)) [
      | inl g ↦ rw (e, g, drain_step) v
      | inr (s, g) ↦
          let (s', phase, idle) = drain task.phase signal s in
          let (same_topic, same_connection) = drain-identity task.phase signal s in
          let put : Registry Frame Handle = record r {
            arcs = Map.insert id (drain task.phase signal s).0 r.arcs;
          } in
          rw (e, g, drain_step)
            (tasks-Consistent put _ _
              (Unmoved-Consistent r put (set_arc-Unmoved r id s _ g same_topic same_connection) v))
    ]
  ]

  pub finish_members-Unmoved :
      (r : Registry Frame Handle) (end : Frame) (ids : List ℕ)
      → Unmoved r (finish_members r end ids).0
  unfolding finish_members finish
  finish_members-Unmoved r end [] = Unmoved-refl r
  finish_members-Unmoved r end (id ∷ ids) = elim (Option-cases (live r id)) [
    | inl e ↦ rw (e, finish_members) (finish_members-Unmoved r end ids)
    | inr (s, e) ↦
        let next : Registry Frame Handle = record r {
          arcs = Map.insert id (finish end s) r.arcs;
        } in
        rw (e, finish_members)
          (Unmoved-trans r next _
            (set_arc-Unmoved r id s (finish end s) (live-get r id s e) refl refl)
            (finish_members-Unmoved next end ids))
  ]

  -- Completing topics keeps the maps in agreement.
  pub complete-Consistent :
      (r : Registry Frame Handle) (ends : List (End Frame))
      → Consistent r
      → Consistent (complete r ends).0
  unfolding complete
  complete-Consistent r [] v = v
  complete-Consistent r (end ∷ ends) v =
      let marked : Registry Frame Handle = record r {
        topics =
            Map.modify end.topic (λ (e : TopicState). record e { last_order = end.order }) r.topics;
      } in
      let told = (finish_members marked end.frame end.members).0 in
      complete-Consistent told ends (
        Unmoved-Consistent r told
          (Unmoved-trans r marked told (retopic-Unmoved r end.topic (λ n. end.order))
            (finish_members-Unmoved marked end.frame end.members))
          v)
