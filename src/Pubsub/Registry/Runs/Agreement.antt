-- ===== src/Pubsub/Registry/Runs/Agreement.antt =====
-- registry.rs: the three maps of a registry over a history.
use tightbeam_ext.Prelude.{ℕ, ◌+◌, ◌≤◌, ◌<◌, ◌≡◌, refl, Option, List, [], ◌∷◌, arith, length, Bytes}
use tightbeam_ext.Prelude.Map
use tightbeam_ext.Prelude.Map.{values}
use tightbeam_ext.Prelude.Keys.{nat_eq}
use tightbeam_ext.Pubsub.Topic.{Topic, topic_eq}
use tightbeam_ext.Pubsub.Frame.{FrameKit}
use tightbeam_ext.Pubsub.Registry.{Registry, RegistryOptions, TopicState, new}
use tightbeam_ext.Pubsub.Registry.Lanes.{u64_mod}
use tightbeam_ext.Pubsub.Registry.Members.{
  admit_connection, register, enlist, unregister, remove_subscriber, remove_all, drop_connection,
}
use tightbeam_ext.Pubsub.Registry.Delivery.{fan_out, disconnect, disconnect_all, deliver}
use tightbeam_ext.Pubsub.Registry.Delivery.Outcomes.{
  Delivers, is_draining, is_unbuilt, is_fanned, deliver-Delivers, marked,
}
use tightbeam_ext.Prelude.Result.{Result}
use tightbeam_ext.Pubsub.Backplane.{DeliverError}
use tightbeam_ext.Pubsub.Registry.Drain.{Signal, drain_step}
use tightbeam_ext.Pubsub.Registry.Quiesce.{End, begin_quiesce, finish_members, complete}
use tightbeam_ext.Pubsub.Registry.Views.{place, Consistent}
use tightbeam_ext.Pubsub.Registry.Consistency.Joining.{new-Consistent, register-Consistent}
use tightbeam_ext.Pubsub.Registry.Consistency.Admitting.{admit_connection-Consistent}
use tightbeam_ext.Pubsub.Registry.Consistency.Leaving.{
  unregister-Consistent, drop_connection-Consistent,
}
use tightbeam_ext.Pubsub.Registry.Consistency.Delivering.{
  deliver-Consistent, drain_step-Consistent, complete-Consistent, finish_members-Unmoved,
}
use tightbeam_ext.Pubsub.Registry.Consistency.Lanewise.{fan_out-Unmoved}
use tightbeam_ext.Pubsub.Registry.Runs.{
  Call, admits, registers, unregisters, drops, delivers, drains, begins, completes, step, run,
}

module _ {Frame Handle : Type 0} where
  -- The counters of ids, each at most one further.
  abbrev Advances : Registry Frame Handle → Registry Frame Handle → Type 0
  Advances r r' =
      (r'.next_subscriber ≤ r.next_subscriber + 1) × (r'.next_connection ≤ r.next_connection + 1)

  abbrev Stays : Registry Frame Handle → Registry Frame Handle → Type 0
  Stays r r' = (r'.next_subscriber ≡ r.next_subscriber) × (r'.next_connection ≡ r.next_connection)

  remove_all-Stays : (r : Registry Frame Handle) (ids : List ℕ) → Stays r (remove_all r ids)
  unfolding remove_all remove_subscriber
  remove_all-Stays r [] = (refl, refl)
  remove_all-Stays r (id ∷ ids) = ground (arith, remove_all-Stays (remove_subscriber r id) ids)

  drop_connection-Stays : (r : Registry Frame Handle) (c : ℕ) → Stays r (drop_connection r c)
  unfolding drop_connection
  drop_connection-Stays r c = grind (arith, remove_all-Stays)

  disconnect_all-Stays :
      (r : Registry Frame Handle) (doomed : List ℕ) → Stays r (disconnect_all r doomed)
  unfolding disconnect_all disconnect
  disconnect_all-Stays r [] = (refl, refl)
  disconnect_all-Stays r (c ∷ doomed) =
      ground (arith, disconnect_all-Stays (disconnect r c) doomed, drop_connection-Stays r c)

  fan_out-counters :
      (r : Registry Frame Handle) (t : Topic) (update : Frame) → Stays r (fan_out r t update).0
  fan_out-counters r t update = let u = fan_out-Unmoved r t update in (u.counters.1, u.counters.0)

  admit-Advances :
      (r : Registry Frame Handle) (handle : Handle) (identity : Option Bytes)
      → Advances r (admit_connection r handle identity).0
  unfolding admit_connection
  admit-Advances r handle identity = omega arith

  register-Advances :
      (r : Registry Frame Handle) (c : ℕ) (t : Topic) → Advances r (register r c t).0
  unfolding register enlist
  register-Advances r c t = ground arith

  unregister-Advances :
      (r : Registry Frame Handle) (c : ℕ) (t : Topic) → Advances r (unregister r c t).0
  unfolding unregister remove_subscriber
  unregister-Advances r c t = ground arith

  drain-Advances :
      (r : Registry Frame Handle) (id : ℕ) (signal : Signal) → Advances r (drain_step r id signal)
  unfolding drain_step
  drain-Advances r id signal = ground arith

  begin-Advances : (r : Registry Frame Handle) → Advances r (begin_quiesce r).0
  unfolding begin_quiesce
  begin-Advances r = omega arith

  begin_quiesce-Consistent :
      (r : Registry Frame Handle) → Consistent r → Consistent (begin_quiesce r).0
  unfolding begin_quiesce place
  begin_quiesce-Consistent r v = record {
    joins = record { joined = v.joins.joined; owned = v.joins.owned };
    listed = v.listed;
    placed = v.placed;
    inhabited = v.inhabited;
    keyed = v.keyed;
    fresh = v.fresh;
  }

  complete-Stays :
      (r : Registry Frame Handle) (ends : List (End Frame)) → Stays r (complete r ends).0
  unfolding complete
  complete-Stays r [] = (refl, refl)
  complete-Stays r (end ∷ ends) =
      let marked : Registry Frame Handle = record r {
        topics =
            Map.modify end.topic (λ (e : TopicState). record e { last_order = end.order }) r.topics;
      } in
      let told = finish_members marked end.frame end.members in
      ground (
        arith,
        complete-Stays told.0 ends,
        (finish_members-Unmoved marked end.frame end.members).counters,
      )

  module _ {Octets Cause : Type 0} (k : FrameKit Octets Frame Cause) where
    deliver-Stays :
        (r : Registry Frame Handle) (t : Topic) (order : ℕ) (payload : Bytes)
        → Stays r (deliver k r t order payload).0
    deliver-Stays r t order payload = stays (deliver-Delivers k r t order payload)
      where
        stays :
            {r' : Registry Frame Handle} {a : Result (Unit {0}) (DeliverError Cause)}
            → Delivers k r t order payload r' a
            → Stays r r'
        stays (is_draining _) = (refl, refl)
        stays (is_unbuilt _ _ _) = (refl, refl)
        stays (is_fanned update _ _) =
            let fanned = fan_out (marked k r t order payload) t update in
            ground (
              arith,
              disconnect_all-Stays fanned.0 fanned.1,
              fan_out-counters (marked k r t order payload) t update,
            )

    step-Advances :
        (r : Registry Frame Handle) (call : Call Frame Handle) → Advances r (step k r call)
    unfolding step
    step-Advances r (admits handle identity) = admit-Advances r handle identity
    step-Advances r (registers c t) = register-Advances r c t
    step-Advances r (unregisters c t) = unregister-Advances r c t
    step-Advances r (drops c) = ground (arith, drop_connection-Stays r c)
    step-Advances r (delivers t order payload) = ground (arith, deliver-Stays r t order payload)
    step-Advances r (drains id signal) = drain-Advances r id signal
    step-Advances r begins = begin-Advances r
    step-Advances r (completes ends) = ground (arith, complete-Stays r ends)

    step-Consistent :
        (r : Registry Frame Handle) (call : Call Frame Handle)
        → Consistent r
        → r.next_subscriber + 1 < u64_mod
        → r.next_connection + 1 < u64_mod
        → Consistent (step k r call)
    unfolding step
    step-Consistent r (admits handle identity) v s c =
        admit_connection-Consistent r handle identity v c
    step-Consistent r (registers x t) v s c = register-Consistent r x t v s
    step-Consistent r (unregisters x t) v s c = unregister-Consistent r x t v
    step-Consistent r (drops x) v s c = drop_connection-Consistent r x v
    step-Consistent r (delivers t order payload) v s c = deliver-Consistent k r t order payload v
    step-Consistent r (drains id signal) v s c = drain_step-Consistent r id signal v
    step-Consistent r begins v s c = begin_quiesce-Consistent r v
    step-Consistent r (completes ends) v s c = complete-Consistent r ends v

    run-Consistent :
        (r : Registry Frame Handle) (calls : List (Call Frame Handle))
        → Consistent r
        → r.next_subscriber + length calls < u64_mod
        → r.next_connection + length calls < u64_mod
        → Consistent (run k r calls)
    unfolding run
    run-Consistent r [] v s c = v
    run-Consistent r (call ∷ calls) v s c =
        let (ns, nc) = step-Advances r call in
        run-Consistent (step k r call) calls (step-Consistent r call v (omega arith) (omega arith))
          (omega arith) (omega arith)

    -- After any history of a new registry, of calls and task steps too few to use up the 64-bit
    -- ids, its maps agree: a subscriber is a member of its topic and of no other, its connection
    -- holds that topic under its id and no other, no connection is over its limit, no topic is
    -- empty.
    pub run-new-Consistent :
        (options : RegistryOptions) (calls : List (Call Frame Handle))
        → length calls + 1 < u64_mod
        → Consistent (run k (new options) calls)
    unfolding new
    run-new-Consistent options calls h =
        run-Consistent (new options) calls (new-Consistent options) (omega arith) (omega arith)
