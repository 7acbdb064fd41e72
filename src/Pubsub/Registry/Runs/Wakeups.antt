-- ===== src/Pubsub/Registry/Runs/Wakeups.antt =====
-- registry.rs: the permits of `notify` against the phases of the delivery tasks, over a history.
use tightbeam_ext.Prelude.{
  ℕ, ◌≡◌, refl, sym, subst, ◌∙◌, ap, true, none, some, List, [], ◌∷◌, arith, Option-cases,
  Bool-cases, inl, inr, ◌==◌,
}
use tightbeam_ext.Prelude.Map
use tightbeam_ext.Prelude.Map.{Map, get-insert}
use tightbeam_ext.Prelude.Keys.{nat_eq}
use tightbeam_ext.Pubsub.Topic.{Topic}
use tightbeam_ext.Pubsub.Frame.{FrameKit}
use tightbeam_ext.Pubsub.Registry.{
  Registry, RegistryOptions, RegisterError, new, Subscriber, Task, Phase, head, waiting,
}
use tightbeam_ext.Pubsub.Registry.Lanes.{close, push, finish, new_subscriber}
use tightbeam_ext.Pubsub.Registry.Members.{
  admit_connection, enlist, register, unregister, drop_connection,
}
use tightbeam_ext.Pubsub.Registry.Quiesce.{begin_quiesce, complete}
use tightbeam_ext.Pubsub.Registry.Delivery.{deliver}
use tightbeam_ext.Pubsub.Registry.Members.Registering.{
  Registers, is_draining, is_unknown, is_held, is_full, is_new, register-Registers,
}
use tightbeam_ext.Prelude.Result.{Result}
use tightbeam_ext.Pubsub.Registry.Drain.Waking.{
  has_work, IsAwake, drain-IsAwake, push-IsAwake, notified-IsAwake,
}
use tightbeam_ext.Pubsub.Registry.Runs.Tasks.{
  drop_connection-tasks, unregister-tasks, deliver-tasks, complete-tasks,
}
use tightbeam_ext.Pubsub.Registry.Runs.Fanning.{deliver-EachArc, complete-EachArc}
use tightbeam_ext.Pubsub.Registry.Runs.{
  Call, admits, registers, unregisters, drops, delivers, drains, begins, completes, step, run,
}
use tightbeam_ext.Pubsub.Registry.Runs.Arcs.{
  EachArc, IsKept, EachArc-back, drop_connection-EachArc, unregister-EachArc,
}
use tightbeam_ext.Pubsub.Registry.Drain.{Signal, drain, drain_step}

module _ {Frame : Type 0} where
  -- Whatever the task does, what it must see has its permit.
  abbrev pub Rouses : Subscriber Frame → Subscriber Frame → Type 0
  Rouses s s' = (phase : Phase Frame) → IsAwake phase s → IsAwake phase s'

  Rouses-IsKept : IsKept Rouses
  unfolding close
  Rouses-IsKept = record {
    same = λ s phase h. h;
    chain = λ s t u h g phase a. g phase (h phase a);
    closes = λ s phase h. notified-IsAwake phase (close s) refl;
  }

  finish-Rouses : (end : Frame) (s : Subscriber Frame) → Rouses s (finish end s)
  unfolding finish
  finish-Rouses end s phase h = notified-IsAwake phase (finish end s) refl

  push-Rouses :
      (options : RegistryOptions) (update : Frame) (s : Subscriber Frame)
      → Rouses s (push options update s).0
  push-Rouses options update s phase h = push-IsAwake options update phase s h

module _ {Frame Handle : Type 0} where
  -- No task sleeps through work.
  abbrev pub AllAwake : Registry Frame Handle → Type 0
  AllAwake r =
      (id : ℕ) (task : Task Frame Handle) (s : Subscriber Frame)
      → Map.get id r.tasks ≡ some task
      → Map.get id r.arcs ≡ some s
      → IsAwake task.phase s

  EachArc-AllAwake :
      (r r' : Registry Frame Handle)
      → r'.tasks ≡ r.tasks
      → EachArc Rouses r.arcs r'.arcs
      → AllAwake r
      → AllAwake r'
  EachArc-AllAwake r r' e each awake id task s' t h =
      let (s, here, rouses) = EachArc-back Rouses r.arcs r'.arcs each id s' h in
      rouses task.phase (awake id task s (sym (ap (Map.get id) e) ∙ t) here)

  -- A task and its subscriber are put back, or are new.
  insert-AllAwake :
      (r r' : Registry Frame Handle) (id : ℕ) (task : Task Frame Handle) (s : Subscriber Frame)
      → r'.tasks ≡ Map.insert id task r.tasks
      → r'.arcs ≡ Map.insert id s r.arcs
      → IsAwake task.phase s
      → AllAwake r
      → AllAwake r'
  insert-AllAwake r r' id task s et es here awake j task' s' t h = elim (Bool-cases (id == j)) [
    | inl same ↦
        let same_task : task ≡ task' = grind (arith, get-insert id j task r.tasks) in
        let same_arc : s ≡ s' = grind (arith, get-insert id j s r.arcs) in
        subst (λ (x : Task Frame Handle). IsAwake x.phase s') same_task
          (subst (IsAwake task.phase) same_arc here)
    | inr other ↦
        awake j task' s' (grind (arith, get-insert id j task r.tasks))
          (grind (arith, get-insert id j s r.arcs))
  ]

  enlist-AllAwake :
      (r : Registry Frame Handle) (c : ℕ) (t : Topic) (handle : Handle)
      → AllAwake r
      → AllAwake (enlist r c t handle)
  unfolding enlist
  enlist-AllAwake r c t handle awake =
      insert-AllAwake r (enlist r c t handle) r.next_subscriber
        (record { handle = handle; phase = head }) (new_subscriber t c) refl refl tt awake

  register-AllAwake :
      (r : Registry Frame Handle) (c : ℕ) (t : Topic) → AllAwake r → AllAwake (register r c t).0
  register-AllAwake r c t awake = split (register-Registers r c t)
    where
      split :
          {r' : Registry Frame Handle} {a : Result ℕ RegisterError}
          → Registers r c t r' a
          → AllAwake r'
      split (is_draining _) = awake
      split (is_unknown _ _) = awake
      split (is_held _ _ _ _ _) = awake
      split (is_full _ _ _ _ _) = awake
      split (is_new connected _ _ _ _) = enlist-AllAwake r c t connected.handle awake

  drain_step-AllAwake :
      (r : Registry Frame Handle) (id : ℕ) (signal : Signal)
      → AllAwake r
      → AllAwake (drain_step r id signal)
  unfolding drain_step
  drain_step-AllAwake r id signal awake = elim (Option-cases (Map.get id r.tasks)) [
    | inl e ↦ rw (e, drain_step) awake
    | inr (task, e) ↦ elim (Option-cases (Map.get id r.arcs)) [
      | inl g ↦ rw (e, g, drain_step) awake
      | inr (s, g) ↦
          let drained = drain task.phase signal s in
          rw (e, g, drain_step)
            (insert-AllAwake r
              (record r {
                arcs = Map.insert id drained.0 r.arcs;
                tasks = Map.insert id (record task { phase = drained.1 }) r.tasks;
              })
              id (record task { phase = drained.1 }) drained.0 refl refl
              (drain-IsAwake task.phase signal s (awake id task s e g)) awake)
    ]
  ]

  module _ {Octets Cause : Type 0} (k : FrameKit Octets Frame Cause) where
    step-AllAwake :
        (r : Registry Frame Handle) (call : Call Frame Handle)
        → AllAwake r
        → AllAwake (step k r call)
    unfolding step admit_connection begin_quiesce
    step-AllAwake r (admits handle identity) awake = awake
    step-AllAwake r (registers c t) awake = register-AllAwake r c t awake
    step-AllAwake r (unregisters c t) awake =
        EachArc-AllAwake r (unregister r c t).0 (unregister-tasks r c t)
          (unregister-EachArc Rouses Rouses-IsKept r c t) awake
    step-AllAwake r (drops c) awake =
        EachArc-AllAwake r (drop_connection r c) (drop_connection-tasks r c)
          (drop_connection-EachArc Rouses Rouses-IsKept r c) awake
    step-AllAwake r (delivers t order payload) awake =
        EachArc-AllAwake r (deliver k r t order payload).0 (deliver-tasks k r t order payload)
          (deliver-EachArc Rouses Rouses-IsKept k push-Rouses r t order payload) awake
    step-AllAwake r (drains id signal) awake = drain_step-AllAwake r id signal awake
    step-AllAwake r begins awake = awake
    step-AllAwake r (completes ends) awake =
        EachArc-AllAwake r (complete r ends).0 (complete-tasks r ends)
          (complete-EachArc Rouses Rouses-IsKept finish-Rouses r ends) awake

    run-AllAwake :
        (r : Registry Frame Handle) (calls : List (Call Frame Handle))
        → AllAwake r
        → AllAwake (run k r calls)
    unfolding run
    run-AllAwake r [] awake = awake
    run-AllAwake r (call ∷ calls) awake =
        run-AllAwake (step k r call) calls (step-AllAwake r call awake)

    new-AllAwake :
        (options : RegistryOptions) → AllAwake (new {Frame = Frame} {Handle = Handle} options)
    unfolding new Map.get
    new-AllAwake options id task s t h =
        let gone : none ≡ some task = t in absurd (ground (arith, gone))

    -- After any history of a new registry, a delivery task that waits holds a permit whenever its
    -- subscriber has a queued update, has been finished or is closed: no wake-up is lost.
    pub run-new-IsAwake :
        (options : RegistryOptions) (calls : List (Call Frame Handle)) (id : ℕ)
        (task : Task Frame Handle) (s : Subscriber Frame)
        → Map.get id (run k (new options) calls).tasks ≡ some task
        → Map.get id (run k (new options) calls).arcs ≡ some s
        → task.phase ≡ waiting
        → has_work s ≡ true
        → s.notify ≡ true
    run-new-IsAwake options calls id task s t h p w =
        subst (λ (phase : Phase Frame). IsAwake phase s) p
          (run-AllAwake (new options) calls (new-AllAwake options) id task s t h) w
