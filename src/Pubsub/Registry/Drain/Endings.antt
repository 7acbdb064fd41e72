-- ===== src/Pubsub/Registry/Drain/Endings.antt =====
-- registry.rs: what becomes of what a lane holds, over the steps of its delivery task.
use tightbeam_ext.Prelude.{
  ℕ, suc, zero, ◌≡◌, refl, ◌∙◌, ap, true, false, is_nil, some, List, [], ◌∷◌, ◌++◌, length, arith,
}
use tightbeam_ext.Prelude.Map
use tightbeam_ext.Prelude.Map.{get-insert}
use tightbeam_ext.Prelude.Keys.{nat_eq}
use tightbeam_ext.Pubsub.Registry.{
  Registry, Subscriber, Phase, head, popping, checking, emitting, closing, stopped, Task, live,
}
use tightbeam_ext.Pubsub.Registry.Lanes.{finish, pending, close}
use tightbeam_ext.Pubsub.Registry.Consistency.Lanewise.{live-get}
use tightbeam_ext.Pubsub.Registry.Drain.{
  Signal, resume, sent, streams_exhausted, refused, link_lost, slot_opened, slot_lost, pop, settle,
  drain, drain_step, is_pending,
}

-- The answers of a link that takes `n` updates.
abbrev pub rounds : ℕ → List Signal
rounds zero = []
rounds (suc n) = resume ∷ resume ∷ sent ∷ rounds n

module _ {Frame : Type 0} where
  -- The task alone: the steps that it takes on the answers in turn.
  unfoldable pub drain_all :
      List Signal → Phase Frame → Subscriber Frame → Phase Frame × Subscriber Frame
  drain_all [] phase s = (phase, s)
  drain_all (signal ∷ signals) phase s =
      let (s', phase', idle) = drain phase signal s in drain_all signals phase' s'

  -- The updates that the link took.
  abbrev pub emitted : Phase Frame → Signal → List Frame
  emitted (emitting update) sent = update ∷ []
  emitted phase signal = []

  unfoldable pub emitted_all : List Signal → Phase Frame → Subscriber Frame → List Frame
  emitted_all [] phase s = []
  emitted_all (signal ∷ signals) phase s =
      let (s', phase', idle) = drain phase signal s in
      emitted phase signal ++ emitted_all signals phase' s'

  -- A task that has stopped does nothing more.
  drain_all-stopped :
      (signals : List Signal) (s : Subscriber Frame) → drain_all signals stopped s ≡ (stopped, s)
  unfolding drain_all drain
  drain_all-stopped [] s = refl
  drain_all-stopped (resume ∷ signals) s = drain_all-stopped signals s
  drain_all-stopped (sent ∷ signals) s = drain_all-stopped signals s
  drain_all-stopped (streams_exhausted ∷ signals) s = drain_all-stopped signals s
  drain_all-stopped (refused ∷ signals) s = drain_all-stopped signals s
  drain_all-stopped (link_lost ∷ signals) s = drain_all-stopped signals s
  drain_all-stopped (slot_opened ∷ signals) s = drain_all-stopped signals s
  drain_all-stopped (slot_lost ∷ signals) s = drain_all-stopped signals s

  pop_empty :
      (s : Subscriber Frame)
      → s.lane.queue ≡ []
      → drain popping resume s
        ≡ (record s { lane = record { queue = []; in_flight = false } }, checking, false)
  unfolding drain pop
  pop_empty s e = ground arith

  pop_front :
      (update : Frame) (queue : List Frame) (s : Subscriber Frame)
      → s.lane.queue ≡ update ∷ queue
      → drain popping resume s
        ≡ (record s { lane = record { queue = queue; in_flight = true } }, emitting update, false)
  unfolding drain pop
  pop_front update queue s e = ground arith

  drain_open : (s : Subscriber Frame) → s.closed ≡ false → drain head resume s ≡ (s, popping, false)
  unfolding drain
  drain_open s c = ground arith

  -- If the queue is empty when the task pops, and `finish` falls between that pop and the read
  -- of `finished`, the task stops with the end frame in the queue, whatever it is told later,
  -- and the lane stays pending.
  pub finish-strands :
      (end : Frame) (signals : List Signal) (s : Subscriber Frame)
      → s.lane.queue ≡ []
      → let popped = drain popping resume s in
        let gone = drain_all (resume ∷ signals) popped.1 (finish end popped.0) in
        (gone.0 ≡ stopped)
        × (gone.1.lane.queue ≡ end ∷ [])
        × (pending gone.1 ≡ true)
        × (gone.1.closed ≡ s.closed)
  unfolding drain_all finish pending drain
  finish-strands end signals s empty =
      let stranded : Subscriber Frame =
        finish end (record s { lane = record { queue = []; in_flight = false } }) in
      rw (pop_empty s empty, drain_all-stopped signals stranded) (refl, refl, refl, refl)

  -- One round at a link that answers: the front update goes out.
  round_lem :
      (update : Frame) (queue : List Frame) (signals : List Signal) (s : Subscriber Frame)
      → s.closed ≡ false
      → s.lane.queue ≡ update ∷ queue
      → let s' = record s { lane = record { queue = queue; in_flight = false } } in
        (drain_all (resume ∷ resume ∷ sent ∷ signals) head s ≡ drain_all signals head s')
        × (emitted_all (resume ∷ resume ∷ sent ∷ signals) head s
            ≡ update ∷ emitted_all signals head s')
  unfolding drain_all emitted_all drain settle
  round_lem update queue signals s c e =
      rw (drain_open s c, pop_front update queue s e) (refl, refl)

  rounds_lem :
      (queue : List Frame) (s : Subscriber Frame)
      → s.closed ≡ false
      → s.lane.in_flight ≡ false
      → s.lane.queue ≡ queue
      → (emitted_all (rounds (length queue)) head s ≡ queue)
        × (drain_all (rounds (length queue)) head s
            ≡ (head, record s { lane = record { queue = []; in_flight = false } }))
  unfolding drain_all emitted_all
  rounds_lem [] s c f e = (refl, ground arith)
  rounds_lem (update ∷ queue) s c f e =
      let s' : Subscriber Frame = record s { lane = record { queue = queue; in_flight = false } } in
      let (steps, log) = round_lem update queue (rounds (length queue)) s c e in
      let (rest, end) = rounds_lem queue s' c refl refl in (log ∙ ap (◌∷◌ update) rest, steps ∙ end)

  -- A task at its head, whose subscriber is not closed and has nothing in flight, sends the
  -- whole queue in order if its link takes every update, and is then back at its head with an
  -- empty lane, three steps for each update.
  pub rounds-emit :
      (s : Subscriber Frame)
      → s.closed ≡ false
      → s.lane.in_flight ≡ false
      → let signals = rounds (length s.lane.queue) in
        (emitted_all signals head s ≡ s.lane.queue)
        × ((drain_all signals head s).0 ≡ head)
        × ((drain_all signals head s).1
            ≡ record s { lane = record { queue = []; in_flight = false } })
  rounds-emit s c f =
      let (log, end) = rounds_lem s.lane.queue s c f refl in
      (log, ap (λ x. x.0) end, ap (λ x. x.1) end)

  lost_link :
      (phase : Phase Frame) (update : Frame) (s : Subscriber Frame)
      → phase ≡ emitting update
      → is_nil s.lane.queue ≡ false
      → drain phase link_lost s
        ≡ (record s { lane = record (s.lane) { in_flight = false } }, closing, false)
  unfolding drain settle
  lost_link phase update s p q = rw p (ground arith)

module _ {Frame Handle : Type 0} where
  abbrev put :
      Registry Frame Handle → ℕ → Subscriber Frame → Task Frame Handle → Registry Frame Handle
  put r id s task = record r { arcs = Map.insert id s r.arcs; tasks = Map.insert id task r.tasks }

  step_at :
      (r : Registry Frame Handle) (id : ℕ) (task : Task Frame Handle) (s : Subscriber Frame)
      (signal : Signal) (s' : Subscriber Frame) (phase : Phase Frame)
      → Map.get id r.tasks ≡ some task
      → Map.get id r.arcs ≡ some s
      → drain task.phase signal s ≡ (s', phase, false)
      → drain_step r id signal ≡ put r id s' (record task { phase = phase })
  unfolding drain_step
  step_at r id task s signal s' phase t a d = ground arith

  -- When a live subscriber that is not closed and has updates still queued loses its link, then
  -- it is pending before the loss and not pending once its task has stopped, and no flush has
  -- been signalled.
  pub lost-no_flush :
      (r : Registry Frame Handle) (id : ℕ) (task : Task Frame Handle) (s : Subscriber Frame)
      (update : Frame)
      → Map.get id r.tasks ≡ some task
      → task.phase ≡ emitting update
      → live r id ≡ some s
      → is_nil s.lane.queue ≡ false
      → s.closed ≡ false
      → r.flush ≡ false
      → let r' = drain_step (drain_step r id link_lost) id resume in
        (is_pending r id ≡ true) × (is_pending r' id ≡ false) × (r'.flush ≡ false)
  unfolding is_pending pending close drain
  lost-no_flush r id task s update t p l q c f =
      let s1 : Subscriber Frame = record s { lane = record (s.lane) { in_flight = false } } in
      let r1 = put r id s1 (record task { phase = closing }) in
      let arc : Map.get id r.arcs ≡ some s = live-get r id s l in
      let first : drain_step r id link_lost ≡ r1 =
        step_at r id task s link_lost s1 closing t arc (lost_link task.phase update s p q) in
      let t1 : Map.get id r1.tasks ≡ some (record task { phase = closing }) =
        grind (arith, get-insert id id (record task { phase = closing }) r.tasks) in
      let arc1 : Map.get id r1.arcs ≡ some s1 = grind (arith, get-insert id id s1 r.arcs) in
      let second : drain_step r1 id resume
          ≡ put r1 id (close s1) (record task { phase = stopped }) =
        step_at r1 id (record task { phase = closing }) s1 resume (close s1) stopped t1 arc1 refl in
      let gone : is_pending (put r1 id (close s1) (record task { phase = stopped })) id ≡ false =
        grind (arith, get-insert id id (close s1) r1.arcs) in
      rw (first, second) (ground arith, gone, f)
