-- ===== src/Pubsub/Registry/Drain.antt =====
-- registry.rs: the delivery task of one subscriber. `drain` and the `deliver` that it awaits are
-- one state machine: between two awaits, and between two uses of the shared state, other code may
-- run, so each of these is a step. What the link answers comes from outside.
pub mod Endings
pub mod Waking
use tightbeam_ext.Prelude.{
  ℕ, ◌+◌, ◌%◌, Bool, true, false, Option, none, some, List, [], ◌∷◌, any, is_nil, not, ◌&&◌,
  if◌then◌else◌,
}
use tightbeam_ext.Prelude.Map
use tightbeam_ext.Prelude.Map.{Map}
use tightbeam_ext.Prelude.Keys.{nat_eq}
use tightbeam_ext.Pubsub.Registry.{
  Registry, Subscriber, Lane, Phase, head, popping, checking, waiting, emitting, slot, closing,
  stopped, Task, live,
}
use tightbeam_ext.Pubsub.Registry.Lanes.{close, count_drop, pending, u64_mod}

-- `resume` runs the task up to its next step. The others are the answers of `emit_on_stream` (a
-- failure other than an `OperationFailed` loses the link) and of `wait_for_stream_slot`.
pub data Signal : Type 0 where
  resume sent streams_exhausted refused link_lost slot_opened slot_lost : Signal

-- The subscriber, the phase, and whether `registry.flush` is notified.
abbrev pub Drained : Type 0 → Type 0
Drained Frame = Subscriber Frame × Phase Frame × Bool

module _ {Frame : Type 0} where
  unfoldable pub pop : List Frame → Subscriber Frame → Drained Frame
  pop [] s = (record s { lane = record { queue = []; in_flight = false } }, checking, false)
  pop (update ∷ queue) s =
      (record s { lane = record { queue = queue; in_flight = true } }, emitting update, false)

  -- After `deliver`: the lane is idle, a flush is signalled if the queue is empty, and after a
  -- lost link the subscriber is to be closed.
  unfoldable pub settle : Bool → Subscriber Frame → Drained Frame
  settle delivered s =
      let s' = record s { lane = record (s.lane) { in_flight = false } } in
      let idle = is_nil s.lane.queue in if delivered then (s', head, idle) else (s', closing, idle)

  unfoldable pub drain : Phase Frame → Signal → Subscriber Frame → Drained Frame
  unfolding pop settle
  drain head resume s = if s.closed then (s, stopped, false) else (s, popping, false)
  drain popping resume s = pop s.lane.queue s
  drain checking resume s = if s.finished then (s, stopped, false) else (s, waiting, false)
  drain waiting resume s =
      if s.notify then (record s { notify = false }, head, false) else (s, waiting, false)
  drain (emitting update) sent s = settle true s
  drain (emitting update) streams_exhausted s = (s, slot update, false)
  drain (emitting update) refused s = settle true (count_drop s)
  drain (emitting update) link_lost s = settle false s
  drain (slot update) slot_opened s = (s, emitting update, false)
  drain (slot update) slot_lost s = settle false s
  drain closing resume s = (close s, stopped, false)
  drain phase _ s = (s, phase, false)

module _ {Frame Handle : Type 0} where
  -- One step of the task of a subscriber, which keeps its `Arc` when the map no longer has it.
  unfoldable pub drain_step : Registry Frame Handle → ℕ → Signal → Registry Frame Handle
  drain_step r id signal = elim (Map.get id r.tasks) [
    | none ↦ r
    | some task ↦ elim (Map.get id r.arcs) [
      | none ↦ r
      | some subscriber ↦
          let (s', phase, idle) = drain task.phase signal subscriber in
          record r {
            arcs = Map.insert id s' r.arcs;
            tasks = Map.insert id (record task { phase = phase }) r.tasks;
            flush = if idle then true else r.flush;
          }
    ]
  ]

  unfoldable pub is_pending : Registry Frame Handle → ℕ → Bool
  unfolding pending live
  is_pending r id = elim (live r id) [ none ↦ false | some s ↦ not s.closed && pending s ]

  -- The test of the loop of `flushed`, which awaits a flush while it holds.
  unfoldable pub has_pending : Registry Frame Handle → Bool
  unfolding is_pending
  has_pending r = any (is_pending r) r.subscribers
