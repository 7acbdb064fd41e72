-- ===== src/Pubsub/Tests/Lanes.antt =====
-- Concrete inputs for the theorems about one subscriber's lane and its delivery task.
use tightbeam_ext.Prelude.{◌≡◌, ◌≤◌, refl, true, false, [], ◌∷◌, length, arith}
use tightbeam_ext.Prelude.Map
use tightbeam_ext.Prelude.IdSet
use tightbeam_ext.Pubsub.Policy.{default_delivery}
use tightbeam_ext.Pubsub.Registry.{Registry, Task, head, popping, stopped, emitting, live}
use tightbeam_ext.Pubsub.Registry.Lanes.{push, pending, finish}
use tightbeam_ext.Pubsub.Registry.Lanes.Queueing.{
  newest, push_all, push-length-le, push_all-drop_oldest,
}
use tightbeam_ext.Pubsub.Registry.Drain.{drain, drain_step, resume, link_lost, is_pending}
use tightbeam_ext.Pubsub.Registry.Drain.Endings.{
  drain_all, emitted_all, rounds, finish-strands, rounds-emit, lost-no_flush,
}
use tightbeam_ext.Pubsub.Tests.{TestFrame, two_deep, holding, update, ending, news}

push-length-le_example :
    length (push two_deep (update 3) (holding (update 1 ∷ update 2 ∷ []))).0.lane.queue ≤ 2
push-length-le_example =
    push-length-le two_deep (update 3) (holding (update 1 ∷ update 2 ∷ [])) (omega arith)

push_all-drop_oldest_example :
    (push_all two_deep (update 2 ∷ update 3 ∷ []) (holding (update 1 ∷ []))).lane.queue
    ≡ newest 2 (update 1 ∷ update 2 ∷ update 3 ∷ [])
unfolding default_delivery
push_all-drop_oldest_example =
    push_all-drop_oldest two_deep (update 2 ∷ update 3 ∷ []) (holding (update 1 ∷ [])) (λ t n. refl)
      (omega arith) (omega arith)

finish-strands_example :
    let popped = drain popping resume (holding []) in
    let gone = drain_all (resume ∷ resume ∷ []) popped.1 (finish (ending 2) popped.0) in
    (gone.0 ≡ stopped)
    × (gone.1.lane.queue ≡ ending 2 ∷ [])
    × (pending gone.1 ≡ true)
    × (gone.1.closed ≡ false)
finish-strands_example = finish-strands (ending 2) (resume ∷ []) (holding []) refl

rounds-emit_example :
    (emitted_all (rounds 2) head (holding (update 1 ∷ update 2 ∷ [])) ≡ update 1 ∷ update 2 ∷ [])
    × ((drain_all (rounds 2) head (holding (update 1 ∷ update 2 ∷ []))).0 ≡ head)
    × ((drain_all (rounds 2) head (holding (update 1 ∷ update 2 ∷ []))).1 ≡ holding [])
rounds-emit_example = rounds-emit (holding (update 1 ∷ update 2 ∷ [])) refl refl

abbrev sending : Task TestFrame Unit
sending = record { handle = tt; phase = emitting (update 1) }

-- Subscriber 1 has sent its first update off and has a second one queued.
abbrev busy : Registry TestFrame Unit
busy = record {
  options = two_deep;
  draining = false;
  next_connection = 2;
  next_subscriber = 2;
  topics = (news, record { last_order = 2; members = 1 ∷ [] }) ∷ [];
  connections = [];
  subscribers = 1 ∷ [];
  flush = false;
  arcs = (1, holding (update 2 ∷ [])) ∷ [];
  tasks = (1, sending) ∷ [];
  goaways = [];
}

lost-no_flush_example :
    (is_pending busy 1 ≡ true)
    × (is_pending (drain_step (drain_step busy 1 link_lost) 1 resume) 1 ≡ false)
    × ((drain_step (drain_step busy 1 link_lost) 1 resume).flush ≡ false)
unfolding live Map.get IdSet.contains
lost-no_flush_example =
    lost-no_flush busy 1 sending (holding (update 2 ∷ [])) (update 1) refl refl refl refl refl refl
