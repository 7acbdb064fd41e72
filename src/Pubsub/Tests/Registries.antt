-- ===== src/Pubsub/Tests/Registries.antt =====
-- Concrete inputs for the theorems about registries and their histories.
use tightbeam_ext.Prelude.{
  ℕ, ◌≡◌, refl, true, false, some, List, [], ◌∷◌, arith, if◌then◌else◌, ascii,
}
use tightbeam_ext.Prelude.Map
use tightbeam_ext.Prelude.IdSet
use tightbeam_ext.Prelude.Keys.{nat_eq}
use tightbeam_ext.Pubsub.Topic.{topic_eq}
use tightbeam_ext.Pubsub.Frame.{update_frame, build}
use tightbeam_ext.Pubsub.Registry.{Registry, Subscriber, waiting, new, live}
use tightbeam_ext.Pubsub.Registry.Lanes.{push, new_subscriber, finish}
use tightbeam_ext.Pubsub.Registry.Members.{admit_connection, register, enlist}
use tightbeam_ext.Pubsub.Registry.Delivery.{deliver, fan_out, push_members, disconnect_all, doom}
use tightbeam_ext.Pubsub.Registry.Drain.{drain_step, drain, pop, resume}
use tightbeam_ext.Pubsub.Registry.Quiesce.{End, begin_quiesce, complete, finish_members}
use tightbeam_ext.Pubsub.Registry.Views.{Consistent}
use tightbeam_ext.Pubsub.Registry.Runs.{registers, delivers, drains, step, run}
use tightbeam_ext.Pubsub.Registry.Runs.Agreement.{run-new-Consistent}
use tightbeam_ext.Pubsub.Registry.Runs.Completion.{AllShrink, run-AllShrink}
use tightbeam_ext.Pubsub.Registry.Runs.Wakeups.{run-new-IsAwake}
use tightbeam_ext.Pubsub.Registry.Runs.Fanout.{SameLane, deliver-pushes}
use tightbeam_ext.Pubsub.Tests.{
  kit, news, chat, two_deep, holding, update, ending, history, TestFrame,
}

-- The registry after the history.
abbrev after : Registry TestFrame ℕ
after = run kit (new two_deep) history

run-new-Consistent_example : Consistent after
run-new-Consistent_example = run-new-Consistent kit two_deep history (omega arith)

run-new-IsAwake_example : (holding (update 1 ∷ [])).notify ≡ true
unfolding run step new admit_connection register enlist new_subscriber drain_step drain pop deliver
    update_frame build fan_out push_members live push disconnect_all doom Map.get Map.insert
    Map.modify IdSet.insert IdSet.contains
run-new-IsAwake_example =
    run-new-IsAwake kit two_deep history 1 (record { handle = 7; phase = waiting })
      (holding (update 1 ∷ [])) refl refl refl refl

-- One update and then the end of `news`.
abbrev ends : List (End TestFrame)
ends = record { topic = news; order = 2; members = 1 ∷ []; frame = ending 2 } ∷ []

abbrev completed : Registry TestFrame ℕ
completed = (complete (begin_quiesce after).0 ends).0

run-AllShrink_example :
    AllShrink completed.arcs
      (run kit completed
        (drains 1 resume ∷ delivers news 3 (ascii "no") ∷ registers 1 chat ∷ [])).arcs
unfolding run step new admit_connection register enlist new_subscriber drain_step drain pop deliver
    update_frame build fan_out push_members live push disconnect_all doom Map.get Map.insert
    Map.modify IdSet.insert IdSet.contains begin_quiesce complete finish_members finish
run-AllShrink_example =
    run-AllShrink kit completed
      (drains 1 resume ∷ delivers news 3 (ascii "no") ∷ registers 1 chat ∷ []) refl refl

-- Subscribers 1 and 2 of `news` and `chat`, at connection 1.
abbrev pub peopled : Registry TestFrame ℕ
peopled = record {
  options = two_deep;
  draining = false;
  next_connection = 2;
  next_subscriber = 3;
  topics =
      (news, record { last_order = 0; members = 1 ∷ [] })
      ∷ (chat, record { last_order = 0; members = 2 ∷ [] })
      ∷ [];
  connections =
      (1, record { handle = 7; identity = some (ascii "ann"); topics = (news, 1) ∷ (chat, 2) ∷ [] })
      ∷ [];
  subscribers = 1 ∷ 2 ∷ [];
  flush = false;
  arcs = (1, holding []) ∷ (2, record (holding []) { topic = chat }) ∷ [];
  tasks = [];
  goaways = [];
}

deliver-pushes_example :
    (s' : Subscriber TestFrame) × (Map.get 1 (deliver kit peopled news 5 (ascii "hi")).0.arcs
      ≡ some s')
    × SameLane
        (if IdSet.contains {A = ℕ} 1 (1 ∷ [])
          then (push two_deep (update 5) (holding [])).0
          else holding [])
        s'
unfolding update_frame build Map.get IdSet.contains live
deliver-pushes_example =
    deliver-pushes kit peopled news 5 (ascii "hi") (update 5)
      (record { last_order = 0; members = 1 ∷ [] }) 1 (holding []) refl refl refl (refl, tt) refl
