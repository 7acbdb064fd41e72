-- ===== src/Pubsub/Registry/Lanes.antt =====
-- One subscriber's lane in registry.rs: `Subscriber`'s methods and `Inner::push`.
pub mod Queueing
use tightbeam_ext.Prelude.{
  ℕ, ◌+◌, ◌%◌, ◌^◌, Bool, true, false, not, ◌||◌, List, [], ◌∷◌, ◌++◌, length, is_nil, ltb, tail,
  if◌then◌else◌,
}
use tightbeam_ext.Pubsub.Topic.{Topic}
use tightbeam_ext.Pubsub.Policy.{DeliveryVerdict, drop_oldest, drop_new}
use tightbeam_ext.Pubsub.Registry.{RegistryOptions, Lane, Subscriber}

pub data PushOutcome : Type 0 where
  delivered dropped disconnect : PushOutcome

abbrev pub u64_mod : ℕ
u64_mod = 2 ^ 64

module _ {Frame : Type 0} where
  -- `Subscriber::new`.
  unfoldable pub new_subscriber : Topic → ℕ → Subscriber Frame
  new_subscriber topic connection = record {
    topic = topic;
    connection = connection;
    lane = record { queue = []; in_flight = false };
    notify = false;
    dropped = 0;
    closed = false;
    finished = false;
  }

  unfoldable pub pending : Subscriber Frame → Bool
  pending s = s.lane.in_flight || not (is_nil s.lane.queue)

  unfoldable pub close : Subscriber Frame → Subscriber Frame
  close s = record s { closed = true; notify = true }

  abbrev pub push_back : Frame → Lane Frame → Lane Frame
  push_back update lane = record lane { queue = lane.queue ++ update ∷ [] }

  unfoldable pub finish : Frame → Subscriber Frame → Subscriber Frame
  finish end s = record s { lane = push_back end s.lane; finished = true; notify = true }

  -- `dropped.fetch_add(1)` wraps.
  abbrev pub count_drop : Subscriber Frame → Subscriber Frame
  count_drop s = record s { dropped = (s.dropped + 1) % u64_mod }

  -- What `push` does when the queue is full and the policy has spoken.
  unfoldable pub apply_verdict :
      DeliveryVerdict → Frame → Subscriber Frame → Subscriber Frame × PushOutcome
  apply_verdict drop_oldest update s = (
    record s {
      lane = record (s.lane) { queue = tail s.lane.queue ++ update ∷ [] };
      dropped = (s.dropped + 1) % u64_mod;
      notify = true;
    },
    delivered,
  )
  apply_verdict drop_new update s = (count_drop s, dropped)
  apply_verdict DeliveryVerdict.disconnect update s = (s, disconnect)

  -- `Inner::push`.
  unfoldable pub push : RegistryOptions → Frame → Subscriber Frame → Subscriber Frame × PushOutcome
  unfolding apply_verdict
  push options update s =
      if ltb (length s.lane.queue) options.queue_capacity
      then (record s { lane = push_back update s.lane; notify = true }, delivered)
      else apply_verdict (options.delivery s.topic s.dropped) update s
