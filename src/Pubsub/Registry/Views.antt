-- ===== src/Pubsub/Registry/Views.antt =====
-- How the three maps of a registry are read: what a subscription is, from each of them, and when
-- they agree.
pub mod Steps
use tightbeam_ext.Prelude.{
  ℕ, ◌≤◌, ◌<◌, ◌≡◌, Bool, true, false, Option, none, some, List, [], length, is_nil,
}
use mathlib.Core.Option
use tightbeam_ext.Prelude.Map
use tightbeam_ext.Prelude.Map.{Map, Unique}
use tightbeam_ext.Prelude.IdSet
use tightbeam_ext.Prelude.Keys.{nat_eq}
use tightbeam_ext.Pubsub.Topic.{Topic, topic_eq}
use tightbeam_ext.Pubsub.Registry.{Registry, ConnectionState, TopicState, Subscriber, live}

-- The members that the topic map has.
unfoldable pub enrolled : Map Topic TopicState → Topic → ℕ → Bool
enrolled topics t id = elim (Map.get t topics) [
  | none ↦ false
  | some entry ↦ IdSet.contains id entry.members
]

-- The subscription that the connection map has.
unfoldable pub held : {Handle : Type 0} → Map ℕ (ConnectionState Handle) → ℕ → Topic → Option ℕ
held connections c t = elim (Map.get c connections) [
  | none ↦ none
  | some connected ↦ Map.get t connected.topics
]

module _ {Frame Handle : Type 0} where
  abbrev pub member : Registry Frame Handle → Topic → ℕ → Bool
  member r t id = enrolled r.topics t id

  abbrev pub holds : Registry Frame Handle → ℕ → Topic → Option ℕ
  holds r c t = held r.connections c t

  -- The subscription that the subscriber map has.
  unfoldable pub place : Registry Frame Handle → ℕ → Option (Topic × ℕ)
  unfolding live
  place r id = Option.map (λ (s : Subscriber Frame). (s.topic, s.connection)) (live r id)

  -- The subscriber map and the topic map agree.
  pub record Joined (r : Registry Frame Handle) : Type 0 where
    pub joined : (id : ℕ) (t : Topic) (c : ℕ) → place r id ≡ some (t, c) → member r t id ≡ true
    pub owned : (t : Topic) (id : ℕ) → member r t id ≡ true → (c : ℕ) × (place r id ≡ some (t, c))

  -- All three agree, a connection has each topic once and at most as many as the options allow, no
  -- topic is without members, and the next ids are above those in use.
  pub record Consistent (r : Registry Frame Handle) : Type 0 where
    pub joins : Joined r
    pub listed : (id : ℕ) (t : Topic) (c : ℕ) → place r id ≡ some (t, c) → holds r c t ≡ some id
    pub placed : (c : ℕ) (t : Topic) (id : ℕ) → holds r c t ≡ some id → place r id ≡ some (t, c)
    pub inhabited :
        (t : Topic) (entry : TopicState)
        → Map.get t r.topics ≡ some entry
        → is_nil entry.members ≡ false
    pub keyed :
        (c : ℕ) (connected : ConnectionState Handle)
        → Map.get c r.connections ≡ some connected
        → Unique connected.topics
          × (length connected.topics ≤ r.options.max_subscriptions_per_connection)
          × (c < r.next_connection)
    pub fresh : (id : ℕ) → IdSet.contains id r.subscribers ≡ true → id < r.next_subscriber
