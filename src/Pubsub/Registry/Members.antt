-- ===== src/Pubsub/Registry/Members.antt =====
-- registry.rs: connections and subscriptions. Each method holds the state lock throughout, so it is
-- one step; the tasks that it spawns are recorded.
pub mod Registering
use tightbeam_ext.Prelude.{
  ℕ, ◌+◌, ◌%◌, Bool, true, false, Option, none, some, List, [], ◌∷◌, length, is_nil, leb,
  if◌then◌else◌, unwrap_or, Bytes,
}
use mathlib.Core.Option
use tightbeam_ext.Prelude.Map
use tightbeam_ext.Prelude.Map.{Map, values}
use tightbeam_ext.Prelude.IdSet
use tightbeam_ext.Prelude.Keys.{nat_eq}
use tightbeam_ext.Prelude.Result.{Result, ok, err}
use tightbeam_ext.Pubsub.Topic.{Topic, topic_eq}
use tightbeam_ext.Pubsub.Registry.{
  Registry, ConnectionState, TopicState, Subscriber, Task, head, RegisterError, unknown_connection,
  limit_reached, live,
}
use tightbeam_ext.Pubsub.Registry.Lanes.{new_subscriber, close, u64_mod}

-- The members of a topic without one of them; an emptied topic is pruned.
unfoldable pub leave : ℕ → Topic → Map Topic TopicState → Map Topic TopicState
leave id topic topics = elim (Map.get topic topics) [
  | none ↦ topics
  | some entry ↦
      let members = IdSet.remove id entry.members in
      if is_nil members
      then Map.remove topic topics
      else Map.insert topic (record entry { members = members }) topics
]

module _ {Frame Handle : Type 0} where
  unfoldable pub admit_connection :
      Registry Frame Handle → Handle → Option Bytes → Registry Frame Handle × ℕ
  admit_connection r handle identity =
      let id = r.next_connection in
      (
        record r {
          next_connection = (id + 1) % u64_mod;
          connections =
              Map.insert id (record { handle = handle; identity = identity; topics = [] })
                r.connections;
        },
        id,
      )

  unfoldable pub register_connection : Registry Frame Handle → Handle → Registry Frame Handle × ℕ
  unfolding admit_connection
  register_connection r handle = admit_connection r handle none

  unfoldable pub register_connection_as :
      Registry Frame Handle → Handle → Bytes → Registry Frame Handle × ℕ
  unfolding admit_connection
  register_connection_as r handle identity = admit_connection r handle (some identity)

  unfoldable pub member_identity : Registry Frame Handle → ℕ → Option (Option Bytes)
  member_identity r connection =
      Option.map (λ (c : ConnectionState Handle). c.identity) (Map.get connection r.connections)

  unfoldable pub identity : Registry Frame Handle → ℕ → Option Bytes
  unfolding member_identity
  identity r connection = unwrap_or none (member_identity r connection)

  -- The end of `register`: a subscriber of its own for the topic, its membership, its place among
  -- the connection's topics, and its delivery task.
  unfoldable pub enlist : Registry Frame Handle → ℕ → Topic → Handle → Registry Frame Handle
  unfolding new_subscriber
  enlist r connection topic handle =
      let id = r.next_subscriber in
      let entry : TopicState =
        unwrap_or (record { last_order = 0; members = [] }) (Map.get topic r.topics) in
      record r {
        next_subscriber = (id + 1) % u64_mod;
        arcs = Map.insert id (new_subscriber topic connection) r.arcs;
        subscribers = IdSet.insert id r.subscribers;
        topics =
            Map.insert topic (record entry { members = IdSet.insert id entry.members }) r.topics;
        connections =
            Map.modify connection
              (λ (c : ConnectionState Handle). record c { topics = Map.insert topic id c.topics })
              r.connections;
        tasks = Map.insert id (record { handle = handle; phase = head }) r.tasks;
      }

  unfoldable pub register :
      Registry Frame Handle → ℕ → Topic → Registry Frame Handle × Result ℕ RegisterError
  unfolding enlist
  register r connection topic =
      if r.draining
      then (r, err RegisterError.draining)
      else elim (Map.get connection r.connections) [
        | none ↦ (r, err unknown_connection)
        | some connected ↦ elim (Map.get topic connected.topics) [
          | some existing ↦ (r, ok existing)
          | none ↦
              if leb r.options.max_subscriptions_per_connection (length connected.topics)
              then (r, err limit_reached)
              else (enlist r connection topic connected.handle, ok r.next_subscriber)
        ]
      ]

  unfoldable pub remove_subscriber : Registry Frame Handle → ℕ → Registry Frame Handle
  unfolding leave live
  remove_subscriber r id = elim (live r id) [
    | none ↦ r
    | some subscriber ↦ record r {
      subscribers = IdSet.remove id r.subscribers;
      topics = leave id subscriber.topic r.topics;
      arcs = Map.insert id (close subscriber) r.arcs;
    }
  ]

  unfoldable pub unregister : Registry Frame Handle → ℕ → Topic → Registry Frame Handle × Bool
  unregister r connection topic = elim (Map.get connection r.connections) [
    | none ↦ (r, false)
    | some connected ↦ elim (Map.get topic connected.topics) [
      | none ↦ (r, false)
      | some id ↦ (
        remove_subscriber
            (record r {
              connections =
                  Map.insert connection
                    (record connected { topics = Map.remove topic connected.topics }) r.connections;
            })
            id,
        true,
      )
    ]
  ]

  unfoldable pub remove_all : Registry Frame Handle → List ℕ → Registry Frame Handle
  remove_all r [] = r
  remove_all r (id ∷ ids) = remove_all (remove_subscriber r id) ids

  -- `Inner::drop_connection`, which the method of `TopicRegistry` calls.
  unfoldable pub drop_connection : Registry Frame Handle → ℕ → Registry Frame Handle
  drop_connection r connection = elim (Map.get connection r.connections) [
    | none ↦ r
    | some connected ↦
        remove_all (record r { connections = Map.remove connection r.connections })
          (values connected.topics)
  ]

  unfoldable pub dropped : Registry Frame Handle → ℕ → Option ℕ
  dropped r id = Option.map (λ (s : Subscriber Frame). s.dropped) (live r id)

  unfoldable pub subscriber_count : Registry Frame Handle → Topic → ℕ
  subscriber_count r topic =
      unwrap_or 0 (Option.map (λ (e : TopicState). length e.members) (Map.get topic r.topics))
