-- ===== src/Pubsub/Registry/Delivery.antt =====
-- registry.rs: `UpdateSink for Inner`, its fan-out, and the connections that the policy votes off.
pub mod Outcomes
use tightbeam_ext.Prelude.{
  ℕ, max, Bool, true, false, Option, none, some, List, [], ◌∷◌, if◌then◌else◌, Bytes,
}
use tightbeam_ext.Prelude.Map
use tightbeam_ext.Prelude.Map.{Map}
use tightbeam_ext.Prelude.Keys.{nat_eq}
use tightbeam_ext.Prelude.Result.{Result, ok, err}
use tightbeam_ext.Pubsub.Topic.{Topic, topic_eq}
use tightbeam_ext.Pubsub.Frame.{FrameKit, update_frame}
use tightbeam_ext.Pubsub.Backplane.{DeliverError, UpdateSink}
use tightbeam_ext.Pubsub.Registry.{Registry, ConnectionState, TopicState, Subscriber, live}
use tightbeam_ext.Pubsub.Registry.Lanes.{PushOutcome, push}
use tightbeam_ext.Pubsub.Registry.Members.{drop_connection}

-- What `fan_out` does with one outcome: a connection voted off joins the list.
unfoldable pub doom : PushOutcome → ℕ → List ℕ → List ℕ
doom PushOutcome.disconnect connection doomed = connection ∷ doomed
doom PushOutcome.delivered connection doomed = doomed
doom PushOutcome.dropped connection doomed = doomed

-- `last_order` never falls.
abbrev pub advance : Topic → ℕ → Map Topic TopicState → Map Topic TopicState
advance topic order =
    Map.modify topic (λ (e : TopicState). record e { last_order = max e.last_order order })

module _ {Frame Handle : Type 0} where
  -- The loop of `fan_out` over the members.
  unfoldable pub push_members :
      Registry Frame Handle → Frame → List ℕ → Registry Frame Handle × List ℕ
  unfolding live doom
  push_members r update [] = (r, [])
  push_members r update (id ∷ ids) = elim (live r id) [
    | none ↦ push_members r update ids
    | some subscriber ↦
        let (pushed, outcome) = push r.options update subscriber in
        let (r', doomed) =
          push_members (record r { arcs = Map.insert id pushed r.arcs }) update ids in
        (r', doom outcome subscriber.connection doomed)
  ]

  unfoldable pub fan_out : Registry Frame Handle → Topic → Frame → Registry Frame Handle × List ℕ
  fan_out r topic update = elim (Map.get topic r.topics) [
    | none ↦ (r, [])
    | some entry ↦ push_members r update entry.members
  ]

  -- The link is drained by a spawned task, which `goaways` records.
  unfoldable pub disconnect : Registry Frame Handle → ℕ → Registry Frame Handle
  disconnect r connection = elim (Map.get connection r.connections) [
    | none ↦ drop_connection r connection
    | some connected ↦
        let r' = drop_connection r connection in
        record r' { goaways = connected.handle ∷ r'.goaways }
  ]

  unfoldable pub disconnect_all : Registry Frame Handle → List ℕ → Registry Frame Handle
  disconnect_all r [] = r
  disconnect_all r (connection ∷ doomed) = disconnect_all (disconnect r connection) doomed

  module _ {Octets Cause : Type 0} (k : FrameKit Octets Frame Cause) where
    unfoldable pub deliver :
        Registry Frame Handle
        → Topic
        → ℕ
        → Bytes
        → Registry Frame Handle × Result (Unit {0}) (DeliverError Cause)
    unfolding fan_out
    deliver r topic order payload =
        if r.draining
        then (r, err DeliverError.draining)
        else elim (update_frame k topic order payload) [
          | err cause ↦ (r, err (DeliverError.build cause))
          | ok update ↦
              let (r', doomed) =
                fan_out (record r { topics = advance topic order r.topics }) topic update in
              (disconnect_all r' doomed, ok tt)
        ]

    abbrev pub registry_sink : UpdateSink (Registry Frame Handle) Cause
    registry_sink = record { deliver = deliver }
