-- ===== src/Pubsub/Cluster.antt =====
-- registry.rs: the calls of `TopicRegistry` that go through the backplane, for nodes that share one
-- `Local` (backplane.rs). The registries stand in a store by address; a registry that is dropped is
-- gone from it.
pub mod Publishing
use tightbeam_ext.Prelude.{
  ℕ, Bool, true, false, Option, none, some, List, [], ◌∷◌, if◌then◌else◌, Bytes,
}
use tightbeam_ext.Prelude.Map
use tightbeam_ext.Prelude.Map.{Map}
use tightbeam_ext.Prelude.Keys.{nat_eq}
use tightbeam_ext.Prelude.Result.{Result, ok, err, map_err, ◌>>=◌}
use tightbeam_ext.Pubsub.Topic.{Topic}
use tightbeam_ext.Pubsub.Frame.{FrameKit}
use tightbeam_ext.Pubsub.Backplane
use tightbeam_ext.Pubsub.Backplane.{LocalState, empty_state}
use tightbeam_ext.Pubsub.Registry.{Registry, RegistryOptions, PublishError, from_backplane, new}
use tightbeam_ext.Pubsub.Registry.Delivery.{registry_sink}
use tightbeam_ext.Pubsub.Registry.Quiesce.{End, begin_quiesce, snapshot, reserve_ends, complete}

pub record Cluster (Frame Handle : Type 0) : Type 0 where
  pub local : LocalState
  pub nodes : Map ℕ (Registry Frame Handle)

module _ {Frame Handle : Type 0} where
  abbrev pub empty_cluster : Cluster Frame Handle
  empty_cluster = record { local = empty_state; nodes = [] }

  abbrev pub with_node : ℕ → Registry Frame Handle → Cluster Frame Handle → Cluster Frame Handle
  with_node p r cluster = record cluster { nodes = Map.insert p r cluster.nodes }

  -- `TopicRegistry::new` at the address `p`: the new node attaches itself.
  unfoldable pub create : Cluster Frame Handle → ℕ → RegistryOptions → Cluster Frame Handle
  create cluster p options =
      let nodes = Map.insert p (new options) cluster.nodes in
      record { local = Backplane.attach nodes p cluster.local; nodes = nodes }

  module _ {Octets Cause : Type 0} (k : FrameKit Octets Frame Cause) where
    -- `TopicRegistry::publish` of the node at `p`.
    unfoldable pub publish :
        Cluster Frame Handle
        → ℕ
        → Topic
        → Bytes
        → Cluster Frame Handle × Result (Unit {0}) (PublishError Cause)
    publish cluster p topic payload = elim (Map.get p cluster.nodes) [
      | none ↦ (cluster, err PublishError.draining)
      | some r ↦
          if r.draining
          then (cluster, err PublishError.draining)
          else let (local, nodes, answer) =
              Backplane.publish (registry_sink k) cluster.local cluster.nodes topic payload in
            (record { local = local; nodes = nodes }, map_err from_backplane answer)
    ]

    -- `TopicRegistry::publish_frame`.
    unfoldable pub publish_frame :
        Cluster Frame Handle
        → ℕ
        → Topic
        → Frame
        → Cluster Frame Handle × Result (Unit {0}) (PublishError Cause)
    unfolding publish
    publish_frame cluster p topic inner = elim (k.to_der inner) [
      | err cause ↦ (cluster, err (PublishError.build cause))
      | ok payload ↦ publish cluster p topic payload
    ]

    -- `TopicRegistry::quiesce` of the node at `p`, with nothing between its parts.
    unfoldable pub quiesce :
        Cluster Frame Handle → ℕ → Cluster Frame Handle × Result ℕ (PublishError Cause)
    unfolding begin_quiesce
    quiesce cluster p = elim (Map.get p cluster.nodes) [
      | none ↦ (cluster, ok 0)
      | some r ↦
          let (r', was) = begin_quiesce r in
          if was
          then (with_node p r' cluster, ok 0)
          else let (local, reserved) = reserve_ends k cluster.local (snapshot r'.topics) in
            elim reserved [
              | err cause ↦ (
                record { local = local; nodes = Map.insert p r' cluster.nodes },
                err (PublishError.build cause),
              )
              | ok ends ↦
                  let (r'', signaled) = complete r' ends in
                  (record { local = local; nodes = Map.insert p r'' cluster.nodes }, ok signaled)
            ]
    ]
