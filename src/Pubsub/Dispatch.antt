-- ===== src/Pubsub/Dispatch.antt =====
-- pubsub/tightbeam-pubsub/src/dispatch.rs: the wire commands `sub/`, `unsub/` and `pub/`, answered
-- against the registry at one address of a cluster.
pub mod Commands
use tightbeam_ext.Prelude.{
  ℕ, Bool, true, false, Option, none, some, List, [], ◌∷◌, ◌++◌, if◌then◌else◌, Bytes,
}
use tightbeam_ext.Prelude.Octets.{strip_prefix}
use tightbeam_ext.Prelude.Map
use tightbeam_ext.Prelude.Map.{Map}
use tightbeam_ext.Prelude.Keys.{nat_eq}
use tightbeam_ext.Prelude.Result.{Result, ok, err}
use tightbeam_ext.Pubsub.Topic.{Topic, try_from, sub_prefix, unsub_prefix, pub_prefix}
use tightbeam_ext.Pubsub.Policy.{AccessPolicy, AccessVerdict, allow, forbid}
use tightbeam_ext.Pubsub.Frame.{FrameKit, opaque_payload}
use tightbeam_ext.Pubsub.Registry.{
  Registry, RegisterError, unknown_connection, limit_reached, PublishError,
}
use tightbeam_ext.Pubsub.Registry.Members.{member_identity, register, unregister}
use tightbeam_ext.Pubsub.Cluster
use tightbeam_ext.Pubsub.Cluster.{Cluster, with_node}

-- The statuses of tightbeam's `ResponsePackage` that the crate answers; none has a body.
pub data TransitStatus : Type 0 where
  accepted invalid_argument permission_denied unavailable resource_exhausted internal
        unimplemented :
      TransitStatus

-- The registry is the node at `registry`.
pub record PubsubCommands : Type 0 where
  pub registry : ℕ
  pub policy : AccessPolicy
  pub publish : Option AccessPolicy

-- `PubsubCommands::new`.
abbrev pub new_commands : ℕ → AccessPolicy → PubsubCommands
new_commands registry policy = record { registry = registry; policy = policy; publish = none }

abbrev pub with_publish : AccessPolicy → PubsubCommands → PubsubCommands
with_publish policy commands = record commands { publish = some policy }

-- What `subscribe` answers to the registry's answer.
unfoldable pub register_status : Result ℕ RegisterError → TransitStatus
register_status (ok _) = accepted
register_status (err RegisterError.draining) = unavailable
register_status (err limit_reached) = resource_exhausted
register_status (err unknown_connection) = permission_denied

-- What `publish` answers to the registry's answer.
unfoldable pub publish_status :
    {Cause : Type 0} → Result (Unit {0}) (PublishError Cause) → TransitStatus
publish_status (ok _) = accepted
publish_status (err PublishError.draining) = unavailable
publish_status (err (PublishError.build _)) = internal
publish_status (err (PublishError.backplane _)) = unavailable

module _ {Frame Handle : Type 0} where
  unfoldable pub authorized_topic :
      Registry Frame Handle → ℕ → Bytes → AccessPolicy → Result Topic TransitStatus
  authorized_topic r connection name authorize = elim (try_from name) [
    | err _ ↦ err invalid_argument
    | ok topic ↦ elim (member_identity r connection) [
      | none ↦ err permission_denied
      | some identity ↦ elim (authorize identity topic) [
        | forbid ↦ err permission_denied
        | allow ↦ ok topic
      ]
    ]
  ]

  unfoldable pub subscribe :
      AccessPolicy → Registry Frame Handle → ℕ → Bytes → Registry Frame Handle × TransitStatus
  unfolding authorized_topic
  subscribe policy r connection name = elim (authorized_topic r connection name policy) [
    | err status ↦ (r, status)
    | ok topic ↦ let (r', answer) = register r connection topic in (r', register_status answer)
  ]

  unfoldable pub unsubscribe :
      Registry Frame Handle → ℕ → Bytes → Registry Frame Handle × TransitStatus
  unsubscribe r connection name = elim (try_from name) [
    | err _ ↦ (r, invalid_argument)
    | ok topic ↦ ((unregister r connection topic).0, accepted)
  ]

  module _ {Octets Cause : Type 0} (k : FrameKit Octets Frame Cause) where
    unfoldable pub publish :
        AccessPolicy
        → Cluster Frame Handle
        → ℕ
        → Registry Frame Handle
        → ℕ
        → Bytes
        → Frame
        → Cluster Frame Handle × TransitStatus
    publish policy cluster p r connection name frame =
        elim (authorized_topic r connection name policy) [
          | err status ↦ (cluster, status)
          | ok topic ↦ elim (opaque_payload k frame) [
            | err _ ↦ (cluster, invalid_argument)
            | ok payload ↦
                let (cluster', answer) = Cluster.publish k cluster p topic payload in
                (cluster', publish_status answer)
          ]
        ]

    -- `PubsubCommands::answer`, against the registry `r` at the commands' address.
    unfoldable pub answer_at :
        PubsubCommands
        → Cluster Frame Handle
        → Registry Frame Handle
        → ℕ
        → Frame
        → Cluster Frame Handle × Option TransitStatus
    unfolding subscribe unsubscribe publish
    answer_at commands cluster r connection frame =
        let id = k.id frame in
        elim (strip_prefix sub_prefix id) [
          | some name ↦
              let (r', status) = subscribe commands.policy r connection name in
              (with_node commands.registry r' cluster, some status)
          | none ↦ elim (strip_prefix unsub_prefix id) [
            | some name ↦
                let (r', status) = unsubscribe r connection name in
                (with_node commands.registry r' cluster, some status)
            | none ↦ elim (strip_prefix pub_prefix id) [
              | none ↦ (cluster, none)
              | some name ↦ elim commands.publish [
                | none ↦ (cluster, none)
                | some policy ↦
                    let (cluster', status) =
                      publish policy cluster commands.registry r connection name frame in
                    (cluster', some status)
              ]
            ]
          ]
        ]

    -- The commands hold their registry, so it is in the store.
    unfoldable pub answer :
        PubsubCommands
        → Cluster Frame Handle
        → ℕ
        → Frame
        → Cluster Frame Handle × Option TransitStatus
    unfolding answer_at
    answer commands cluster connection frame = elim (Map.get commands.registry cluster.nodes) [
      | none ↦ (cluster, none)
      | some r ↦ answer_at commands cluster r connection frame
    ]
