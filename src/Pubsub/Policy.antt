-- ===== src/Pubsub/Policy.antt =====
-- pubsub/tightbeam-pubsub/src/policy.rs: what the hooks answer, and the default hooks. The hooks
-- themselves are the application's, so they are functions that the definitions take.
use tightbeam_ext.Prelude.{ℕ, Option, Bytes}
use tightbeam_ext.Pubsub.Topic.{Topic}

pub data DeliveryVerdict : Type 0 where
  drop_oldest drop_new disconnect : DeliveryVerdict

-- `DeliveryPolicy::on_full`: the topic, and the updates dropped so far.
abbrev pub DeliveryPolicy : Type 0
DeliveryPolicy = Topic → ℕ → DeliveryVerdict

unfoldable pub default_delivery : DeliveryPolicy
default_delivery topic dropped_so_far = drop_oldest

pub data AccessVerdict : Type 0 where
  allow forbid : AccessVerdict

-- `SubscribePolicy::authorize` and `PublishPolicy::authorize`: the identity and the topic.
abbrev pub AccessPolicy : Type 0
AccessPolicy = Option Bytes → Topic → AccessVerdict

unfoldable pub allow_all : AccessPolicy
allow_all identity topic = allow
