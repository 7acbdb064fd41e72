-- ===== src/Pubsub/Registry.antt =====
-- pubsub/tightbeam-pubsub/src/registry.rs: the data of one registry. `Inner` and the `State` that
-- its mutex guards are one record. A subscriber is shared (`Arc`) by the map and its delivery task:
-- it stands in `arcs` at its id, and `subscribers` holds the ids that the map has. What a spawned
-- task has still to do stands in `tasks`, the links that are being drained in `goaways`.
pub mod Lanes
pub mod Members
pub mod Delivery
pub mod Drain
pub mod Quiesce
pub mod Views
pub mod Consistency
pub mod Runs
use tightbeam_ext.Prelude.{ℕ, Bool, false, Option, none, some, List, [], if◌then◌else◌, Bytes}
use tightbeam_ext.Prelude.Map
use tightbeam_ext.Prelude.Map.{Map}
use tightbeam_ext.Prelude.IdSet
use tightbeam_ext.Prelude.Keys.{nat_eq}
use tightbeam_ext.Pubsub.Topic.{Topic}
use tightbeam_ext.Pubsub.Policy.{DeliveryPolicy, default_delivery}
use tightbeam_ext.Pubsub.Backplane.{BackplaneError, refused, unavailable, DeliverError, rejected}

abbrev pub default_queue_capacity : ℕ
default_queue_capacity = 32

abbrev pub default_max_subscriptions_per_connection : ℕ
default_max_subscriptions_per_connection = 64

-- The backplane is not a field: `Cluster` joins registries to one.
pub record RegistryOptions : Type 0 where
  pub queue_capacity : ℕ
  pub max_subscriptions_per_connection : ℕ
  pub delivery : DeliveryPolicy

abbrev pub default_options : RegistryOptions
default_options = record {
  queue_capacity = default_queue_capacity;
  max_subscriptions_per_connection = default_max_subscriptions_per_connection;
  delivery = default_delivery;
}

pub data RegisterError : Type 0 where
  unknown_connection draining limit_reached : RegisterError

pub data PublishError (Cause : Type 0) : Type 0 where
  draining : PublishError Cause
  build : Cause → PublishError Cause
  backplane : BackplaneError Cause → PublishError Cause

-- `From<BackplaneError>`.
unfoldable pub from_backplane : {Cause : Type 0} → BackplaneError Cause → PublishError Cause
from_backplane (refused DeliverError.draining) = PublishError.draining
from_backplane (refused (DeliverError.build cause)) = PublishError.build cause
from_backplane (refused rejected) = PublishError.backplane (refused rejected)
from_backplane unavailable = PublishError.backplane unavailable

pub record Lane (Frame : Type 0) : Type 0 where
  pub queue : List Frame
  pub in_flight : Bool

-- `notify` is the permit that `notify_one` stores and `notified` takes.
pub record Subscriber (Frame : Type 0) : Type 0 where
  pub topic : Topic
  pub connection : ℕ
  pub lane : Lane Frame
  pub notify : Bool
  pub dropped : ℕ
  pub closed : Bool
  pub finished : Bool

pub record TopicState : Type 0 where
  pub last_order : ℕ
  pub members : List ℕ

pub record ConnectionState (Handle : Type 0) : Type 0 where
  pub handle : Handle
  pub identity : Option Bytes
  pub topics : Map Topic ℕ

-- Where a delivery task stands: at the head of its loop, about to pop, with an empty queue seen and
-- `finished` unread, awaiting a permit, emitting an update, awaiting a stream slot for it, about to
-- close the subscriber, or gone.
pub data Phase (Frame : Type 0) : Type 0 where
  head popping checking waiting : Phase Frame
  emitting : Frame → Phase Frame
  slot : Frame → Phase Frame
  closing stopped : Phase Frame

pub record Task (Frame Handle : Type 0) : Type 0 where
  pub handle : Handle
  pub phase : Phase Frame

pub record Registry (Frame Handle : Type 0) : Type 0 where
  pub options : RegistryOptions
  pub draining : Bool
  pub next_connection : ℕ
  pub next_subscriber : ℕ
  pub topics : Map Topic TopicState
  pub connections : Map ℕ (ConnectionState Handle)
  pub subscribers : List ℕ
  pub flush : Bool
  pub arcs : Map ℕ (Subscriber Frame)
  pub tasks : Map ℕ (Task Frame Handle)
  pub goaways : List Handle

module _ {Frame Handle : Type 0} where
  -- `TopicRegistry::new`, but for the backplane.
  unfoldable pub new : RegistryOptions → Registry Frame Handle
  new options = record {
    options = options;
    draining = false;
    next_connection = 1;
    next_subscriber = 1;
    topics = [];
    connections = [];
    subscribers = [];
    flush = false;
    arcs = [];
    tasks = [];
    goaways = [];
  }

  -- `state.subscribers.get(&id)`.
  unfoldable pub live : Registry Frame Handle → ℕ → Option (Subscriber Frame)
  live r id = if IdSet.contains id r.subscribers then Map.get id r.arcs else none
