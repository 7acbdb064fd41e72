-- ===== src/Pubsub/Registry/Runs.antt =====
-- Histories of one registry: calls from any threads and steps of any delivery tasks, in the order in
-- which they take the locks of registry.rs.
pub mod Arcs
pub mod Fanning
pub mod Fanout
pub mod Tasks
pub mod Agreement
pub mod Completion
pub mod Wakeups
use tightbeam_ext.Prelude.{ℕ, Option, List, [], ◌∷◌, Bytes}
use tightbeam_ext.Pubsub.Topic.{Topic}
use tightbeam_ext.Pubsub.Frame.{FrameKit}
use tightbeam_ext.Pubsub.Registry.{Registry}
use tightbeam_ext.Pubsub.Registry.Members.{admit_connection, register, unregister, drop_connection}
use tightbeam_ext.Pubsub.Registry.Delivery.{deliver}
use tightbeam_ext.Pubsub.Registry.Drain.{Signal, drain_step}
use tightbeam_ext.Pubsub.Registry.Quiesce.{End, begin_quiesce, complete}

pub data Call (Frame Handle : Type 0) : Type 0 where
  admits : Handle → Option Bytes → Call Frame Handle
  registers unregisters : ℕ → Topic → Call Frame Handle
  drops : ℕ → Call Frame Handle
  delivers : Topic → ℕ → Bytes → Call Frame Handle
  drains : ℕ → Signal → Call Frame Handle
  begins : Call Frame Handle
  completes : List (End Frame) → Call Frame Handle

module _ {Octets Frame Cause Handle : Type 0} (k : FrameKit Octets Frame Cause) where
  unfoldable pub step : Registry Frame Handle → Call Frame Handle → Registry Frame Handle
  step r (admits handle identity) = (admit_connection r handle identity).0
  step r (registers c t) = (register r c t).0
  step r (unregisters c t) = (unregister r c t).0
  step r (drops c) = drop_connection r c
  step r (delivers t order payload) = (deliver k r t order payload).0
  step r (drains id signal) = drain_step r id signal
  step r begins = (begin_quiesce r).0
  step r (completes ends) = (complete r ends).0

  unfoldable pub run : Registry Frame Handle → List (Call Frame Handle) → Registry Frame Handle
  run r [] = r
  run r (call ∷ calls) = run (step r call) calls
