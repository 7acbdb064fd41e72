-- ===== src/Pubsub/Backplane.antt =====
-- pubsub/tightbeam-pubsub/src/backplane.rs: who stamps a topic's updates and how they reach the
-- nodes. A node is shared (`Arc`), so the nodes stand in a store by address, and a `Weak` sink is
-- an address: it upgrades while the store has a node there.
pub mod Walks
pub mod Stamps
pub mod Density
use tightbeam_ext.Prelude.{
  ℕ, ◌+◌, ◌-◌, ◌^◌, min, Bool, true, false, not, Option, none, some, List, [], ◌∷◌, ◌++◌, is_some,
  if◌then◌else◌, unwrap_or, or_else, Bytes,
}
use tightbeam_ext.Prelude.Map
use tightbeam_ext.Prelude.Map.{Map}
use tightbeam_ext.Prelude.Keys.{nat_eq}
use tightbeam_ext.Prelude.Result.{Result, ok, err}
use tightbeam_ext.Pubsub.Topic.{Topic, topic_eq}

pub data DeliverError (Cause : Type 0) : Type 0 where
  draining : DeliverError Cause
  build : Cause → DeliverError Cause
  rejected : DeliverError Cause

-- Only a node that is leaving refuses softly.
unfoldable pub is_hard : {Cause : Type 0} → DeliverError Cause → Bool
is_hard draining = false
is_hard (build cause) = true
is_hard rejected = true

-- `unavailable` boxes an error of a remote fabric, which `Local` never makes.
pub data BackplaneError (Cause : Type 0) : Type 0 where
  refused : DeliverError Cause → BackplaneError Cause
  unavailable : BackplaneError Cause

-- `UpdateSink`: a node of type `S` takes one sequenced update.
pub record UpdateSink (S Cause : Type 0) : Type 0 where
  pub deliver : S → Topic → ℕ → Bytes → S × Result (Unit {0}) (DeliverError Cause)

pub record LocalState : Type 0 where
  pub orders : Map Topic ℕ
  pub sinks : List ℕ

abbrev pub empty_state : LocalState
empty_state = record { orders = []; sinks = [] }

abbrev pub u64_max : ℕ
u64_max = 2 ^ 64 - 1

-- `Local::last_order`.
unfoldable pub last_order : LocalState → Topic → ℕ
last_order state topic = unwrap_or 0 (Map.get topic state.orders)

-- The stamp that `publish` and `reserve_order` claim: `saturating_add(1)`.
unfoldable pub next_order : LocalState → Topic → ℕ
unfolding last_order
next_order state topic = min (last_order state topic + 1) u64_max

unfoldable pub reserve_order : LocalState → Topic → LocalState × ℕ
unfolding next_order
reserve_order state topic =
    let order = next_order state topic in
    (record state { orders = Map.insert topic order state.orders }, order)

-- What the `retain` closure of `publish` has captured.
pub record Walk (S Cause : Type 0) : Type 0 where
  pub nodes : Map ℕ S
  pub kept : List ℕ
  pub delivered_any : Bool
  pub first_hard : Option (DeliverError Cause)
  pub first_soft : Option (DeliverError Cause)

module _ {S : Type 0} where
  -- `retain(|existing| existing.strong_count() > 0)`.
  unfoldable pub live_sinks : Map ℕ S → List ℕ → List ℕ
  live_sinks nodes [] = []
  live_sinks nodes (p ∷ ps) =
      if is_some (Map.get p nodes) then p ∷ live_sinks nodes ps else live_sinks nodes ps

  unfoldable pub attach : Map ℕ S → ℕ → LocalState → LocalState
  unfolding live_sinks
  attach nodes sink state = record state { sinks = live_sinks nodes state.sinks ++ sink ∷ [] }

module _ {S Cause : Type 0} where
  unfoldable pub note : Walk S Cause → Result (Unit {0}) (DeliverError Cause) → Walk S Cause
  note w (ok _) = record w { delivered_any = true }
  note w (err cause) =
      if is_hard cause
      then record w { first_hard = or_else w.first_hard (some cause) }
      else record w { first_soft = or_else w.first_soft (some cause) }

  module _ (sink : UpdateSink S Cause) (topic : Topic) (order : ℕ) (payload : Bytes) where
    -- One call of the closure.
    unfoldable pub visit : Walk S Cause → ℕ → Walk S Cause
    unfolding note
    visit w p = elim (Map.get p w.nodes) [
      | none ↦ w
      | some node ↦
          let (node', answer) = sink.deliver node topic order payload in
          note (record w { nodes = Map.insert p node' w.nodes; kept = w.kept ++ p ∷ [] }) answer
    ]

    unfoldable pub walk : Walk S Cause → List ℕ → Walk S Cause
    walk w [] = w
    walk w (p ∷ ps) = walk (visit w p) ps

  abbrev pub start : Map ℕ S → Walk S Cause
  start nodes = record {
    nodes = nodes;
    kept = [];
    delivered_any = false;
    first_hard = none;
    first_soft = none;
  }

  -- What follows the loop: whether the stamp burns, and the answer.
  unfoldable pub settle : Walk S Cause → Bool × Result (Unit {0}) (BackplaneError Cause)
  settle w =
      if w.delivered_any
      then elim w.first_hard [ some refusal ↦ (true, err (refused refusal)) | none ↦ (true, ok tt) ]
      else elim (or_else w.first_hard w.first_soft) [
        | some refusal ↦ (false, err (refused refusal))
        | none ↦ (true, ok tt)
      ]

  -- `Local::publish`, over the store of the nodes.
  unfoldable pub publish :
      UpdateSink S Cause
      → LocalState
      → Map ℕ S
      → Topic
      → Bytes
      → LocalState × Map ℕ S × Result (Unit {0}) (BackplaneError Cause)
  unfolding next_order
  publish sink state nodes topic payload =
      let order = next_order state topic in
      let w = walk sink topic order payload (start nodes) state.sinks in
      let (burns, answer) = settle w in
      (
        record {
          orders = if burns then Map.insert topic order state.orders else state.orders;
          sinks = w.kept;
        },
        w.nodes,
        answer,
      )
