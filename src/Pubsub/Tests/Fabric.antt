-- ===== src/Pubsub/Tests/Fabric.antt =====
-- Concrete inputs for the theorems about `Local` and about clusters.
use tightbeam_ext.Prelude.{ℕ, ◌≡◌, ◌+◌, refl, some, List, [], ◌∷◌, arith, length, ascii}
use tightbeam_ext.Prelude.Map
use tightbeam_ext.Prelude.Map.{Map}
use tightbeam_ext.Prelude.IdSet
use tightbeam_ext.Prelude.Keys.{nat_eq}
use tightbeam_ext.Prelude.Result.{ok, err}
use tightbeam_ext.Pubsub.Topic.{topic_eq}
use tightbeam_ext.Pubsub.Frame.{update_frame, build}
use tightbeam_ext.Pubsub.Backplane
use tightbeam_ext.Pubsub.Backplane.{
  DeliverError, BackplaneError, refused, UpdateSink, LocalState, last_order, next_order, live_sinks,
  reserve_order, u64_max,
}
use tightbeam_ext.Pubsub.Backplane.Walks.{answers}
use tightbeam_ext.Pubsub.Backplane.Density.{
  publishes, reserves, CountsFrom, stamps, stamps-CountsFrom,
}
use tightbeam_ext.Pubsub.Registry.{Registry, PublishError, new}
use tightbeam_ext.Pubsub.Registry.Delivery.{deliver, registry_sink}
use tightbeam_ext.Pubsub.Cluster.{Cluster, publish, quiesce}
use tightbeam_ext.Pubsub.Cluster.Publishing.{publish-reaches, quiesce-seals}
use tightbeam_ext.Pubsub.Tests.{kit, news, chat, two_deep, TestCause, TestFrame}

abbrev node : Registry TestFrame ℕ
node = new two_deep

abbrev sink : UpdateSink (Registry TestFrame ℕ) TestCause
sink = registry_sink kit

abbrev two_nodes : Map ℕ (Registry TestFrame ℕ)
two_nodes = (0, node) ∷ (1, node) ∷ []

abbrev attached : LocalState
attached = record { orders = (news, 4) ∷ []; sinks = 0 ∷ 1 ∷ [] }

abbrev pub pair : Cluster TestFrame ℕ
pair = record { local = attached; nodes = two_nodes }

abbrev three_calls : List Backplane.Density.FabricCall
three_calls = publishes news (ascii "hi") ∷ reserves chat ∷ reserves news ∷ []

stamps-CountsFrom_example :
    CountsFrom (last_order attached news) (stamps sink news attached two_nodes three_calls).0
    × (last_order (stamps sink news attached two_nodes three_calls).1 news
        ≡ last_order attached news + length (stamps sink news attached two_nodes three_calls).0)
unfolding IdSet.contains last_order next_order reserve_order stamps Map.get Map.insert
    Backplane.publish Backplane.walk Backplane.visit Backplane.note Backplane.settle deliver
    update_frame build new answers
stamps-CountsFrom_example =
    stamps-CountsFrom sink news attached two_nodes three_calls (refl, (refl, tt)) (omega arith)

publish-reaches_example :
    let order = next_order attached news in
    ((update : TestFrame) × (update_frame kit news order (ascii "hi") ≡ ok update))
    × (Map.get 1 (publish kit pair 0 news (ascii "hi")).0.nodes
        ≡ some (deliver kit node news order (ascii "hi")).0)
    × ((deliver kit node news order (ascii "hi")).1 ≡ ok tt)
unfolding IdSet.contains publish Backplane.publish Backplane.walk Backplane.visit Backplane.note
    Backplane.settle deliver update_frame build Map.get Map.insert new
publish-reaches_example =
    publish-reaches kit pair 0 1 news (ascii "hi") node node (refl, (refl, tt)) refl refl refl refl
      refl refl

quiesce-seals_example :
    let sealed = (quiesce kit pair 0).0 in
    (quiesce kit sealed 0 ≡ (sealed, ok 0))
    × (publish kit sealed 0 news (ascii "hi") ≡ (sealed, err PublishError.draining))
unfolding Map.get
quiesce-seals_example = quiesce-seals kit pair 0 news (ascii "hi") node refl
