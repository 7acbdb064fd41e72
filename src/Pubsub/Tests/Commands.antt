-- ===== src/Pubsub/Tests/Commands.antt =====
-- Concrete inputs for the theorems about dispatch.rs and serve.rs.
use tightbeam_ext.Prelude.{ℕ, ◌≡◌, ◌≢◌, ◌⊎◌, refl, none, some, List, [], ◌∷◌, ascii}
use tightbeam_ext.Prelude.Octets.{strip_prefix}
use tightbeam_ext.Prelude.Map
use tightbeam_ext.Prelude.Keys.{nat_eq}
use tightbeam_ext.Prelude.Result.{ok}
use tightbeam_ext.Pubsub.Topic.{Topic}
use tightbeam_ext.Pubsub.Policy.{allow_all}
use tightbeam_ext.Pubsub.Frame.{opaque_payload}
use tightbeam_ext.Pubsub.Registry.{Registry}
use tightbeam_ext.Pubsub.Registry.Members.{
  admit_connection, register_connection, register_connection_as, drop_connection, member_identity,
  remove_all,
}
use tightbeam_ext.Pubsub.Registry.Views.{holds}
use tightbeam_ext.Pubsub.Cluster
use tightbeam_ext.Pubsub.Cluster.{Cluster}
use tightbeam_ext.Pubsub.Dispatch.{
  PubsubCommands, accepted, new_commands, with_publish, subscribe, publish, publish_status, answer,
}
use tightbeam_ext.Pubsub.Dispatch.Commands.{Authorized, subscribe-outcome, publish-outcome}
use tightbeam_ext.Pubsub.Serve.{
  AppRoutes, Stream, admit, leave, serve, serve_stream, serve_streams, unrouted,
}
use tightbeam_ext.Pubsub.Serve.Lifetime.{serve-departs}
use tightbeam_ext.Pubsub.Tests.{kit, update, TestFrame}
use tightbeam_ext.Pubsub.Tests.Registries.{peopled}

abbrev one_node : Cluster TestFrame ℕ
one_node = record { local = record { orders = []; sinks = 0 ∷ [] }; nodes = (0, peopled) ∷ [] }

abbrev commands : PubsubCommands
commands = with_publish allow_all (new_commands 0 allow_all)

subscribe-outcome_example :
    (((subscribe allow_all peopled 1 (ascii "news")).1 ≡ accepted)
      × ((topic : Topic) × (id : ℕ) × Authorized peopled 1 (ascii "news") allow_all topic
          × (holds (subscribe allow_all peopled 1 (ascii "news")).0 1 topic ≡ some id)))
    ⊎ (((subscribe allow_all peopled 1 (ascii "news")).1 ≢ accepted)
        × ((subscribe allow_all peopled 1 (ascii "news")).0 ≡ peopled))
subscribe-outcome_example = subscribe-outcome allow_all peopled 1 (ascii "news")

-- A `pub/news` frame.
abbrev request : TestFrame
request = record { frame_id = ascii "pub/news"; frame_order = 0; frame_message = ascii "hi" }

publish-outcome_example :
    ((topic : Topic) × (payload : List ℕ) × Authorized peopled 1 (ascii "news") allow_all topic
      × (opaque_payload kit request ≡ ok payload)
      × (publish kit allow_all one_node 0 peopled 1 (ascii "news") request ≡ (
        (Cluster.publish kit one_node 0 topic payload).0,
        publish_status (Cluster.publish kit one_node 0 topic payload).1,
      )))
    ⊎ (((publish kit allow_all one_node 0 peopled 1 (ascii "news") request).1 ≢ accepted)
        × ((publish kit allow_all one_node 0 peopled 1 (ascii "news") request).0 ≡ one_node))
publish-outcome_example = publish-outcome kit allow_all one_node 0 peopled 1 (ascii "news") request

abbrev routes : AppRoutes TestFrame ℕ ℕ
routes = unrouted

-- The streams of connection 2: an update and a publish.
abbrev streams : List (Stream TestFrame ℕ)
streams = record { meanwhile = λ c. c; frame = update 5 } ∷ []

-- What the exit leaves: connection 1, and the next id taken.
abbrev vacated : Registry TestFrame ℕ
vacated = record peopled { next_connection = 3 }

serve-departs_example : member_identity vacated 2 ≡ none
unfolding admit register_connection_as register_connection admit_connection Map.get Map.insert leave
    serve serve_streams serve_stream answer drop_connection strip_prefix remove_all Map.remove
serve-departs_example =
    serve-departs kit commands routes 8 (some (ascii "bob")) one_node streams 2 vacated refl refl
