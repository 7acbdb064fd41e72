-- ===== src/Pubsub/Serve/Lifetime.antt =====
-- serve.rs: a served connection from its entry to its exit.
use tightbeam_ext.Prelude.{
  ℕ, ◌≡◌, refl, sym, ◌∙◌, ap, Option, none, some, List, arith, Option-cases, inl, inr, ==_iff,
  Bytes,
}
use tightbeam_ext.Prelude.Map
use tightbeam_ext.Prelude.Map.{get-insert}
use tightbeam_ext.Prelude.Keys.{nat_eq}
use tightbeam_ext.Pubsub.Topic.Names.{IsName}
use tightbeam_ext.Pubsub.Frame.{FrameKit}
use tightbeam_ext.Pubsub.Registry.{Registry}
use tightbeam_ext.Pubsub.Registry.Members.{drop_connection, member_identity}
use tightbeam_ext.Pubsub.Registry.Consistency.Departures.{drop_connection-connections}
use tightbeam_ext.Pubsub.Cluster.{Cluster}
use tightbeam_ext.Pubsub.Dispatch.{PubsubCommands}
use tightbeam_ext.Pubsub.Dispatch.Commands.{answer-IsName}
use tightbeam_ext.Pubsub.Serve.{
  ConnectionContext, AppRoutes, Stream, admit, leave, serve_stream, serve_streams, serve,
}

module _ {Frame Handle : Type 0} where
  leave-identity :
      (commands : PubsubCommands) (c : ℕ) (cluster : Cluster Frame Handle)
      (r' : Registry Frame Handle)
      → Map.get commands.registry (leave commands c cluster).nodes ≡ some r'
      → member_identity r' c ≡ none
  unfolding leave member_identity
  leave-identity commands c cluster r' e =
      elim (Option-cases (Map.get commands.registry cluster.nodes)) [
        | inl gone ↦ absurd (ground arith)
        | inr (r, there) ↦
            let r'_is : r' ≡ drop_connection r c = grind (
              arith,
              get-insert commands.registry commands.registry (drop_connection r c) cluster.nodes,
              ==_iff commands.registry commands.registry,
            ) in
            let unknown : Map.get c r'.connections ≡ none =
              ap (λ (x : Registry Frame Handle). Map.get c x.connections) r'_is
              ∙ drop_connection-connections r c c
              ∙ grind (arith, ==_iff c c) in
            rw unknown refl
      ]

  module _ {Octets Cause Response : Type 0} (k : FrameKit Octets Frame Cause) where
    -- However the streams of a connection went and whatever other threads did between them, a
    -- registry that is there once the serving has ended does not know the connection that the
    -- entry admitted.
    pub serve-departs :
        (commands : PubsubCommands) (app : AppRoutes Frame Handle Response) (handle : Handle)
        (identity : Option Bytes) (cluster : Cluster Frame Handle)
        (streams : List (Stream Frame Handle)) (c : ℕ) (r' : Registry Frame Handle)
        → (admit commands handle identity cluster).1 ≡ some c
        → Map.get commands.registry (serve k commands app handle identity cluster streams).0.nodes
          ≡ some r'
        → member_identity r' c ≡ none
    unfolding serve
    serve-departs commands app handle identity cluster streams c r' e g =
        let entered = (admit commands handle identity cluster).0 in
        let context : ConnectionContext Handle = record { connection = c; handle = handle } in
        let served = serve_streams k commands app context entered streams in
        let left : (serve k commands app handle identity cluster streams).0
            ≡ leave commands c served.0 =
          rw (e, serve) refl in
        leave-identity commands c served.0 r'
          (sym (ap (λ (x : Cluster Frame Handle). Map.get commands.registry x.nodes) left) ∙ g)

    -- A stream whose frame has a topic's name for its id goes to the application, and the
    -- commands have changed nothing.
    pub serve_stream-IsName :
        (commands : PubsubCommands) (app : AppRoutes Frame Handle Response)
        (context : ConnectionContext Handle) (cluster : Cluster Frame Handle) (frame : Frame)
        → IsName (k.id frame)
        → serve_stream k commands app context cluster frame ≡ (cluster, app context frame)
    unfolding serve_stream
    serve_stream-IsName commands app context cluster frame named =
        let none_answered = answer-IsName k commands cluster context.connection frame named in
        grind (arith, none_answered)
