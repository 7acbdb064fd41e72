-- ===== src/Pubsub/Serve.antt =====
-- pubsub/tightbeam-pubsub/src/serve.rs: the life of one served connection. The mux driver tasks and
-- the application are outside; the streams come in the order in which their handlers ran, with what
-- other threads did to the cluster before each.
pub mod Lifetime
use tightbeam_ext.Prelude.{
  ℕ, ◌+◌, ◌/◌, Bool, if◌then◌else◌, Option, none, some, List, [], ◌∷◌, Bytes,
}
use tightbeam_ext.Prelude.Map
use tightbeam_ext.Prelude.Keys.{nat_eq}
use tightbeam_ext.Pubsub.Frame.{FrameKit}
use tightbeam_ext.Pubsub.Registry.{Registry}
use tightbeam_ext.Pubsub.Registry.Members.{
  register_connection, register_connection_as, drop_connection,
}
use tightbeam_ext.Pubsub.Cluster.{Cluster, with_node}
use tightbeam_ext.Pubsub.Dispatch.{PubsubCommands, TransitStatus, unimplemented, answer}

-- `KEEPALIVE_INTERVAL` in seconds: a third of tightbeam's operation timeout, in whole seconds.
abbrev pub keepalive_interval : ℕ → ℕ
keepalive_interval default_operation_timeout = default_operation_timeout / 3

-- `keep_alive`: the probes sent, given what each ping in turn is answered; it ends at the first
-- that fails.
unfoldable pub keep_alive : List Bool → ℕ
keep_alive [] = 0
keep_alive (answered ∷ pings) = let rest = keep_alive pings in if answered then rest + 1 else 1

pub record ConnectionContext (Handle : Type 0) : Type 0 where
  pub connection : ℕ
  pub handle : Handle

-- What a stream is answered: a status with no body, or the application's own answer.
pub data Answer (Response : Type 0) : Type 0 where
  status : TransitStatus → Answer Response
  response : Response → Answer Response

-- `AppRoutes`.
abbrev pub AppRoutes : Type 0 → Type 0 → Type 0 → Type 0
AppRoutes Frame Handle Response = ConnectionContext Handle → Frame → Answer Response

unfoldable pub unrouted : {Frame Handle Response : Type 0} → AppRoutes Frame Handle Response
unrouted context frame = status unimplemented

-- One stream: what other threads did to the cluster since the one before, and its frame.
pub record Stream (Frame Handle : Type 0) : Type 0 where
  pub meanwhile : Cluster Frame Handle → Cluster Frame Handle
  pub frame : Frame

module _ {Frame Handle : Type 0} where
  -- The entry: the connection registers, anonymous or under its identity.
  unfoldable pub admit :
      PubsubCommands
      → Handle
      → Option Bytes
      → Cluster Frame Handle
      → Cluster Frame Handle × Option ℕ
  admit commands handle identity cluster = elim (Map.get commands.registry cluster.nodes) [
    | none ↦ (cluster, none)
    | some r ↦ elim identity [
      | some identity ↦
          let (r', id) = register_connection_as r handle identity in
          (with_node commands.registry r' cluster, some id)
      | none ↦
          let (r', id) = register_connection r handle in
          (with_node commands.registry r' cluster, some id)
    ]
  ]

  -- The exit, whatever ended the loop.
  unfoldable pub leave : PubsubCommands → ℕ → Cluster Frame Handle → Cluster Frame Handle
  leave commands connection cluster = elim (Map.get commands.registry cluster.nodes) [
    | none ↦ cluster
    | some r ↦ with_node commands.registry (drop_connection r connection) cluster
  ]

  module _ {Octets Cause Response : Type 0} (k : FrameKit Octets Frame Cause) where
    -- The handler of one stream: the commands first, and then the application.
    unfoldable pub serve_stream :
        PubsubCommands
        → AppRoutes Frame Handle Response
        → ConnectionContext Handle
        → Cluster Frame Handle
        → Frame
        → Cluster Frame Handle × Answer Response
    serve_stream commands app context cluster frame =
        let (cluster', answered) = answer k commands cluster context.connection frame in
        elim answered [ some s ↦ (cluster', status s) | none ↦ (cluster', app context frame) ]

    unfoldable pub serve_streams :
        PubsubCommands
        → AppRoutes Frame Handle Response
        → ConnectionContext Handle
        → Cluster Frame Handle
        → List (Stream Frame Handle)
        → Cluster Frame Handle × List (Answer Response)
    unfolding serve_stream
    serve_streams commands app context cluster [] = (cluster, [])
    serve_streams commands app context cluster (stream ∷ streams) =
        let (cluster', answered) =
          serve_stream commands app context (stream.meanwhile cluster) stream.frame in
        let (cluster'', rest) = serve_streams commands app context cluster' streams in
        (cluster'', answered ∷ rest)

    -- `serve`.
    unfoldable pub serve :
        PubsubCommands
        → AppRoutes Frame Handle Response
        → Handle
        → Option Bytes
        → Cluster Frame Handle
        → List (Stream Frame Handle)
        → Cluster Frame Handle × List (Answer Response)
    unfolding admit leave serve_streams
    serve commands app handle identity cluster streams =
        let (cluster', admitted) = admit commands handle identity cluster in
        elim admitted [
          | none ↦ (cluster', [])
          | some connection ↦
              let context : ConnectionContext Handle = record {
                connection = connection;
                handle = handle;
              } in
              let (cluster'', answers) = serve_streams commands app context cluster' streams in
              (leave commands connection cluster'', answers)
        ]
