-- ===== src/Pubsub.antt =====
-- pubsub/tightbeam-pubsub: the server side of topic pub/sub over multiplexed connections.
pub mod Topic
pub mod Policy
pub mod Frame
pub mod Backplane
pub mod Registry
pub mod Cluster
pub mod Dispatch
pub mod Serve
pub mod Tests
