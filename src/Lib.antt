-- ===== src/Lib.antt =====
-- Parts of tightbeam-ext: the publish/subscribe crate, pubsub/tightbeam-pubsub, a registry of
-- topics that serves multiplexed connections and the backplane that stamps and distributes
-- updates; the emitter of TypeScript codecs and the bridge of JavaScript values, in
-- asn/tightbeam-asn/src; the message stream of the WebSocket transport, ws/tightbeam-ws/src/io.rs;
-- and the browser client, ws/tightbeam-ws-wasm/src.
--
-- The parts of the first, from the bottom up (paths are from the repository's root):
--
-- Topic names, pubsub/tightbeam-pubsub/src/topic.rs, in Pubsub.Topic: `from_str` and `try_from`, over
-- the UTF-8 test of the standard library (Pubsub.Topic.Utf8). A `str` is its list of octets.
--
-- Hooks, .../policy.rs, in Pubsub.Policy: the verdicts and the default hooks. A hook of the
-- application is a function that the definitions take.
--
-- Frames, .../frame.rs, in Pubsub.Frame: `build`, `update_frame`, `end_frame` and `opaque_payload`.
-- FrameBuilder and the DER codecs come from the tightbeam and der crates, so they are the record
-- `FrameKit` of operations, and `FrameLaws` says what those crates document: a built frame carries
-- its id, its order and its body, and an octet string keeps its octets. Pubsub.Tests has an instance.
--
-- The backplane, .../backplane.rs, in Pubsub.Backplane: `Local` over a store of nodes. A node is
-- behind an `Arc`, so a `Weak` sink is an address and upgrades while the store has a node there. The
-- lock spans a whole `publish`, which is therefore one step; the closure of `retain` is `visit`, its
-- captured variables are the record `Walk`. Orders are `u64` and saturate at 2 ^ 64 - 1.
--
-- The registry, .../registry.rs, in Pubsub.Registry: `Inner` and its `State` are one record. A
-- subscriber is shared by the map and by its delivery task, so it stands in `arcs` under its id, and
-- `subscribers` holds the ids that the map has. Lanes has `Subscriber` and `push`; Members the
-- connections and subscriptions; Delivery the `UpdateSink` of a node; Drain the delivery task;
-- Quiesce the parts of `quiesce`. Each method that holds the state lock throughout is one step. The
-- delivery task is a state machine: a `Phase` says between which two of its uses of shared state it
-- stands, `drain_step` takes one step, and what the link answers comes in as a `Signal`. A `Notify`
-- is the one permit that `notify_one` stores. `Runs` has histories: any calls and any task steps in
-- any order (`Call`, `step`, `run`). Members of a topic and topics of a connection are lists where
-- the code has hash sets and maps, so one order of iteration stands for any. Identifiers wrap at
-- 2 ^ 64 as `fetch_add` does, and a theorem that needs them not to says so.
--
-- Registries over a backplane, registry.rs again, in Pubsub.Cluster: `publish`, `publish_frame` and
-- `quiesce` of the nodes that share one `Local`, which calls each node's `deliver` back.
--
-- Wire commands, .../dispatch.rs, in Pubsub.Dispatch: `answer` over `sub/`, `unsub/` and `pub/`, the
-- preamble that they share, and the statuses.
--
-- Served connections, .../serve.rs, in Pubsub.Serve: the entry, the handler of each stream, and the
-- exit of `serve`. What other threads do between two streams is any change of the cluster.
--
-- The emitter, asn/tightbeam-asn/src/emit.rs, in Asn.Emit: `discover_pairs` over the lines of a
-- declaration file, and in Asn.Emit.Rendering the generated module as `emit_codecs_ts` writes it and
-- `emit_from_paths` over an interface of the filesystem. A text is its list of characters; a
-- `BTreeSet` is a list in ascending order (Prelude.Ordered).
--
-- The JavaScript values, asn/tightbeam-asn/src/js.rs, in Asn.Js: what js-sys and wasm-bindgen do is
-- the record `Js` of operations, and `JsLaws` (Asn.Js.Fields) says what they document. `f64` is the
-- data type F64. `as_u8` and its like are `as_unsigned` and `as_signed` at their ranges.
--
-- The message stream, ws/tightbeam-ws/src/io.rs, in Ws.Io: what the socket of tungstenite will yield
-- is a list of items, its sending direction an interface, and a stream has both and its alive flag.
--
-- The browser client, ws/tightbeam-ws-wasm/src, in Ws.Wasm:
-- * build.rs in Build: a DER value is a tag with its contents, and what the der crate does is the
--   record `Der` of operations with its `DerLaws`. Sequence has `RawSequence`, Tagged its
--   `set_tagged`, Wire the `WireFrame`, Splice the `set_*` and `attach_*` operations, Config the
--   `FrameConfig` and the preimage of a commitment, Signature and Seal the operations of the profile
--   over interfaces of the CMS signer and the ciphers, Inspect `inspect_frame`. `Frame` of tightbeam
--   is opaque but for its codec; `FrameLaws` says in what order its encoding has its components. A
--   method of `&mut self` takes the value and returns the new one.
-- * streaming.rs in Streaming: a method of a handle runs to its one await, where it is a `Flight`
--   with what it took from a slot, and is resumed later. Session and Duplex have the calls and the
--   resumptions of one handle, in any order, and Sequential what the calls come to one at a time.
-- * mux.rs in Mux: status names, shutdown reasons, the claim of a serve mode, and the answer that a
--   JavaScript handler gives; a JavaScript function is a function from its arguments to what it
--   returns or throws, and `Host` is what the code does with values.
-- * work.rs, and `run_submit_work` of mux.rs, in Work: envelope, reply and submission.
-- * socket.rs in Socket, over the events that the browser dispatches; approver.rs in Approver, where
--   an exception that nothing catches and a promise that never settles are outcomes of their own
--   (`Halt`); and the composer of bindings.rs in Bindings, whose setters give the composer that they
--   leave and what they return.
-- * stream.rs in Stream, the way Ws.Io takes the native socket; Stream.Agreement sets them side by
--   side.
--
-- Prelude has what the parts share: maps as association lists with their laws, sets as lists, octet
-- strings, `Result` with `?` as the bind of a do block. The other folders have the theorems: each
-- file is named for what it shows. The Tests modules
-- have a concrete instance of every theorem below.
--
-- One loop runs on fuel, that of RawSequence over the contents of a SEQUENCE, with as many rounds as
-- there are octets: each round reads a value, which has at least one. A loop that is not over after
-- its rounds has no result there, and this never comes about. Every other recursion is on the
-- structure of a list or a number.
--
-- What is not modelled: lock poisoning (the code takes the state as it is); the tasks that drive a
-- link, and the GoAway of a connection that the policy votes off, of which `goaways` records that it
-- was started; a lock's release between the fan-out and the disconnects of one `deliver`, which are
-- one step here, as are the preamble of a command and what it then does; Display and Error texts; the
-- getters, the keys, the clock and the dialling of the browser client; the rest of the ASN.1
-- crates (asn/), the handshake of the WebSocket crate and the TypeScript clients.
pub mod Asn
pub mod Prelude
pub mod Pubsub
pub mod Ws
