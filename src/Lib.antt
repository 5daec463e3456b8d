-- ===== src/Lib.antt =====
-- beam-socket: a WebSocket server whose nodes form a cluster. Each node runs an engine (crates/core) and
-- a mesh (crates/mesh) that joins it to its peers, and hands events to JavaScript over a bridge
-- (crates/node). This library is about what these decide; the tasks around them drive it with sockets and
-- timers, which are left out.
--
-- How the parts interact. Two nodes open a link (link.rs) and shake hands (handshake.rs, on the HELLO of
-- hello.rs and the terms of config.rs, with the comparison of crypto.rs). A link carries frames (frame.rs),
-- which leave through a bounded queue (queue.rs). Each node keeps a table of the members (swim.rs), which
-- learns from probes and from messages on the links (membership_sync.rs), and a table of what its peers
-- host (interest.rs), which decides where a relay goes; the members are probed over UDP (probe.rs). The
-- node of the mesh (node.rs) keeps one link to each peer, hands what arrives to these tables or to the
-- engine, and dials whom it lacks. In the engine a client is admitted by its address (limits.rs), gets an
-- id (ids.rs) and an entry in the registry (connection/registry.rs), joins and leaves rooms (rooms.rs),
-- belongs to a user (identity.rs), is sent frames (broadcast.rs) and has a bounded mailbox
-- (connection/backpressure.rs); the engine (engine.rs) composes these, tells the mesh which rooms and users
-- the node hosts, and relays a broadcast to the peers that host its target (cluster.rs). What happens to the
-- connections goes to JavaScript in batches (bridge.rs).
--
-- Which file models which part:
--   Prelude       shared: tests, lists, bytes and readers, UTF-8, results, 64-bit words, bit fields, maps and
--                 sets
--   Core.Ids      crates/core/src/ids.rs
--   Core.Registry crates/core/src/connection/registry.rs; `insert` is `register`
--   Core.Rooms    crates/core/src/rooms.rs; the critical sections as steps are in Rooms.Steps
--   Core.Identity crates/core/src/identity.rs, IdentityRegistry
--   Core.Authorize  crates/core/src/identity.rs, Authorizer
--   Core.Config   crates/core/src/config.rs
--   Core.Events   crates/core/src/events.rs, EventSender; the channel is a parameter
--   Core.Limits   crates/core/src/limits.rs
--   Core.Broadcast  crates/core/src/broadcast.rs; ConnHandle and CloseSignal of
--                 crates/core/src/connection/mod.rs
--   Core.Relay    crates/core/src/cluster.rs: the bodies of relays and deliver_local; Relay.Delivery is a relay
--                 from the wire to the mailboxes
--   Core.Verbs    crates/core/src/engine.rs: send, send_node, the broadcasts, close_connection, the disconnects
--                 and the sweeps of close; the relaying of crates/core/src/cluster.rs
--   Core.Engine   crates/core/src/engine.rs: join, leave, admin_close_room, and setup_connection before and
--                 after run_connection; crates/core/src/presence.rs; the setters of crates/core/src/cluster.rs
--   Core.Mailbox  crates/core/src/connection/backpressure.rs, and BackpressurePolicy of config.rs
--   Mesh.Frame    crates/mesh/src/frame.rs
--   Mesh.Queue    crates/mesh/src/queue.rs
--   Mesh.Addr     crates/mesh/src/probe.rs, put_addr and get_addr
--   Mesh.Probe    crates/mesh/src/probe.rs: the packets; the plane and its cycle are in Probe.Plane
--   Mesh.Rng      crates/mesh/src/swim.rs, Rng
--   Mesh.Swim     crates/mesh/src/swim.rs, Membership: its types in Types, the gossip list in Gossip, the
--                 methods on the table in Swim, the probe order and the helpers in Probing
--   Mesh.Sync     crates/mesh/src/membership_sync.rs
--   Mesh.Crypto   crates/mesh/src/crypto.rs, constant_time_eq
--   Mesh.Hello    crates/mesh/src/hello.rs
--   Mesh.Config   crates/mesh/src/config.rs, LinkConfig and validate
--   Mesh.Handshake  crates/mesh/src/handshake.rs: types, HELLO and terms; the steps are in Machine
--   Mesh.Interest   crates/mesh/src/interest.rs: the state; interested_peers is in Routing, the digest and its
--                 answer in Repair, the bytes in Codec
--   Mesh.Link     crates/mesh/src/link.rs: the handle, the writer and a tick of the keepalive, with
--                 LinkCounters of counters.rs; the reader is in Link.Reader, run_handshake in Link.Opening
--   Mesh.Relay    crates/mesh/src/node.rs, RelayKind and the bytes of a relay
--   Mesh.Node     crates/mesh/src/node.rs: the handlers and calls; dialing and the bodies of the loops are in
--                 Node.Loops, all of them as events in Node.Wiring
--   Bridge.Flat   crates/node/src/bridge.rs, `flat`, and EngineEvent of crates/core/src/events.rs
--   Bridge.Drain  crates/node/src/bridge.rs, drain_loop; what it delivers is decoded in Bridge.Delivery
--
-- Conventions. A struct is a record and an enum a data type, with the names of the source where they are
-- free: `local` is `own`, `Membership::suspect` is `mark_suspect`, the counter `dead` is `deaths`, and the
-- types `Routing` and `Q` are `RoutingMode` and `Mailbox`. A method that changes `self` returns the new
-- state first. Numbers are the native ℕ with the wrap of the width written out, as in a release build;
-- where the source subtracts, ℕ stops at 0. A byte is a number below 256, a string its UTF-8 bytes. A
-- HashMap is an association list, whose order stands for the order of iteration that Rust leaves open; a
-- BTreeSet is a sorted list. A mutex makes each call one step, so that an interleaving is a list of calls.
-- A DashMap is a function, and each access to it under a guard is one step: where a method makes several,
-- the steps that it has still to make are tasks of the state, and those of all tasks interleave. An id is
-- taken not to be handed out again while the cleanup of the connection that had it is pending. The steps of
-- Core.Engine are whole calls. Time, seeds and nonces are arguments; HMAC-SHA256 is a parameter with no
-- assumption but that it returns bytes, and for the probes 32 of them; the parsing of addresses and
-- networks is a parameter with none. A link handle is the number of the link's shared parts, and what a
-- peer will have sent is a list of bytes.
--
-- Fewer than 2^64 calls of `authorize` stand at once, and fewer ids than that are handed out.
--
-- Loops are structural recursion, but for four with fuel. The loops that read frames (read_loop, open_loop)
-- have one more than the bytes to come, and each frame takes at least six; write_all takes its fuel as an
-- argument and needs one more than the frames queued; the binary search has the length of its list.
--
-- Not modelled: sockets, timers and tasks (the loops around a link, a mesh node, the probe plane and a
-- connection, and Engine::start and listen), binding.rs of the Node.js addon and the TypeScript package,
-- values that are only read (metrics, reports, top rooms, handles_with_user), texts for display and the
-- reasons of closes, and floating point (the backoff schedule, queue pressure). The bytes of a mailbox
-- are counted without a bound. A write to a socket is taken to succeed.
pub mod Prelude
pub mod Core
pub mod Mesh
pub mod Bridge
