-- ===== src/Lib.antt =====
-- bevy_slinet: networking for Bevy. Connections run over TCP or UDP; transport tasks and the ECS
-- exchange packets over bounded queues; packets are encoded by replaceable serializers, and on byte
-- streams each stands behind a length prefix.
--
-- Queue.Lossy models src/connection/queue/lossy.rs. `Shared` is the shared value with its state; the
-- mutex makes each method one step, so a method is a function from the shared value to its result
-- and the new shared value, with the methods' names. A `send` that waits is `send_check` and then
-- `send_round` repeated; what is told to the two `Notify` objects is logged in `signals`. Counters
-- are 64-bit words that wrap. Room states what the eviction loop computes as a plain recursion,
-- Invariant what holds between calls and what `try_send_where` does, History and Preserve follow all
-- calls of a queue's life, and Admission says what is given up for a new entry.
--
-- Queue.Outgoing models src/connection/queue/mod.rs and src/connection/send_error.rs: the queues
-- between the ECS and the tasks, and what they report to the transport. tokio's channel is a
-- parameter; the loop that empties it runs on fuel, for which one unit more than it holds is enough.
--
-- Connection.Handle models `EcsConnection` of src/connection/mod.rs, Connection.Settings
-- src/connection/settings.rs with `ReceiveLimits`, and Connection.Writer the writing task of
-- src/connection/tasks.rs with src/connection/transport.rs; what the task awaits is a list of events.
-- Connection.Reader models the reading task of src/client.rs and src/server.rs as a machine: a step is
-- a poll of the task, with what the transport and the ECS's channel give, or something that happens
-- between two polls. Ending, Liveness, Cause and Order follow any sequence of steps. Connection.Setup
-- models `run_connections` of src/connection/tasks.rs with the split of a transport into its tasks.
--
-- Client models src/client.rs: Registry `incoming_system` with the registry of connections, Datagrams
-- `receive_datagram_packets`, Attempts the requests for connections from `observe` to what
-- `ConnectionAttempt::publish` sends, and Tasks the tasks of a connection. Server models
-- src/server.rs: Registry its receive systems with the registry, Accept `accept_connections` and the
-- tasks of `establish`, Address the address that a browser publishes, and Tasks the tasks of a
-- connection with its way through the server. A frame's commands run after its system; observers are
-- a parameter, by the connections that they cancel.
--
-- Runtime models src/runtime/mod.rs and src/runtime/task.rs: futures are numbers, and Tokio's
-- executors are the steps that poll and drop them. Wait is `wait_for_tasks` on the clock's readings.
-- Browser is the runtime of src/runtime/wasm.rs over an event loop's steps.
--
-- UdpSessions models src/examples/udp_application_sessions.rs (Requests, Peers) and its session.rs
-- (Session): an application's sessions over UDP. Requests.Progress runs a request of the client
-- against the sessions of a server, with losses.
--
-- LobbyBattle models the packets and handlers of src/examples/lobby_and_battle_servers.rs: a handler's
-- calls are its actions, in order. Handoff is one connection to the battle, with its datagrams in
-- flight, and Timeouts the keepalive timers, over Bevy's `Timer` as a parameter.
--
-- Serializers.Length models src/serializers/packet_length_serializer.rs, with a number type as its
-- width in bytes, and Serializers.Crypt models src/serializers/custom_crypt.rs.
-- Serializers.Adapter models `SerializerAdapter` of src/serializers/serializer.rs.
--
-- Protocols.Framing models src/protocols/framing.rs over a stream, a packet codec, a length codec and
-- a clock, which are parameters with named laws (IsByteStream, IsByteSink, IsIncremental,
-- IsCodecPair). `read_length` loops on fuel, one unit for each round; a round adds a byte or more, so
-- one unit more than the prefix has bytes is enough. Protocols.Transport models
-- src/protocols/transport.rs.
--
-- Protocols.Udp models src/protocols/udp/: Settings settings.rs, Diagnostics diagnostics.rs, Pacing
-- pacing.rs with what the `select!` of `wait` sees as a list of timed events, Peer peer.rs and
-- Listener listener.rs. A listener's peers are cells under numbers, which stand for the identity of
-- their `Arc`; the map from addresses to peers is an association list, and the semaphore is the
-- number of its free permits. Stream models the halves of stream.rs, with what the `select!` of the
-- read half sees as a list of events and the socket's answer as an input.
-- Listener.Accept binds and wraps the listener's socket and is the loop of `accept`; Stream.Connect
-- sets up a client's stream and is `Incoming::next`. Protocols.Tcp models src/protocols/tcp.rs.
--
-- Not modelled: the inside of sockets, whose answers are arguments, the scheduling of systems, the
-- setup of Bevy's plugins, and the codecs of other crates. The runtime's plugin and the start of the
-- apps in the examples are glue. Only the lock of a mutable codec can be poisoned; the
-- others are entered also then, so theirs has no state. Log output is left out unless it is the only outcome of a request.
pub mod Common
pub mod Queue
pub mod Serializers
pub mod Protocols
pub mod Connection
pub mod LobbyBattle
pub mod Client
pub mod Server
pub mod Runtime
pub mod UdpSessions
