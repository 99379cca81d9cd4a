-- ===== src/Server/Examples.antt =====
-- server.rs at fixed inputs.
use bevy_slinet.Common.{
  ℕ, suc, ◌≤◌, length, map, not, arith, word_max, ◌≡◌, refl, true, false, none, some, List, [], ◌∷◌,
  ok, err,
}
use bevy_slinet.Queue.Outgoing.{default_queue_settings}
use bevy_slinet.Connection.Settings.{resolve_queues}
use bevy_slinet.Connection.Reader.{PacketReceiveEvent, Happening, token_cancelled}
use bevy_slinet.Connection.Reader
use bevy_slinet.Queue.Lossy.{Shared, lossy_channel, drop_newest, pending, ready}
use bevy_slinet.Protocols.Transport.{TransportHandle}
use bevy_slinet.Server.Registry.Sessions.{is_among}
use bevy_slinet.Server.Tasks.{to_server, has_closed, server_receive_packets, server_lifecycle}
use bevy_slinet.Protocols.Framing.{interrupted, broken_pipe}
use bevy_slinet.Server.Registry.{
  ServerMessage, established, stream_packet, closed, ServerWorld, receive_messages,
  server_incoming_system,
}
use bevy_slinet.Server.Registry.Sessions.{Refines, server_incoming_system-Refines}
use bevy_slinet.Server.Accept.{
  AcceptStep, accepts, disconnected, polled, stopped, accept_connections,
}
use bevy_slinet.Server.Accept.Permits.{Outcome, accept_connections-Outcome}

abbrev world : ServerWorld ℕ
world = record { connections = 4 ∷ []; published = 4 ∷ []; events = [] }

abbrev messages : List (ServerMessage ℕ)
messages =
    established 5
    ∷ stream_packet (record { connection = 5; packet = 70; received_at = 9 })
    ∷ closed 4
    ∷ established 6
    ∷ []

server_incoming_system-Refines_example :
    Refines
      (resolve_queues none (some default_queue_settings)).events_per_frame
      messages
      world
      (server_incoming_system none (some default_queue_settings) messages world)
server_incoming_system-Refines_example =
    server_incoming_system-Refines none (some default_queue_settings) messages world

-- A capacity of one: the second stream is dropped, and the third is admitted after the first task.
abbrev steps : List AcceptStep
steps =
    accepts (ok 10)
    ∷ accepts (ok 11)
    ∷ accepts (err interrupted)
    ∷ polled 0 true
    ∷ polled 0 true
    ∷ polled 0 true
    ∷ disconnected 10
    ∷ accepts (ok 12)
    ∷ stopped 0
    ∷ accepts (err broken_pipe)
    ∷ accepts (ok 13)
    ∷ []

abbrev note_peer : ℕ → List ℕ → List ℕ
note_peer peer log = peer ∷ log

accept_connections-Outcome_example :
    Outcome note_peer 11 (ok []) 1 7 steps (accept_connections note_peer (ok []) 1 7 steps)
accept_connections-Outcome_example = accept_connections-Outcome note_peer 11 (ok []) 1 7 steps

accept_run :
    accept_connections note_peer (ok []) 1 7 steps
    ≡ some (record {
      is_running = false;
      listener = 10 ∷ [];
      permits = 1;
      tasks = [];
      counter = 8;
      announced = (7, 10) ∷ [];
      handed = 7 ∷ [];
      dropped = 11 ∷ [];
      logged = 12 ∷ [];
    })
unfolding accept_connections
accept_run = refl

abbrev ignored : TransportHandle (Unit {0})
ignored = record { record_drop = λ reason h. h }

abbrev happenings : List (Happening ℕ ℕ ℕ)
happenings =
    Reader.polled (ready (ok (30, 1))) (ready true)
    ∷ token_cancelled
    ∷ Reader.polled pending pending
    ∷ Reader.polled pending (ready true)
    ∷ []

abbrev incoming : Shared (PacketReceiveEvent ℕ)
incoming = lossy_channel 4 word_max drop_newest

abbrev run_messages : List (ServerMessage ℕ)
run_messages =
    established 5
    ∷ map (to_server ignored)
        (server_receive_packets ignored false 5 90 happenings incoming tt).sent

three_messages : length run_messages ≡ 3
unfolding server_receive_packets
three_messages = refl

enough : suc (length run_messages) ≤ 256
enough = omega (arith, three_messages)

server_lifecycle_example :
    is_among 5 (receive_messages 256 run_messages world).1.connections
    ≡ not
        (has_closed ignored (server_receive_packets ignored false 5 90 happenings incoming tt).sent)
server_lifecycle_example =
    server_lifecycle ignored false 5 90 happenings incoming tt 256 world enough
