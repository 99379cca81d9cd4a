-- ===== src/Server/Registry.antt =====
-- The registry of server.rs: `ServerConnections` by the identifiers of the connections, and the two
-- receive systems of a frame. The commands of a frame run after the system, in the order in which it
-- queues them.
pub mod Sessions
use bevy_slinet.Common.{
  ℕ, zero, suc, Bool, true, false, ◌||◌, Option, none, some, List, [], ◌∷◌, ◌++◌, ◌==◌,
  if◌then◌else◌,
}
use bevy_slinet.Queue.Lossy.{Shared}
use bevy_slinet.Queue.Outgoing.{NetworkQueueSettings}
use bevy_slinet.Connection.Settings.{NetworkSettings, resolve_queues}
use bevy_slinet.Connection.Reader.{PacketReceiveEvent}
use bevy_slinet.Client.Datagrams.{Deliveries, receive_datagram_packets}

-- `IncomingMessage`: a new connection, a packet of a stream, and a closed connection.
pub data ServerMessage (P : Type 0) : Type 0 where
  established : ℕ → ServerMessage P
  stream_packet : PacketReceiveEvent P → ServerMessage P
  closed : ℕ → ServerMessage P

-- `published` are the connections marked so; `events` the messages whose event was triggered, oldest
-- first.
pub record ServerWorld (P : Type 0) : Type 0 where
  pub connections : List ℕ
  pub published : List ℕ
  pub events : List (ServerMessage P)

-- `Vec::retain` of the connections with another identifier.
unfoldable pub retain_others : ℕ → List ℕ → List ℕ
retain_others id [] = []
retain_others id (c ∷ rest) = if c == id then retain_others id rest else c ∷ retain_others id rest

module _ {P : Type 0} where
  unfoldable pub register_connection : ℕ → ServerWorld P → ServerWorld P
  register_connection id w = record w { connections = w.connections ++ (id ∷ []) }

  unfoldable pub unregister_connection : ℕ → ServerWorld P → ServerWorld P
  unfolding retain_others
  unregister_connection id w = record w { connections = retain_others id w.connections }

  abbrev pub trigger_event : ServerMessage P → ServerWorld P → ServerWorld P
  trigger_event m w = record w { events = w.events ++ (m ∷ []) }

  unfoldable pub publish_connection : ℕ → ServerWorld P → ServerWorld P
  publish_connection id w = record w { published = id ∷ w.published }

  -- The command of a message.
  unfoldable pub run_command : ServerMessage P → ServerWorld P → ServerWorld P
  unfolding register_connection unregister_connection publish_connection
  run_command (established id) w =
      trigger_event (established id) (publish_connection id (register_connection id w))
  run_command (stream_packet event) w = trigger_event (stream_packet event) w
  run_command (closed id) w = trigger_event (closed id) (unregister_connection id w)

  -- `incoming_system` with a budget, on the queued messages: those left, and the world.
  unfoldable pub receive_messages :
      ℕ → List (ServerMessage P) → ServerWorld P → List (ServerMessage P) × ServerWorld P
  unfolding run_command
  receive_messages zero messages w = (messages, w)
  receive_messages (suc budget) [] w = ([], w)
  receive_messages (suc budget) (m ∷ messages) w =
      receive_messages budget messages (run_command m w)

  -- With the budget that the settings in force give.
  unfoldable pub server_incoming_system :
      Option NetworkSettings
      → Option NetworkQueueSettings
      → List (ServerMessage P)
      → ServerWorld P
      → List (ServerMessage P) × ServerWorld P
  unfolding receive_messages resolve_queues
  server_incoming_system settings queues messages w =
      receive_messages (resolve_queues settings queues).events_per_frame messages w

  -- The server's `receive_datagram_packets`, whose rounds are those of the client's.
  unfoldable pub server_receive_datagrams :
      (ℕ × P → (ℕ → Bool) → ℕ → Bool)
      → Option NetworkSettings
      → Option NetworkQueueSettings
      → Shared (ℕ × P)
      → Deliveries P
      → Shared (ℕ × P) × Deliveries P
  unfolding resolve_queues receive_datagram_packets
  server_receive_datagrams observe settings queues q w =
      receive_datagram_packets observe (resolve_queues settings queues).events_per_frame q w
