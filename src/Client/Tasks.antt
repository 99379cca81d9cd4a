-- ===== src/Client/Tasks.antt =====
-- client.rs: the client's tasks for a connection, as instances of those that both endpoints have.
use bevy_slinet.Common.{ℕ, Bool, false, List}
use bevy_slinet.Queue.Lossy.{Shared}
use bevy_slinet.Protocols.Transport.{TransportHandle}
use bevy_slinet.Connection.Reader.{
  PacketReceiveEvent, Happening, Reading, receive_packets, start_reader,
}
use bevy_slinet.Connection.Setup.{SetupStep, Setups, run_connections, no_setups}
use bevy_slinet.Client.Attempts.{max_connection_attempts}

-- `process_connections`.
unfoldable pub client_process_connections : List SetupStep → Setups
unfolding run_connections no_setups
client_process_connections steps = run_connections max_connection_attempts steps no_setups

-- `receive_packets`, for a connection with this identifier and peer.
unfoldable pub client_receive_packets :
    {P D L H : Type 0}
    → TransportHandle H
    → Bool
    → ℕ
    → ℕ
    → List (Happening P D L)
    → Shared (PacketReceiveEvent P)
    → H
    → Reading P D L H
unfolding receive_packets start_reader
client_receive_packets transport datagram id peer_addr happenings q h =
    receive_packets transport
      (record { is_server = false; datagram = datagram; id = id; peer_addr = peer_addr }) happenings
      (start_reader q h)
