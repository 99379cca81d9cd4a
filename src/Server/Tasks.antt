-- ===== src/Server/Tasks.antt =====
-- server.rs: the server's tasks for a connection, as instances of those that both endpoints have, and
-- the way of a connection through the server.
use bevy_slinet.Common.{
  ℕ, suc, ◌≤◌, ◌≡◌, inl, inr, refl, sym, ap, ◌∙◌, Bool, true, false, ◌||◌, not, List, [], ◌∷◌, ◌++◌,
  map, length, arith, All, append-nil, length-append, ◌==◌,
}
use bevy_slinet.Queue.Lossy.{Shared}
use bevy_slinet.Queue.Outgoing.{NetworkQueueSettings}
use bevy_slinet.Protocols.Framing.{ReceiveError}
use bevy_slinet.Protocols.Transport.{TransportHandle}
use bevy_slinet.Connection.Reader.{
  PacketReceiveEvent, ReaderMessage, Happening, ReaderTask, Reading, receive_packets, start_reader,
}
use bevy_slinet.Connection.Reader
use bevy_slinet.Connection.Reader.Ending.{
  IsTranscript, IsPacket, receive_packets-IsValid, IsValid-IsTranscript,
}
use bevy_slinet.Connection.Setup.{SetupStep, Setups, setup_step, run_connections, no_setups}
use bevy_slinet.Server.Registry.{
  ServerMessage, established, stream_packet, closed, ServerWorld, receive_messages,
}
use bevy_slinet.Server.Registry.Sessions.{is_among, is_open, Refines, receive_messages-Refines}

-- `ConnectedTransport::run` of the server, whose steps are those of the client's.
unfoldable pub server_run_connection : ℕ → SetupStep → Setups → Setups
unfolding setup_step
server_run_connection limit step s = setup_step limit step s

-- `process_connections`, with the limit that `setup` gives.
unfoldable pub server_process_connections : NetworkQueueSettings → List SetupStep → Setups
unfolding run_connections no_setups
server_process_connections queues steps = run_connections queues.receive_capacity steps no_setups

established_opens : (id : ℕ) (was : Bool) → (was || (id == id)) ≡ true
established_opens id was = ground arith

abbrev pub server_task : Bool → ℕ → ℕ → ReaderTask
server_task datagram id peer_addr = record {
  is_server = true;
  datagram = datagram;
  id = id;
  peer_addr = peer_addr;
}

-- A frame whose budget is not spent has handled every message.
handles_all :
    {P : Type 0} (budget : ℕ) (messages : List (ServerMessage P)) (w : ServerWorld P)
    (r : List (ServerMessage P) × ServerWorld P)
    → suc (length messages) ≤ budget
    → (f : Refines budget messages w r) → messages ≡ f.handled
handles_all budget messages w r room f = elim f.spent [
  | inl full ↦ absurd (omega (arith, room, full, ap length f.split, length-append f.handled r.0))
  | inr none_left ↦ f.split ∙ ap (λ l. f.handled ++ l) none_left ∙ append-nil f.handled
]

module _ {P D L H : Type 0} (transport : TransportHandle H) where
  -- `receive_packets`, for a connection with this identifier and peer.
  unfoldable pub server_receive_packets :
      Bool → ℕ → ℕ → List (Happening P D L) → Shared (PacketReceiveEvent P) → H → Reading P D L H
  unfolding receive_packets start_reader
  server_receive_packets datagram id peer_addr happenings q h =
      receive_packets transport (server_task datagram id peer_addr) happenings (start_reader q h)

  -- A message of the task as the server's registry reads it.
  abbrev pub to_server : ReaderMessage P D L → ServerMessage P
  to_server (Reader.stream_packet event) = stream_packet event
  to_server (Reader.closed error id) = closed id

  abbrev pub has_closed : List (ReaderMessage P D L) → Bool
  has_closed [] = false
  has_closed (Reader.stream_packet event ∷ rest) = has_closed rest
  has_closed (Reader.closed error id ∷ rest) = true

  open_packets :
      (datagram : Bool) (id peer : ℕ) (sent : List (ReaderMessage P D L)) (was : Bool)
      → All (IsPacket transport (server_task datagram id peer)) sent
      → (is_open id (map to_server sent) was ≡ was) × (has_closed sent ≡ false)
  open_packets datagram id peer [] was h = (refl, refl)
  open_packets datagram id peer (Reader.stream_packet event ∷ rest) was (u, h) =
      open_packets datagram id peer rest was h
  open_packets datagram id peer (Reader.closed error c ∷ rest) was (u, h) = absurd u

  open_closing :
      (datagram : Bool) (id peer : ℕ) (error : ReceiveError D L)
      (front : List (ReaderMessage P D L)) (was : Bool)
      → All (IsPacket transport (server_task datagram id peer)) front
      → (is_open id (map to_server (front ++ (Reader.closed error id ∷ []))) was ≡ false)
        × (has_closed (front ++ (Reader.closed error id ∷ [])) ≡ true)
  open_closing datagram id peer error [] was h = ((ground arith), refl)
  open_closing datagram id peer error (Reader.stream_packet event ∷ rest) was (u, h) =
      open_closing datagram id peer error rest was h
  open_closing datagram id peer error (Reader.closed e c ∷ rest) was (u, h) = absurd u

  open_transcript :
      (datagram : Bool) (id peer : ℕ) (sent : List (ReaderMessage P D L))
      → IsTranscript transport (server_task datagram id peer) sent
      → is_open id (map to_server sent) true ≡ not (has_closed sent)
  open_transcript datagram id peer sent (inl packets) =
      let (same, none_closed) = open_packets datagram id peer sent true packets in
      same ∙ ap not (sym none_closed)
  open_transcript datagram id peer sent (inr (front, error, e, packets)) =
      let (shut, one_closed) = open_closing datagram id peer error front true packets in
      rw e (shut ∙ ap not (sym one_closed))

  sent_IsTranscript :
      (datagram : Bool) (id peer : ℕ) (happenings : List (Happening P D L))
      (q : Shared (PacketReceiveEvent P)) (h : H)
      → IsTranscript transport
          (server_task datagram id peer)
          (server_receive_packets datagram id peer happenings q h).sent
  unfolding server_receive_packets start_reader
  sent_IsTranscript datagram id peer happenings q h =
      IsValid-IsTranscript transport (server_task datagram id peer)
        (receive_packets transport (server_task datagram id peer) happenings (start_reader q h))
        (receive_packets-IsValid transport (server_task datagram id peer) happenings
          (start_reader q h) (tt, refl))

  -- A connection of a server is in the registry from its establishment until the closing message of
  -- its reading task, and then no more: after a frame that handles the establishment and what the
  -- task has sent, in any state of the task, it is registered unless the closing message is among it.
  pub server_lifecycle :
      (datagram : Bool) (id peer : ℕ) (happenings : List (Happening P D L))
      (q : Shared (PacketReceiveEvent P)) (h : H) (budget : ℕ) (w : ServerWorld P)
      → suc (
          length (
            established id
            ∷ map to_server (server_receive_packets datagram id peer happenings q h).sent))
        ≤ budget
      → is_among id
          (receive_messages budget
            (established id
              ∷ map to_server (server_receive_packets datagram id peer happenings q h).sent)
            w).1.connections
        ≡ not (has_closed (server_receive_packets datagram id peer happenings q h).sent)
  server_lifecycle datagram id peer happenings q h budget w room =
      let sent = (server_receive_packets datagram id peer happenings q h).sent in
      let messages = established id ∷ map to_server sent in
      let f = receive_messages-Refines budget messages w in
      f.opened id
      ∙ ap (λ l. is_open id l (is_among id w.connections))
          (sym (handles_all budget messages w (receive_messages budget messages w) room f))
      ∙ ap (is_open id (map to_server sent)) (established_opens id (is_among id w.connections))
      ∙ open_transcript datagram id peer sent (sent_IsTranscript datagram id peer happenings q h)
