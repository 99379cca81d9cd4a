-- ===== src/Connection/Reader.antt =====
-- client.rs and server.rs: `receive_packets`, the task that reads a connection, which both have. It is
-- a machine that the runtime polls: between two polls the writing task, the token's other owners and
-- the other users of the datagram queue act. What the transport's `receive_with_timestamp` and the
-- channel's `send` give when they are polled is part of the poll.
pub mod Ending
pub mod Liveness
pub mod Cause
pub mod Order
mod Examples
use bevy_slinet.Common.{
  ℕ, Bool, true, false, Option, none, some, List, [], ◌∷◌, ◌++◌, Result, ok, err, if◌then◌else◌,
  map,
}
use bevy_slinet.Queue.Lossy.{Shared, Poll, pending, ready}
use bevy_slinet.Queue.Outgoing.{forward_datagram}
use bevy_slinet.Protocols.Framing.{IoError, ReceiveError, io, intentional_disconnection}
use bevy_slinet.Protocols.Transport.{TransportHandle}

-- `PacketReceiveEvent`, with the number of its connection.
pub record PacketReceiveEvent (P : Type 0) : Type 0 where
  pub connection : ℕ
  pub packet : P
  pub received_at : ℕ

-- What the task sends to the ECS: `StreamPacket` and `Closed` of `IncomingMessage`.
pub data ReaderMessage (P D L : Type 0) : Type 0 where
  stream_packet : PacketReceiveEvent P → ReaderMessage P D L
  closed : ReceiveError D L → ℕ → ReaderMessage P D L

-- The receiving end of the channel on which the writing task reports its error once.
pub data SendErrorCell : Type 0 where
  waiting : SendErrorCell
  arrived : IoError → SendErrorCell
  taken : SendErrorCell

-- Where the task awaits: in the `select!` of the loop, for the ECS to take a packet of a stream or the
-- closing message, and, on a server, for the listener to take the peer's address.
pub data ReaderPhase (P D L : Type 0) : Type 0 where
  selecting : ReaderPhase P D L
  forwarding : PacketReceiveEvent P → ReaderPhase P D L
  closing : ReceiveError D L → ReaderPhase P D L
  reporting : ReaderPhase P D L
  finished : ReaderPhase P D L

-- `evicted` are the connections told of a packet that left the datagram queue, one entry for each;
-- `sent` is what the ECS took, oldest first, and `disconnects` what the listener took.
pub record Reading (P D L H : Type 0) : Type 0 where
  pub phase : ReaderPhase P D L
  pub send_error : SendErrorCell
  pub is_cancelled : Bool
  pub is_closed : Bool
  pub queue : Shared (PacketReceiveEvent P)
  pub transport : H
  pub evicted : List ℕ
  pub sent : List (ReaderMessage P D L)
  pub disconnects : List ℕ

-- `stopped` is the runtime that drops the task; `polled` has what the transport and the channel give.
pub data Happening (P D L : Type 0) : Type 0 where
  writer_failed : IoError → Happening P D L
  token_cancelled : Happening P D L
  others_leave : Shared (PacketReceiveEvent P) → Happening P D L
  stopped : Happening P D L
  polled : Poll (Result (P × ℕ) (ReceiveError D L)) → Poll Bool → Happening P D L

-- `send_error.try_recv().map_or(error, ReceiveError::Io)`.
unfoldable pub retained : {D L : Type 0} → SendErrorCell → ReceiveError D L → ReceiveError D L
retained (arrived e) error = io e
retained waiting error = error
retained taken error = error

unfoldable pub cell_after_recv : SendErrorCell → SendErrorCell
cell_after_recv (arrived e) = taken
cell_after_recv waiting = waiting
cell_after_recv taken = taken

-- The writing task sends at most one error.
unfoldable pub report_error : IoError → SendErrorCell → SendErrorCell
report_error e waiting = arrived e
report_error e (arrived first) = arrived first
report_error e taken = taken

-- The connection: whether it is a server's, its protocol's `DATAGRAM`, its identifier and its peer.
pub record ReaderTask : Type 0 where
  pub is_server : Bool
  pub datagram : Bool
  pub id : ℕ
  pub peer_addr : ℕ

module _ {P D L H : Type 0} (transport : TransportHandle H) (task : ReaderTask) where
  -- The end of the loop with an error, up to the closing message.
  unfoldable pub end_loop : ReceiveError D L → Reading P D L H → Reading P D L H
  unfolding retained cell_after_recv
  end_loop error s = record s {
    phase = closing (retained s.send_error error);
    send_error = cell_after_recv s.send_error;
    is_cancelled = true;
    is_closed = true;
  }

  -- What `PacketForwarder::forward` leaves, with `on_evict` of the packets it displaces.
  abbrev pub keep_forwarded :
      List (PacketReceiveEvent P)
      → Shared (PacketReceiveEvent P)
      → H
      → Reading P D L H
      → Reading P D L H
  keep_forwarded evicted q h s = record s {
    queue = q;
    transport = h;
    evicted = s.evicted ++ map (λ e. e.connection) evicted;
  }

  unfoldable pub after_queueing :
      Reading P D L H
      → Bool × List (PacketReceiveEvent P) × Shared (PacketReceiveEvent P) × H
      → Reading P D L H
  unfolding end_loop
  after_queueing s (go, evicted, q, h) =
      let s' = keep_forwarded evicted q h s in
      if go then record s' { phase = selecting } else end_loop intentional_disconnection s'

  -- The `select!` around the sending of a packet of a stream, when it is polled.
  unfoldable pub poll_forward : PacketReceiveEvent P → Poll Bool → Reading P D L H → Reading P D L H
  unfolding end_loop
  poll_forward event pending s =
      if s.is_cancelled
      then end_loop intentional_disconnection s
      else record s { phase = forwarding event }
  poll_forward event (ready accepted) s =
      if s.is_cancelled
      then end_loop intentional_disconnection s
      else (if accepted
          then record s { phase = selecting; sent = s.sent ++ (stream_packet event ∷ []) }
          else end_loop intentional_disconnection s)

  unfoldable pub handle_packet :
      PacketReceiveEvent P → Poll Bool → Reading P D L H → Reading P D L H
  unfolding after_queueing poll_forward forward_datagram
  handle_packet event channel s =
      if task.datagram
      then after_queueing s (forward_datagram transport event s.queue s.transport)
      else poll_forward event channel s

  -- The `match` on what the transport gives.
  unfoldable pub after_receive :
      Poll (Result (P × ℕ) (ReceiveError D L)) → Poll Bool → Reading P D L H → Reading P D L H
  unfolding handle_packet end_loop
  after_receive pending channel s = s
  after_receive (ready (ok (packet, at))) channel s =
      handle_packet (record { connection = task.id; packet = packet; received_at = at }) channel s
  after_receive (ready (err error)) channel s = end_loop error s

  -- The biased `select!` of the loop, when it is polled.
  unfoldable pub poll_select :
      SendErrorCell
      → Poll (Result (P × ℕ) (ReceiveError D L))
      → Poll Bool
      → Reading P D L H
      → Reading P D L H
  unfolding end_loop after_receive
  poll_select (arrived e) received channel s = end_loop (io e) (record s { send_error = taken })
  poll_select waiting received channel s =
      if s.is_cancelled
      then end_loop intentional_disconnection s
      else after_receive received channel s
  poll_select taken received channel s =
      if s.is_cancelled
      then end_loop intentional_disconnection s
      else after_receive received channel s

  -- The sending of the closing message, and of the address after it.
  unfoldable pub poll_closing : ReceiveError D L → Poll Bool → Reading P D L H → Reading P D L H
  poll_closing error pending s = s
  poll_closing error (ready accepted) s = record s {
    phase = if task.is_server then reporting else finished;
    sent = if accepted then s.sent ++ (closed error task.id ∷ []) else s.sent;
  }

  unfoldable pub poll_reporting : Poll Bool → Reading P D L H → Reading P D L H
  poll_reporting pending s = s
  poll_reporting (ready accepted) s = record s {
    phase = finished;
    disconnects = if accepted then task.peer_addr ∷ s.disconnects else s.disconnects;
  }

  unfoldable pub poll_reader :
      ReaderPhase P D L
      → Poll (Result (P × ℕ) (ReceiveError D L))
      → Poll Bool
      → Reading P D L H
      → Reading P D L H
  unfolding poll_select poll_forward poll_closing poll_reporting
  poll_reader selecting received channel s = poll_select s.send_error received channel s
  poll_reader (forwarding event) received channel s = poll_forward event channel s
  poll_reader (closing error) received channel s = poll_closing error channel s
  poll_reader reporting received channel s = poll_reporting channel s
  poll_reader finished received channel s = s

  unfoldable pub reader_step : Happening P D L → Reading P D L H → Reading P D L H
  unfolding report_error poll_reader
  reader_step (writer_failed e) s = record s { send_error = report_error e s.send_error }
  reader_step token_cancelled s = record s { is_cancelled = true }
  reader_step (others_leave q) s = record s { queue = q }
  reader_step stopped s = record s { phase = finished; is_cancelled = true }
  reader_step (polled received channel) s = poll_reader s.phase received channel s

  unfoldable pub receive_packets : List (Happening P D L) → Reading P D L H → Reading P D L H
  unfolding reader_step
  receive_packets [] s = s
  receive_packets (h ∷ rest) s = receive_packets rest (reader_step h s)

-- The task as it starts, on the queue and the transport it shares.
unfoldable pub start_reader :
    {P D L H : Type 0} → Shared (PacketReceiveEvent P) → H → Reading P D L H
start_reader q h = record {
  phase = selecting;
  send_error = waiting;
  is_cancelled = false;
  is_closed = false;
  queue = q;
  transport = h;
  evicted = [];
  sent = [];
  disconnects = [];
}
