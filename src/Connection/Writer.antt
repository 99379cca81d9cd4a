-- ===== src/Connection/Writer.antt =====
-- connection/tasks.rs and connection/transport.rs: the task that writes a connection's packets. What
-- it awaits is a list of events; the transport's writer is a parameter.
pub mod Losses
use bevy_slinet.Common.{
  ℕ, zero, suc, ◌+◌, ◌≤◌, ◌≡◌, refl, Bool, true, false, Option, none, some, List, [], ◌∷◌, Result,
  ok, err, if◌then◌else◌, arith, ap, sym,
}
use bevy_slinet.Protocols.Framing.{IoError, connection_aborted}
use bevy_slinet.Protocols.Transport.{
  QueueDropReason, closed_before_delivery, TransportHandle, record_drops,
}

-- `takes packet cancelled interrupted`: the queue gives a packet; `cancelled` is what the test of the
-- token finds, and `interrupted` says whether the token is cancelled before the writer is done.
pub data WriterEvent (P : Type 0) : Type 0 where
  idle_cancelled : WriterEvent P
  queue_ended : WriterEvent P
  takes : P → Bool → Bool → WriterEvent P

unfoldable pub is_aborted : Result (Unit {0}) IoError → Bool
is_aborted (err connection_aborted) = true
is_aborted _ = false

module _ {W P H : Type 0} (handle : TransportHandle H)
    (write : P → W → Result (Unit {0}) IoError × W) where
  -- `PendingPacket`, finished with a result and dropped.
  unfoldable pub finish_pending : Result (Unit {0}) IoError → H → H
  unfolding is_aborted
  finish_pending result h =
      if is_aborted result then handle.record_drop closed_before_delivery h else h

  -- The task as it stands: whether it has ended, and then with the token cancelled; the error it
  -- reports to the reader; the states of the writer and the transport; and the events to come. (A
  -- write that is interrupted ends the writer, so what it did to the state is not kept.)
  pub record Writing : Type 0 where
    pub has_ended : Bool
    pub send_error : Option IoError
    pub writer : W
    pub transport : H
    pub left : List (WriterEvent P)

  abbrev pub ended : Option IoError → W → H → List (WriterEvent P) → Writing
  ended e w h events = record {
    has_ended = true;
    send_error = e;
    writer = w;
    transport = h;
    left = events;
  }

  -- The end of a round of the loop.
  unfoldable pub after_write :
      (W → H → Writing) → List (WriterEvent P) → H → Result (Unit {0}) IoError × W → Writing
  unfolding finish_pending
  after_write rest events h (ok u, w) = rest w (finish_pending (ok u) h)
  after_write rest events h (err e, w) = ended (some e) w (finish_pending (err e) h) events

  unfoldable pub send_packets : List (WriterEvent P) → W → H → Writing
  unfolding after_write
  send_packets [] w h = record {
    has_ended = false;
    send_error = none;
    writer = w;
    transport = h;
    left = [];
  }
  send_packets (idle_cancelled ∷ events) w h = ended none w h events
  send_packets (queue_ended ∷ events) w h = ended none w h events
  send_packets (takes packet true interrupted ∷ events) w h =
      ended none w (handle.record_drop closed_before_delivery h) events
  send_packets (takes packet false true ∷ events) w h =
      ended none w (handle.record_drop closed_before_delivery h) events
  send_packets (takes packet false false ∷ events) w h =
      after_write (send_packets events) events h (write packet w)
