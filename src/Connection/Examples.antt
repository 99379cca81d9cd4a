-- ===== src/Connection/Examples.antt =====
-- A closed connection of connection/mod.rs, and the writing task of connection/tasks.rs, at fixed
-- inputs.
use bevy_slinet.Common.{
  ℕ, ◌≡◌, refl, Bool, true, false, List, [], ◌∷◌, Result, ok, err, if◌then◌else◌, ltb,
}
use bevy_slinet.Queue.Lossy.{TrySendError, disconnected}
use bevy_slinet.Queue.Outgoing.{Channel, reliable}
use bevy_slinet.Protocols.Framing.{IoError, connection_aborted}
use bevy_slinet.Protocols.Transport.{QueueDropReason, TransportHandle}
use bevy_slinet.Connection.Handle.{EcsConnection, connection_closed, queue_closed}
use bevy_slinet.Connection.Writer.{WriterEvent, takes, idle_cancelled, send_packets}
use bevy_slinet.Connection.Writer.Losses.{Accounted, send_packets-Accounted}

abbrev log_handle : TransportHandle (List QueueDropReason)
log_handle = record { record_drop = λ reason log. reason ∷ log }

-- A channel that only knows whether its receiver is gone.
abbrev gate : Channel Bool ℕ
gate = record {
  new_channel = λ n. false;
  channel_try_send =
      λ packet gone. (if gone then err (TrySendError.closed packet) else ok tt, gone);
  max_capacity = λ gone. 1;
  free_capacity = λ gone. 1;
  close_channel = λ gone. true;
  channel_try_recv = λ gone. (err disconnected, gone);
  drop_receiver = λ gone. true;
}

abbrev gone_connection : EcsConnection Bool ℕ (List QueueDropReason)
gone_connection = record {
  is_cancelled = false;
  id = 3;
  published = true;
  packet_queue = reliable true;
  transport = [];
  local_addr = 1;
  peer_addr = 2;
}

gone_connection_closed : connection_closed gate log_handle (λ gone. gone) gone_connection ≡ true
unfolding connection_closed queue_closed
gone_connection_closed = refl

-- A writer that aborts at the packet 0.
abbrev write_log : ℕ → List ℕ → Result (Unit {0}) IoError × List ℕ
write_log packet log = (if ltb 0 packet then ok tt else err connection_aborted, packet ∷ log)

abbrev writer_events : List (WriterEvent ℕ)
writer_events =
    takes 5 false false ∷ takes 0 false false ∷ takes 6 false false ∷ idle_cancelled ∷ []

send_packets-Accounted_example :
    Accounted log_handle write_log writer_events [] []
      (send_packets log_handle write_log writer_events [] [])
send_packets-Accounted_example = send_packets-Accounted log_handle write_log writer_events [] []
