-- ===== src/Connection/Reader/Examples.antt =====
-- The reading task of client.rs and server.rs at fixed inputs: a stream's task that sends one packet,
-- waits with the second, and learns that the writing task failed.
use bevy_slinet.Common.{ℕ, ◌≤◌, ◌≡◌, refl, true, false, List, [], ◌∷◌, ◌++◌, ok, arith, word_max}
use bevy_slinet.Queue.Lossy.{lossy_channel, drop_newest, pending, ready}
use bevy_slinet.Protocols.Framing.{io, broken_pipe}
use bevy_slinet.Protocols.Transport.{QueueDropReason, TransportHandle}
use bevy_slinet.Connection.Reader.{
  stream_packet, closed, arrived, finished, Reading, Happening, writer_failed, token_cancelled,
  polled, ReaderTask, receive_packets, start_reader,
}
use bevy_slinet.Connection.Reader.Ending.{IsValid, receive_packets-IsValid}
use bevy_slinet.Connection.Reader.Liveness.{ready_polls, receive_packets_ends}
use bevy_slinet.Connection.Reader.Cause.{Retains, receive_packets-Retains}
use bevy_slinet.Connection.Reader.Order.{Ordered, given_in, receive_packets-Ordered}

abbrev log_handle : TransportHandle (List QueueDropReason)
log_handle = record { record_drop = λ reason log. reason ∷ log }

abbrev stream_task : ReaderTask
stream_task = record { is_server = true; datagram = false; id = 5; peer_addr = 77 }

abbrev LoggedReading : Type 0
LoggedReading = Reading ℕ ℕ ℕ (List QueueDropReason)

abbrev begins : LoggedReading
begins = start_reader (lossy_channel 4 word_max drop_newest) []

abbrev happenings : List (Happening ℕ ℕ ℕ)
happenings =
    polled (ready (ok (10, 1))) (ready true)
    ∷ polled (ready (ok (11, 2))) pending
    ∷ writer_failed broken_pipe
    ∷ token_cancelled
    ∷ polled pending pending
    ∷ polled pending (ready true)
    ∷ polled pending (ready true)
    ∷ []

begins-IsValid : IsValid log_handle stream_task begins
unfolding start_reader
begins-IsValid = (tt, refl)

receive_packets-IsValid_example :
    IsValid log_handle stream_task (receive_packets log_handle stream_task happenings begins)
receive_packets-IsValid_example =
    receive_packets-IsValid log_handle stream_task happenings begins begins-IsValid

-- The task with its token cancelled from the start.
abbrev cancelled : LoggedReading
cancelled = record begins { is_cancelled = true }

three_polls : 3 ≤ ready_polls log_handle stream_task (polled pending (ready false) ∷ happenings)
three_polls = omega arith

receive_packets_ends_example :
    (receive_packets log_handle stream_task
      (polled pending (ready false) ∷ happenings)
      cancelled).phase
    ≡ finished
receive_packets_ends_example =
    receive_packets_ends log_handle stream_task (polled pending (ready false) ∷ happenings)
      cancelled refl three_polls

-- The task after the writer has reported its error.
abbrev informed : LoggedReading
informed = record begins { send_error = arrived broken_pipe }

informed-Retains : Retains log_handle stream_task broken_pipe informed
unfolding start_reader
informed-Retains = (refl, tt)

receive_packets-Retains_example :
    Retains log_handle stream_task broken_pipe
      (receive_packets log_handle stream_task happenings informed)
receive_packets-Retains_example =
    receive_packets-Retains log_handle stream_task broken_pipe happenings informed informed-Retains

begins-Ordered : Ordered log_handle stream_task [] begins
unfolding start_reader
begins-Ordered = record { lost = []; order = refl; few = omega arith }

receive_packets-Ordered_example :
    Ordered log_handle stream_task
      ([] ++ given_in log_handle stream_task happenings begins)
      (receive_packets log_handle stream_task happenings begins)
receive_packets-Ordered_example =
    receive_packets-Ordered log_handle stream_task happenings [] begins refl begins-Ordered

-- The run: the first packet and the closing message with the writer's error arrive.
sent_in_run :
    (receive_packets log_handle stream_task happenings begins).sent
    ≡ stream_packet (record { connection = 5; packet = 10; received_at = 1 })
      ∷ closed (io broken_pipe) 5
      ∷ []
unfolding receive_packets start_reader
sent_in_run = refl
