-- ===== src/Protocols/Udp/Stream.antt =====
-- protocols/udp/stream.rs: receiving and sending by the halves of a UDP stream. What the read half's
-- `select!` sees is a list of events; the packet codec and the outcome of a socket call are
-- parameters.
pub mod Tally
pub mod Delivery
pub mod Connect
mod Examples
use bevy_slinet.Common.{
  ℕ, Bool, true, false, not, ◌&&◌, ◌||◌, Option, none, some, List, [], ◌∷◌, Result, ok, err,
  if◌then◌else◌, ltb, ◌==◌, length,
}
use bevy_slinet.Protocols.Framing.{
  IoError, connection_aborted, connection_reset, connection_refused, write_zero, other,
  ReceiveError, codec_failed,
}
use bevy_slinet.Protocols.Udp.Settings.{max_datagram_size_limit}
use bevy_slinet.Protocols.Udp.Diagnostics.{
  UdpDropReason, receive_limit, malformed_payload, oversized_payload, socket_send_error, count_drop,
  data_sent,
}
use bevy_slinet.Protocols.Udp.Peer.{Peer, close, received_datagram, on_counters}
use bevy_slinet.Protocols.Udp.Pacing.{
  Wakeup, Waited, go_at, aborted, still_waiting, DataPacer, wait, sent,
}

-- A datagram comes with its receive time and the size limit that the round reads; `failed` is an
-- error of the socket, or the end of the queue as `connection_aborted`.
pub data Event : Type 0 where
  cancelled : Event
  datagram : List ℕ → ℕ → ℕ → Event
  failed : IoError → Event

-- The errors of a socket after which `Incoming::next` goes on.
unfoldable pub is_retried : IoError → Bool
is_retried connection_reset = true
is_retried connection_refused = true
is_retried _ = false

unfoldable pub count_received : Bool → ℕ → Peer → Peer
unfolding received_datagram
count_received from_socket bytes p = if from_socket then received_datagram bytes p else p

module _ {P C D : Type 0} (L : Type 0) (from_socket : Bool)
    (deserialize : List ℕ → C → Result P D × C) where
  -- What `receive_with_timestamp` gives, if it ends, with what it leaves and the events to come.
  abbrev pub Outcome : Type 0
  Outcome = Option (Result (P × ℕ) (ReceiveError D L)) × Peer × C × List Event

  unfoldable pub after_decoding :
      (Peer → C → Outcome) → Peer → ℕ → List Event → Result P D × C → Outcome
  unfolding count_drop
  after_decoding rest p received_at events (ok packet, c) =
      (some (ok (packet, received_at)), p, c, events)
  after_decoding rest p received_at events (err e, c) =
      rest (on_counters (count_drop malformed_payload) p) c

  -- A round from the payload on.
  unfoldable pub take_payload :
      (Peer → C → Outcome) → Peer → C → List ℕ → ℕ → ℕ → List Event → Outcome
  unfolding after_decoding count_drop
  take_payload rest p c payload received_at limit events =
      if ltb max_datagram_size_limit (length payload) || ltb limit (length payload)
      then rest (on_counters (count_drop receive_limit) p) c
      else after_decoding rest p received_at events (deserialize payload c)

  -- The end of the `select!` with an error.
  unfoldable pub take_error : (Peer → C → Outcome) → Peer → C → IoError → List Event → Outcome
  unfolding is_retried close
  take_error rest p c e events =
      if from_socket && is_retried e
      then rest p c
      else (some (err (ReceiveError.io e)), close p, c, events)

  unfoldable pub receive_events : List Event → Peer → C → Outcome
  unfolding take_payload take_error close count_received
  receive_events [] p c = (none, p, c, [])
  receive_events (cancelled ∷ events) p c =
      (some (err (ReceiveError.io connection_aborted)), close p, c, events)
  receive_events (failed e ∷ events) p c = take_error (receive_events events) p c e events
  receive_events (datagram payload received_at limit ∷ events) p c =
      take_payload (receive_events events) (count_received from_socket (length payload) p) c payload
        received_at limit events

  -- `receive_with_timestamp` of `UdpReadHalf`; the `select!` prefers a cancellation, so a closed peer
  -- receives nothing.
  unfoldable pub receive_datagram : List Event → Peer → C → Outcome
  unfolding receive_events
  receive_datagram events p c =
      if p.is_closed
      then (some (err (ReceiveError.io connection_aborted)), p, c, events)
      else receive_events events p c

-- How the socket's part of `send_datagram` ends.
pub data SocketSend : Type 0 where
  cancelled_sending : SocketSend
  socket_result : Result ℕ IoError → SocketSend

unfoldable pub after_socket : List ℕ → Peer → SocketSend → Result (Unit {0}) IoError × Peer
unfolding close data_sent
after_socket bytes p cancelled_sending = (err connection_aborted, close p)
after_socket bytes p (socket_result (err e)) = (err e, p)
after_socket bytes p (socket_result (ok n)) =
    if not (n == length bytes)
    then (err write_zero, p)
    else (ok tt, on_counters (data_sent (length bytes)) p)

unfoldable pub send_datagram : List ℕ → SocketSend → Peer → Result (Unit {0}) IoError × Peer
unfolding after_socket
send_datagram bytes outcome p =
    if p.is_closed then (err connection_aborted, p) else after_socket bytes p outcome

-- The end of `send`; `closes` says whether the peer was closed by then.
unfoldable pub after_send_datagram :
    Bool → Result (Unit {0}) IoError × Peer → Result (Unit {0}) IoError × Peer
unfolding close count_drop
after_send_datagram closes (ok u, p) = (ok tt, p)
after_send_datagram closes (err e, p) =
    if p.is_closed || closes
    then (err e, close p)
    else (ok tt, on_counters (count_drop socket_send_error) p)

-- What goes on around a call of `send`: the pacer's rate, time and events, the socket, whether the
-- peer is closed by another task, and the time at which the datagram counts as sent.
pub record Surroundings : Type 0 where
  pub rate : Option ℕ
  pub now : ℕ
  pub wakeups : List (Wakeup × ℕ)
  pub outcome : SocketSend
  pub closes : Bool
  pub sent_at : ℕ

module _ {P C E : Type 0} (serialize : P → C → Result (List ℕ) E × C) (max_payload : ℕ) where
  -- The result is `none` where the pacer still waits.
  abbrev pub Sending : Type 0
  Sending = Option (Result (Unit {0}) IoError) × Peer × DataPacer × C

  unfoldable pub after_wait : List ℕ → Surroundings → Peer → DataPacer → C → Waited → Sending
  unfolding send_datagram after_send_datagram close sent
  after_wait payload s p pacer c still_waiting = (none, p, pacer, c)
  after_wait payload s p pacer c aborted = (some (err connection_aborted), close p, pacer, c)
  after_wait payload s p pacer c (go_at t) =
      let (result, p') = after_send_datagram s.closes (send_datagram payload s.outcome p) in
      (some result, p', sent (length payload) s.sent_at pacer, c)

  unfoldable pub after_encoding : Surroundings → Peer → DataPacer → Result (List ℕ) E × C → Sending
  unfolding after_wait wait count_drop
  after_encoding s p pacer (err e, c) = (some (err (other codec_failed)), p, pacer, c)
  after_encoding s p pacer (ok payload, c) =
      if ltb max_payload (length payload)
      then (some (ok tt), on_counters (count_drop oversized_payload) p, pacer, c)
      else after_wait payload s p pacer c (wait pacer.previous s.rate s.now s.wakeups)

  -- `send` of `UdpWriteHalf`.
  unfoldable pub send_packet : P → Surroundings → Peer → DataPacer → C → Sending
  unfolding after_encoding
  send_packet packet s p pacer c = after_encoding s p pacer (serialize packet c)
