-- ===== src/Protocols/Udp/Peer.antt =====
-- protocols/udp/peer.rs: the state of a local peer and its queue of raw datagrams. A datagram is its
-- bytes and its receive time.
use bevy_slinet.Common.{ℕ, Bool, true, false, List, Result, ok, err, if◌then◌else◌, length}
use bevy_slinet.Queue.Lossy.{
  Shared, TrySendError, full, closed, try_send, close_and_drain, lossy_channel, drop_sender,
}
use bevy_slinet.Protocols.Udp.Settings.{UdpOptions}
use bevy_slinet.Protocols.Udp.Diagnostics.{
  Counters, raw_queue_full, raw_queue_evicted, closed_before_delivery, count_drop, count_drops,
  received, fresh_counters,
}

pub record QueuedDatagram : Type 0 where
  pub bytes : List ℕ
  pub received_at : ℕ

-- `PeerState`, whose handle is its counters, and the queue that `Peer` sends to and the stream
-- receives from.
pub record Peer : Type 0 where
  pub counters : Counters
  pub is_closed : Bool
  pub queue : Shared QueuedDatagram

-- `PeerState::new` and the channel that `dispatch` makes for it.
unfoldable pub new_peer : UdpOptions → Peer
unfolding lossy_channel
new_peer o = record {
  counters = fresh_counters;
  is_closed = false;
  queue = lossy_channel o.receive_queue_capacity o.receive_queue_bytes o.receive_queue_overflow;
}

abbrev pub on_counters : (Counters → Counters) → Peer → Peer
on_counters f p = record p { counters = f p.counters }

-- `PeerState::close`.
unfoldable pub close : Peer → Peer
close p = record p { is_closed = true }

unfoldable pub received_datagram : ℕ → Peer → Peer
unfolding received
received_datagram bytes p = on_counters (received bytes) p

-- The outcome of `try_send` in `Peer::push`.
unfoldable pub after_try_send :
    Peer → Result (List QueuedDatagram) (TrySendError QueuedDatagram) × Shared QueuedDatagram → Peer
unfolding count_drop count_drops
after_try_send p (ok evicted, q) = record p {
  counters = count_drops raw_queue_evicted (length evicted) p.counters;
  queue = q;
}
after_try_send p (err (full d), q) = record p {
  counters = count_drop raw_queue_full p.counters;
  queue = q;
}
after_try_send p (err (closed d), q) = record p {
  counters = count_drop closed_before_delivery p.counters;
  queue = q;
}

unfoldable pub push : List ℕ → ℕ → Peer → Peer
unfolding after_try_send
push bytes received_at p =
    if p.is_closed
    then on_counters (count_drop closed_before_delivery) p
    else after_try_send p
        (try_send p.queue (record { bytes = bytes; received_at = received_at }) (length bytes))

-- `TrackedIncoming::drop` of protocols/udp/stream.rs: what is still queued counts as lost.
unfoldable pub drop_incoming : Peer → Peer
unfolding count_drops
drop_incoming p =
    let (pending, q) = close_and_drain p.queue in
    record p {
      counters = count_drops closed_before_delivery (length pending) p.counters;
      queue = q;
    }

-- The end of the `Peer` in the listener's map, and so of its sender.
unfoldable pub drop_peer_sender : Peer → Peer
drop_peer_sender p = record p { queue = drop_sender p.queue }
