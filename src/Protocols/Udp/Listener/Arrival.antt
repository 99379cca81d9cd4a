-- ===== src/Protocols/Udp/Listener/Arrival.antt =====
-- The first datagram of an address at a listener of protocols/udp/listener.rs.
use bevy_slinet.Common.{
  ℕ, subst, ap, sym, ◌+◌, ◌≤◌, ◌≡◌, ◌≢◌, refl, ◌∙◌, false, none, some, List, [], ◌∷◌, ok, ltb, ◌==◌,
  ◌||◌, length, arith, word_max, if_false, if_true,
}
use bevy_slinet.Queue.Lossy.{Shared, try_send, lossy_channel}
use bevy_slinet.Queue.Lossy.Invariant.{accepted}
use bevy_slinet.Queue.Lossy.Admission.{try_send-empty}
use bevy_slinet.Queue.Lossy.Preserve.{lossy_channel-IsValid}
use bevy_slinet.Protocols.Udp.Settings.{UdpOptions, max_datagram_size_limit}
use bevy_slinet.Protocols.Udp.Diagnostics.{received}
use bevy_slinet.Protocols.Udp.Peer.{QueuedDatagram, Peer, new_peer, received_datagram}
use bevy_slinet.Protocols.Udp.Listener.{
  Listener, dispatch, dispatch_to, dispatch_new, admit_peer, insert_peer, open_peer, lookup, update,
}

-- A new peer's queue takes a first datagram that its limits allow.
first_send :
    (o : UdpOptions) (d : QueuedDatagram) (bytes : ℕ)
    → o.receive_queue_capacity ≤ word_max
    → o.receive_queue_bytes ≤ word_max
    → o.receive_queue_capacity ≢ 0
    → bytes ≤ o.receive_queue_bytes
    → try_send (new_peer o).queue d bytes ≡ (ok [], accepted (new_peer o).queue d bytes [])
unfolding new_peer lossy_channel
first_send o d bytes c b pos small =
    try_send-empty (new_peer o).queue d bytes
      (lossy_channel-IsValid o.receive_queue_capacity o.receive_queue_bytes o.receive_queue_overflow
        c b)
      refl refl pos small

-- What the stream that `dispatch` returns finds: the address leads to its peer, which is open, has
-- counted one datagram, and queues it alone.
pub record Arrives (l l' : Listener) (bytes : List ℕ) (address received_at : ℕ) : Type 0 where
  pub entry : lookup address l'.peers ≡ some l.next
  pub is_open : (l'.cells l.next).is_closed ≡ false
  pub queued :
      (l'.cells l.next).queue.items
      ≡ ((record { bytes = bytes; received_at = received_at }, length bytes) ∷ [])
  pub counted : (l'.cells l.next).counters.received_data_packets ≡ 1
  pub taken : l'.slots + 1 ≡ l.slots

insert_peer-Arrives :
    (l : Listener) (bytes : List ℕ) (address received_at : ℕ) (q : Shared QueuedDatagram)
    → l.slots ≢ 0
    → q.items ≡ ((record { bytes = bytes; received_at = received_at }, length bytes) ∷ [])
    → Arrives l
        (insert_peer address
          (received_datagram (length bytes) (record (new_peer l.options) { queue = q }))
          l)
        bytes
        address
        received_at
unfolding insert_peer lookup update received_datagram received new_peer
insert_peer-Arrives l bytes address received_at q s e = record {
  entry = if_true (address == address) _ _ (ground arith);
  is_open = ap (λ p. p.is_closed) cell;
  queued = ap (λ p. p.queue.items) cell ∙ e;
  counted = ap (λ p. p.counters.received_data_packets) cell;
  taken = omega arith;
}
  where
    new_cell : Peer
    new_cell = received_datagram (length bytes) (record (new_peer l.options) { queue = q })

    cell : (insert_peer address new_cell l).cells l.next ≡ new_cell
    cell = if_true (l.next == l.next) new_cell _ (ground arith)

-- A datagram of an address that has no open peer, which the limits of the datagram, the receive
-- queue and the number of peers allow, makes a new peer, whose stream `dispatch` returns and which
-- holds that datagram.
pub dispatch-Arrives :
    (l : Listener) (bytes : List ℕ) (address received_at : ℕ)
    → l.options.receive_queue_capacity ≤ word_max
    → l.options.receive_queue_bytes ≤ word_max
    → length bytes ≤ max_datagram_size_limit
    → open_peer l (lookup address l.peers) ≡ none
    → l.options.receive_queue_capacity ≢ 0
    → length bytes ≤ l.options.receive_queue_bytes
    → l.slots ≢ 0
    → ((dispatch bytes address received_at l).0 ≡ some l.next)
      × Arrives l (dispatch bytes address received_at l).1 bytes address received_at
unfolding dispatch dispatch_to dispatch_new admit_peer
dispatch-Arrives l bytes address received_at c b size no_peer pos fits_queue s =
    subst (λ r. (r.0 ≡ some l.next) × Arrives l r.1 bytes address received_at) (sym made)
      (refl, insert_peer-Arrives l bytes address received_at _ s refl)
  where
    entry : QueuedDatagram
    entry = record { bytes = bytes; received_at = received_at }

    first : Shared QueuedDatagram
    first = accepted (new_peer l.options).queue entry (length bytes) []

    made : dispatch bytes address received_at l ≡ (
      some l.next,
      insert_peer address
          (received_datagram (length bytes) (record (new_peer l.options) { queue = first }))
          l,
    )
    made =
        if_false (ltb max_datagram_size_limit (length bytes)) _ _ (ground arith)
        ∙ ap (dispatch_to bytes address received_at l) no_peer
        ∙ if_false
            ((l.options.receive_queue_capacity == 0)
              || ltb l.options.receive_queue_bytes (length bytes))
            _ _ (ground arith)
        ∙ if_false (l.slots == 0) _ _ (ground arith)
        ∙ ap (admit_peer bytes address l)
            (first_send l.options entry (length bytes) c b pos fits_queue)
