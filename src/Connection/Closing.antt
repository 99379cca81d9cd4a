-- ===== src/Connection/Closing.antt =====
-- Sending on a closed connection of connection/mod.rs.
use bevy_slinet.Common.{
  ap, ◌≡◌, ◌∙◌, Bool, true, false, not, ◌||◌, err, if_true, Bool-cases, inl, inr, if_false, arith,
}
use bevy_slinet.Queue.Lossy.{Shared, TrySendError, try_send, try_send_where, is_closed}
use bevy_slinet.Queue.Outgoing.{
  Channel, Outgoing, reliable, lossy, closed, outgoing_try_send, after_lossy, counted_error,
}
use bevy_slinet.Protocols.Transport.{TransportHandle}
use bevy_slinet.Connection.Handle.{
  EcsConnection, connection_closed, queue_closed, send_on, after_queue,
}

try_send_closed :
    {T : Type 0} (q : Shared T) (packet : T)
    → is_closed q ≡ true
    → try_send q packet 1 ≡ (err (TrySendError.closed packet), q)
unfolding try_send try_send_where is_closed
try_send_closed q packet c = if_true (not q.receiver_open) _ _ c

module _ {R T H : Type 0} (channel : Channel R T) (handle : TransportHandle H)
    (channel_closed : R → Bool)
    (refuses : (packet : T) (r : R)
      → channel_closed r ≡ true
      → channel.channel_try_send packet r ≡ (err (TrySendError.closed packet), r)) where
  outgoing_try_send_closed :
      (packet : T) (o : Outgoing R T) (h : H)
      → queue_closed channel handle channel_closed o ≡ true
      → outgoing_try_send channel handle packet o h ≡ (err (closed packet), o, h)
  unfolding queue_closed outgoing_try_send after_lossy counted_error
  outgoing_try_send_closed packet (reliable r) h c =
      ap (λ t. counted_error channel handle t.0 (reliable t.1) h) (refuses packet r c)
  outgoing_try_send_closed packet (lossy q) h c =
      ap (λ t. after_lossy channel handle t h) (try_send_closed q packet c)

  -- On a connection that reports itself closed, a packet comes back as closed; nothing is queued,
  -- displaced or reported, on either kind of queue.
  send_on_closed :
      (packet : T) (c : EcsConnection R T H)
      → connection_closed channel handle channel_closed c ≡ true
      → send_on channel handle channel_closed packet c ≡ (err (closed packet), c)
  unfolding connection_closed send_on
  send_on_closed packet c h = elim (Bool-cases c.is_cancelled) [
    | inl gone ↦ if_true c.is_cancelled _ _ gone
    | inr open_still ↦
        if_false c.is_cancelled _ _ open_still
        ∙ ap (after_queue channel handle channel_closed c)
            (outgoing_try_send_closed packet c.packet_queue c.transport (still h open_still))
  ]
    where
      still : {a b : Bool} → (a || b) ≡ true → a ≡ false → b ≡ true
      still {a} {b} both off = ground (arith, both, off)
