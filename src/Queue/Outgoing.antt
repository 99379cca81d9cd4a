-- ===== src/Queue/Outgoing.antt =====
-- connection/queue/mod.rs: the queues between the ECS and the transport tasks. The reliable queue is
-- a channel of tokio, which is a parameter; the transport handle is a value that each drop changes.
pub mod Accounting
mod Examples
use bevy_slinet.Common.{
  ℕ, zero, suc, ◌-◌, max, Bool, true, false, Option, none, some, List, [], ◌∷◌, Result, ok, err,
  if◌then◌else◌, length, word_max,
}
use bevy_slinet.Queue.Lossy.{
  Shared, OverflowPolicy, drop_newest, TrySendError, TryRecvError, Poll, pending, ready,
  lossy_channel, try_send, close_and_drain, send_check, send_round,
}
use bevy_slinet.Protocols.Transport.{QueueDropReason, TransportHandle, record_drops}

-- `SendError` of connection/send_error.rs.
pub data SendError {ℓ} (T : Type ℓ) : Type ℓ where
  full : T → SendError T
  closed : T → SendError T

unfoldable pub into_inner {ℓ} : {T : Type ℓ} → SendError T → T
into_inner (full packet) = packet
into_inner (closed packet) = packet

pub record QueueSnapshot : Type 0 where
  pub queued : ℕ
  pub capacity : ℕ

-- What is used of `tokio::sync::mpsc`, on a channel's shared state.
pub record Channel {ℓ} (R T : Type ℓ) : Type ℓ where
  pub new_channel : ℕ → R
  pub channel_try_send : T → R → Result (Unit {ℓ}) (TrySendError T) × R
  pub max_capacity : R → ℕ
  pub free_capacity : R → ℕ
  pub close_channel : R → R
  pub channel_try_recv : R → Result T TryRecvError × R
  pub drop_receiver : R → R

-- The two kinds of queue, from either end.
pub data Outgoing {ℓ} (R T : Type ℓ) : Type ℓ where
  reliable : R → Outgoing R T
  lossy : Shared T → Outgoing R T

pub record NetworkQueueSettings : Type 0 where
  pub send_capacity : ℕ
  pub receive_capacity : ℕ
  pub events_per_frame : ℕ
  pub datagram_send_overflow : OverflowPolicy
  pub datagram_receive_overflow : OverflowPolicy

abbrev pub default_queue_settings : NetworkQueueSettings
default_queue_settings = record {
  send_capacity = 1024;
  receive_capacity = 4096;
  events_per_frame = 256;
  datagram_send_overflow = drop_newest;
  datagram_receive_overflow = drop_newest;
}

module _ {ℓ} {R T : Type ℓ} (channel : Channel R T) where
  unfoldable pub snapshot : Outgoing R T → QueueSnapshot
  snapshot (reliable r) = record {
    queued = channel.max_capacity r - channel.free_capacity r;
    capacity = channel.max_capacity r;
  }
  snapshot (lossy q) = record { queued = length q.items; capacity = q.max_items }

  -- A new queue; its sender is `OutgoingSender` and its receiver `OutgoingReceiver`.
  unfoldable pub outgoing_channel : NetworkQueueSettings → Bool → Outgoing R T
  unfolding lossy_channel
  outgoing_channel s datagram =
      if datagram
      then lossy (lossy_channel (max s.send_capacity 1) word_max s.datagram_send_overflow)
      else reliable (channel.new_channel (max s.send_capacity 1))

  unfoldable pub incoming_channel : NetworkQueueSettings → R
  incoming_channel s = channel.new_channel (max s.receive_capacity 1)

module _ {ℓ} {R T : Type ℓ} {H : Type 0} (channel : Channel R T)
    (transport : TransportHandle H) where
  -- `map_err` at the end of `try_send`, with what the call left.
  unfoldable pub counted_error :
      Result (Unit {ℓ}) (TrySendError T)
      → Outgoing R T
      → H
      → Result (Unit {ℓ}) (SendError T) × Outgoing R T × H
  counted_error (ok u) q h = (ok tt, q, h)
  counted_error (err (TrySendError.full packet)) q h =
      (err (full packet), q, transport.record_drop QueueDropReason.outgoing_queue_full h)
  counted_error (err (TrySendError.closed packet)) q h = (err (closed packet), q, h)

  -- The `match` on the outcome of the lossy queue.
  unfoldable pub after_lossy :
      Result (List T) (TrySendError T) × Shared T
      → H
      → Result (Unit {ℓ}) (SendError T) × Outgoing R T × H
  unfolding counted_error record_drops
  after_lossy (ok evicted, q) h =
      counted_error (ok tt) (lossy q)
        (record_drops transport QueueDropReason.outgoing_queue_evicted (length evicted) h)
  after_lossy (err e, q) h = counted_error (err e) (lossy q) h

  -- `OutgoingSender::try_send`.
  unfoldable pub outgoing_try_send :
      T → Outgoing R T → H → Result (Unit {ℓ}) (SendError T) × Outgoing R T × H
  unfolding after_lossy counted_error try_send
  outgoing_try_send packet (reliable r) h =
      let (result, r') = channel.channel_try_send packet r in counted_error result (reliable r') h
  outgoing_try_send packet (lossy q) h = after_lossy (try_send q packet 1) h

  -- A round of `while rx.try_recv().is_ok()`, and the rounds with one unit of fuel for each.
  unfoldable pub after_try_recv :
      (R → H → Option (R × H)) → H → Result T TryRecvError × R → Option (R × H)
  after_try_recv rest h (ok packet, r) =
      rest r (transport.record_drop QueueDropReason.closed_before_delivery h)
  after_try_recv rest h (err e, r) = some (r, h)

  unfoldable pub drain_channel : ℕ → R → H → Option (R × H)
  unfolding after_try_recv
  drain_channel zero r h = none
  drain_channel (suc fuel) r h = after_try_recv (drain_channel fuel) h (channel.channel_try_recv r)

  unfoldable pub after_drain : Option (R × H) → Option (Outgoing R T × H)
  after_drain none = none
  after_drain (some (r, h)) = some (reliable (channel.drop_receiver r), h)

  -- The end of `OutgoingReceiver`: its own `drop` and then that of the receiver in it. `none` where
  -- the fuel runs out.
  unfoldable pub drop_outgoing : ℕ → Bool → Outgoing R T → H → Option (Outgoing R T × H)
  unfolding drain_channel after_drain close_and_drain record_drops
  drop_outgoing fuel has_transport (reliable r) h =
      if has_transport
      then after_drain (drain_channel fuel (channel.close_channel r) h)
      else some (reliable (channel.drop_receiver r), h)
  drop_outgoing fuel has_transport (lossy q) h =
      if has_transport
      then (let (items, q') = close_and_drain q in
          some (
            lossy (close_and_drain q').1,
            record_drops transport QueueDropReason.closed_before_delivery (length items) h,
          ))
      else some (lossy (close_and_drain q).1, h)

-- `PacketForwarder`.
module _ {ℓ} {T : Type ℓ} {H : Type 0} (transport : TransportHandle H) where
  -- The outcome of `try_send` in `forward`: whether to go on, and the items for `on_evict`.
  unfoldable pub after_forward :
      Result (List T) (TrySendError T) × Shared T → H → Bool × List T × Shared T × H
  after_forward (ok evicted, q) h = (true, evicted, q, h)
  after_forward (err (TrySendError.closed packet), q) h = (false, [], q, h)
  after_forward (err (TrySendError.full packet), q) h =
      (true, [], q, transport.record_drop QueueDropReason.receive_queue_full h)

  unfoldable pub forward_datagram : T → Shared T → H → Bool × List T × Shared T × H
  unfolding after_forward try_send
  forward_datagram packet q h = after_forward (try_send q packet 1) h

  -- One poll of the biased `select!` on a stream connection.
  unfoldable pub is_sent :
      Poll (Result (Unit {0}) (TrySendError T)) × Shared T → Poll Bool × Shared T
  is_sent (pending, q) = (pending, q)
  is_sent (ready (ok u), q) = (ready true, q)
  is_sent (ready (err e), q) = (ready false, q)

  unfoldable pub poll_send : T → Shared T → Option (TrySendError T) → Poll Bool × Shared T
  unfolding is_sent send_round
  poll_send packet q (some e) = (ready false, q)
  poll_send packet q none = is_sent (send_round q packet 1)

  unfoldable pub forward_stream : Bool → T → Shared T → Poll Bool × Shared T
  unfolding poll_send send_check
  forward_stream cancelled packet q =
      if cancelled then (ready false, q) else poll_send packet q (send_check q packet 1)
