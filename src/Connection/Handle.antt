-- ===== src/Connection/Handle.antt =====
-- connection/mod.rs: the handle that the ECS keeps of a connection. The shared values that clones of
-- a handle refer to are in one record; addresses are numbers.
use bevy_slinet.Common.{ℕ, Bool, true, false, ◌||◌, Result, err, if◌then◌else◌, add_word}
use bevy_slinet.Queue.Lossy.{is_closed}
use bevy_slinet.Queue.Outgoing.{
  SendError, closed, Channel, Outgoing, reliable, lossy, QueueSnapshot, snapshot,
  NetworkQueueSettings, outgoing_channel, outgoing_try_send,
}
use bevy_slinet.Protocols.Transport.{TransportHandle}

-- `ConnectionId::next`: the identifier, and the counter after it.
unfoldable pub next_id : ℕ → ℕ × ℕ
next_id counter = (counter, add_word counter 1)

pub record EcsConnection (R T H : Type 0) : Type 0 where
  pub is_cancelled : Bool
  pub id : ℕ
  pub published : Bool
  pub packet_queue : Outgoing R T
  pub transport : H
  pub local_addr : ℕ
  pub peer_addr : ℕ

module _ {R T H : Type 0} (channel : Channel R T) (handle : TransportHandle H)
    (channel_closed : R → Bool) where
  -- `OutgoingSender::is_closed`.
  unfoldable pub queue_closed : Outgoing R T → Bool
  unfolding is_closed
  queue_closed (reliable r) = channel_closed r
  queue_closed (lossy q) = is_closed q

  -- `RawConnection::with_queue` with `ecs_connection`, for a stream with these addresses and this
  -- handle: the connection and the counter of identifiers. The queue's receiver has the transport
  -- from the start.
  unfoldable pub with_queue : NetworkQueueSettings → Bool → H → ℕ → ℕ → ℕ → EcsConnection R T H × ℕ
  unfolding outgoing_channel next_id
  with_queue queues datagram transport local_addr peer_addr counter =
      let (id, counter') = next_id counter in
      (
        record {
          is_cancelled = false;
          id = id;
          published = false;
          packet_queue = outgoing_channel channel queues datagram;
          transport = transport;
          local_addr = local_addr;
          peer_addr = peer_addr;
        },
        counter',
      )

  -- `EcsConnection::is_closed`.
  unfoldable pub connection_closed : EcsConnection R T H → Bool
  unfolding queue_closed
  connection_closed c = c.is_cancelled || queue_closed c.packet_queue

  unfoldable pub mark_published : EcsConnection R T H → EcsConnection R T H
  mark_published c = record c { published = true }

  unfoldable pub disconnect : EcsConnection R T H → EcsConnection R T H
  disconnect c = record c { is_cancelled = true }

  unfoldable pub outgoing_queue : EcsConnection R T H → QueueSnapshot
  unfolding snapshot
  outgoing_queue c = snapshot channel c.packet_queue

  -- What `try_send` of the queue leaves of the connection.
  abbrev pub after_queue :
      EcsConnection R T H
      → Result (Unit {0}) (SendError T) × Outgoing R T × H
      → Result (Unit {0}) (SendError T) × EcsConnection R T H
  after_queue c (result, q, h) = (result, record c { packet_queue = q; transport = h })

  -- `EcsConnection::send`.
  unfoldable pub send_on :
      T → EcsConnection R T H → Result (Unit {0}) (SendError T) × EcsConnection R T H
  unfolding outgoing_try_send
  send_on packet c =
      if c.is_cancelled
      then (err (closed packet), c)
      else after_queue c (outgoing_try_send channel handle packet c.packet_queue c.transport)
