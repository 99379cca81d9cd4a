-- ===== src/Protocols/Transport.antt =====
-- protocols/transport.rs: the reasons that queues give for a lost packet, and the handle of a
-- transport's connection, here by the state of its counters.
use bevy_slinet.Common.{ℕ, zero, suc}

pub data QueueDropReason : Type 0 where
  outgoing_queue_full outgoing_queue_evicted : QueueDropReason
  receive_queue_full receive_queue_evicted : QueueDropReason
  closed_before_delivery : QueueDropReason

pub record TransportHandle (H : Type 0) : Type 0 where
  pub record_drop : QueueDropReason → H → H

-- `for _ in items { transport.record_drop(reason); }`.
unfoldable pub record_drops : {H : Type 0} → TransportHandle H → QueueDropReason → ℕ → H → H
record_drops t reason zero h = h
record_drops t reason (suc n) h = record_drops t reason n (t.record_drop reason h)
