-- ===== src/Protocols/Udp/Diagnostics.antt =====
-- protocols/udp/diagnostics.rs: the counters of a UDP peer. Each is a `u64` that wraps.
use bevy_slinet.Common.{ℕ, add_word, suc, zero}
use bevy_slinet.Protocols.Transport.{QueueDropReason, TransportHandle}

pub record Counters : Type 0 where
  pub sent_data_packets : ℕ
  pub sent_data_bytes : ℕ
  pub received_data_packets : ℕ
  pub received_data_bytes : ℕ
  pub dropped_outgoing_queue_full : ℕ
  pub dropped_outgoing_queue_evicted : ℕ
  pub dropped_raw_queue_full : ℕ
  pub dropped_raw_queue_evicted : ℕ
  pub dropped_receive_queue_full : ℕ
  pub dropped_receive_queue_evicted : ℕ
  pub dropped_closed_before_delivery : ℕ
  pub dropped_oversized_payload : ℕ
  pub dropped_receive_limit : ℕ
  pub dropped_malformed_payload : ℕ
  pub dropped_socket_send_error : ℕ

pub data UdpDropReason : Type 0 where
  outgoing_queue_full outgoing_queue_evicted raw_queue_full raw_queue_evicted : UdpDropReason
  receive_queue_full receive_queue_evicted closed_before_delivery : UdpDropReason
  oversized_payload receive_limit malformed_payload socket_send_error : UdpDropReason

abbrev pub fresh_counters : Counters
fresh_counters = record {
  sent_data_packets = 0;
  sent_data_bytes = 0;
  received_data_packets = 0;
  received_data_bytes = 0;
  dropped_outgoing_queue_full = 0;
  dropped_outgoing_queue_evicted = 0;
  dropped_raw_queue_full = 0;
  dropped_raw_queue_evicted = 0;
  dropped_receive_queue_full = 0;
  dropped_receive_queue_evicted = 0;
  dropped_closed_before_delivery = 0;
  dropped_oversized_payload = 0;
  dropped_receive_limit = 0;
  dropped_malformed_payload = 0;
  dropped_socket_send_error = 0;
}

unfoldable pub data_sent : ℕ → Counters → Counters
data_sent bytes c = record c {
  sent_data_packets = add_word c.sent_data_packets 1;
  sent_data_bytes = add_word c.sent_data_bytes bytes;
}

unfoldable pub received : ℕ → Counters → Counters
received bytes c = record c {
  received_data_packets = add_word c.received_data_packets 1;
  received_data_bytes = add_word c.received_data_bytes bytes;
}

unfoldable pub count_drop : UdpDropReason → Counters → Counters
count_drop UdpDropReason.outgoing_queue_full c = record c {
  dropped_outgoing_queue_full = add_word c.dropped_outgoing_queue_full 1;
}
count_drop UdpDropReason.outgoing_queue_evicted c = record c {
  dropped_outgoing_queue_evicted = add_word c.dropped_outgoing_queue_evicted 1;
}
count_drop UdpDropReason.raw_queue_full c = record c {
  dropped_raw_queue_full = add_word c.dropped_raw_queue_full 1;
}
count_drop UdpDropReason.raw_queue_evicted c = record c {
  dropped_raw_queue_evicted = add_word c.dropped_raw_queue_evicted 1;
}
count_drop UdpDropReason.receive_queue_full c = record c {
  dropped_receive_queue_full = add_word c.dropped_receive_queue_full 1;
}
count_drop UdpDropReason.receive_queue_evicted c = record c {
  dropped_receive_queue_evicted = add_word c.dropped_receive_queue_evicted 1;
}
count_drop UdpDropReason.closed_before_delivery c = record c {
  dropped_closed_before_delivery = add_word c.dropped_closed_before_delivery 1;
}
count_drop UdpDropReason.oversized_payload c = record c {
  dropped_oversized_payload = add_word c.dropped_oversized_payload 1;
}
count_drop UdpDropReason.receive_limit c = record c {
  dropped_receive_limit = add_word c.dropped_receive_limit 1;
}
count_drop UdpDropReason.malformed_payload c = record c {
  dropped_malformed_payload = add_word c.dropped_malformed_payload 1;
}
count_drop UdpDropReason.socket_send_error c = record c {
  dropped_socket_send_error = add_word c.dropped_socket_send_error 1;
}

-- The reason under which a transport's queue reports a loss.
unfoldable pub udp_reason : QueueDropReason → UdpDropReason
udp_reason QueueDropReason.outgoing_queue_full = UdpDropReason.outgoing_queue_full
udp_reason QueueDropReason.outgoing_queue_evicted = UdpDropReason.outgoing_queue_evicted
udp_reason QueueDropReason.receive_queue_full = UdpDropReason.receive_queue_full
udp_reason QueueDropReason.receive_queue_evicted = UdpDropReason.receive_queue_evicted
udp_reason QueueDropReason.closed_before_delivery = UdpDropReason.closed_before_delivery

unfoldable pub record_drop : QueueDropReason → Counters → Counters
unfolding count_drop udp_reason
record_drop reason c = count_drop (udp_reason reason) c

abbrev pub udp_handle : TransportHandle Counters
udp_handle = record { record_drop = record_drop }

-- `for _ in items { handle.count_drop(reason); }`.
unfoldable pub count_drops : UdpDropReason → ℕ → Counters → Counters
unfolding count_drop
count_drops reason zero c = c
count_drops reason (suc n) c = count_drops reason n (count_drop reason c)

-- The counter of a reason.
abbrev pub dropped : UdpDropReason → Counters → ℕ
dropped UdpDropReason.outgoing_queue_full c = c.dropped_outgoing_queue_full
dropped UdpDropReason.outgoing_queue_evicted c = c.dropped_outgoing_queue_evicted
dropped UdpDropReason.raw_queue_full c = c.dropped_raw_queue_full
dropped UdpDropReason.raw_queue_evicted c = c.dropped_raw_queue_evicted
dropped UdpDropReason.receive_queue_full c = c.dropped_receive_queue_full
dropped UdpDropReason.receive_queue_evicted c = c.dropped_receive_queue_evicted
dropped UdpDropReason.closed_before_delivery c = c.dropped_closed_before_delivery
dropped UdpDropReason.oversized_payload c = c.dropped_oversized_payload
dropped UdpDropReason.receive_limit c = c.dropped_receive_limit
dropped UdpDropReason.malformed_payload c = c.dropped_malformed_payload
dropped UdpDropReason.socket_send_error c = c.dropped_socket_send_error

-- `UdpStatsSnapshot`.
pub record UdpStatsSnapshot : Type 0 where
  pub sent_data_packets : ℕ
  pub sent_data_bytes : ℕ
  pub received_data_packets : ℕ
  pub received_data_bytes : ℕ
  pub dropped_outgoing_queue_full : ℕ
  pub dropped_outgoing_queue_evicted : ℕ
  pub dropped_raw_queue_full : ℕ
  pub dropped_raw_queue_evicted : ℕ
  pub dropped_receive_queue_full : ℕ
  pub dropped_receive_queue_evicted : ℕ
  pub dropped_closed_before_delivery : ℕ
  pub dropped_oversized_payload : ℕ
  pub dropped_receive_limit : ℕ
  pub dropped_malformed_payload : ℕ
  pub dropped_socket_send_error : ℕ

-- `stats`, of counters that do not change meanwhile.
unfoldable pub stats : Counters → UdpStatsSnapshot
stats c = record {
  sent_data_packets = c.sent_data_packets;
  sent_data_bytes = c.sent_data_bytes;
  received_data_packets = c.received_data_packets;
  received_data_bytes = c.received_data_bytes;
  dropped_outgoing_queue_full = c.dropped_outgoing_queue_full;
  dropped_outgoing_queue_evicted = c.dropped_outgoing_queue_evicted;
  dropped_raw_queue_full = c.dropped_raw_queue_full;
  dropped_raw_queue_evicted = c.dropped_raw_queue_evicted;
  dropped_receive_queue_full = c.dropped_receive_queue_full;
  dropped_receive_queue_evicted = c.dropped_receive_queue_evicted;
  dropped_closed_before_delivery = c.dropped_closed_before_delivery;
  dropped_oversized_payload = c.dropped_oversized_payload;
  dropped_receive_limit = c.dropped_receive_limit;
  dropped_malformed_payload = c.dropped_malformed_payload;
  dropped_socket_send_error = c.dropped_socket_send_error;
}
