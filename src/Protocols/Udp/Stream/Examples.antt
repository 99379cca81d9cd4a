-- ===== src/Protocols/Udp/Stream/Examples.antt =====
-- The halves of a UDP stream of protocols/udp/stream.rs at fixed inputs, with one-byte packets.
use bevy_slinet.Common.{ℕ, true, false, none, some, List, [], ◌∷◌, Result, ok, err, arith}
use bevy_slinet.Protocols.Framing.{broken_pipe}
use bevy_slinet.Protocols.Udp.Settings.{default_options}
use bevy_slinet.Protocols.Udp.Peer.{Peer, new_peer}
use bevy_slinet.Protocols.Udp.Pacing.{DataPacer}
use bevy_slinet.Protocols.Udp.Stream.{
  Event, datagram, failed, socket_result, Surroundings, receive_datagram, send_packet,
}
use bevy_slinet.Protocols.Udp.Stream.Tally.{arrivals, IsCounted, Tallied, receive_datagram-Tallied}
use bevy_slinet.Protocols.Udp.Stream.Delivery.{Reported, send_packet-Reported}

abbrev decode_byte : List ℕ → Unit {0} → Result ℕ ℕ × Unit {0}
decode_byte [] c = (err 0, c)
decode_byte (n ∷ []) c = (ok n, c)
decode_byte (n ∷ m ∷ rest) c = (err 1, c)

abbrev encode_byte : ℕ → Unit {0} → Result (List ℕ) ℕ × Unit {0}
encode_byte n c = (ok (n ∷ []), c)

abbrev fresh_peer : Peer
fresh_peer = new_peer default_options

-- An oversized datagram, a malformed one, and a packet.
abbrev events : List Event
events =
    datagram (1 ∷ 2 ∷ 3 ∷ []) 10 2
    ∷ datagram [] 11 2
    ∷ datagram (7 ∷ []) 12 2
    ∷ failed broken_pipe
    ∷ []

fresh_peer-IsCounted : IsCounted ℕ true decode_byte fresh_peer
unfolding new_peer
fresh_peer-IsCounted = record {
  limit_word = omega arith;
  malformed_word = omega arith;
  received_word = omega arith;
}

receive_datagram-Tallied_example :
    Tallied ℕ true decode_byte
      (arrivals events)
      fresh_peer
      (receive_datagram ℕ true decode_byte events fresh_peer tt)
receive_datagram-Tallied_example =
    receive_datagram-Tallied ℕ true decode_byte events fresh_peer tt fresh_peer-IsCounted

abbrev surroundings : Surroundings
surroundings = record {
  rate = none;
  now = 5;
  wakeups = [];
  outcome = socket_result (err broken_pipe);
  closes = false;
  sent_at = 6;
}

abbrev pacer : DataPacer
pacer = record { rate = none; previous = some (1, 100) }

send_packet-Reported_example :
    Reported encode_byte 1200
      (ok (9 ∷ []))
      surroundings
      fresh_peer
      (send_packet encode_byte 1200 9 surroundings fresh_peer pacer tt)
send_packet-Reported_example =
    send_packet-Reported encode_byte 1200 9 surroundings fresh_peer pacer tt
