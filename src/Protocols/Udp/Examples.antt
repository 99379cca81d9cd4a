-- ===== src/Protocols/Udp/Examples.antt =====
-- A listener of protocols/udp/listener.rs for two peers, which has one; and the limits and the
-- pacing of protocols/udp/ at fixed inputs.
use bevy_slinet.Common.{
  List, ◌+◌, ◌-◌, ◌*◌, ◌≤◌, ◌<◌, ◌≡◌, ◌⊎◌, refl, true, none, some, [], ◌∷◌, ok, err, length, arith,
}
use bevy_slinet.Queue.Lossy.{drop_oldest}
use bevy_slinet.Protocols.Udp.Settings.{UdpOptions, validate, validate_iff}
use bevy_slinet.Protocols.Framing.{connection_reset, invalid_input}
use bevy_slinet.Protocols.Udp.Pacing.{
  as_nanos, second, spacing, wait, deadline_of, div_ceil, changed, deadline_reached, go_at,
}
use bevy_slinet.Protocols.Udp.Pacing.Spacing.{spacing_lem, Within, wait_rate}
use bevy_slinet.Protocols.Udp.Listener.{Listener, new_listener, dispatch, open_peer, lookup}
use bevy_slinet.Protocols.Udp.Listener.Invariant.{
  arrives, Reachable, start, next_step, Reachable-IsValid, Reachable-Bounded,
}
use bevy_slinet.Protocols.Udp.Listener.Accept.{
  SocketEvent, arrives, fails, Handled, accept, accept-Handled,
}
use bevy_slinet.Protocols.Udp.Listener.Routing.{Untouched, dispatch-Untouched}
use bevy_slinet.Protocols.Udp.Listener.Arrival.{Arrives, dispatch-Arrives}

abbrev options : UdpOptions
options = record {
  max_peers = 2;
  max_datagram_size = 4;
  receive_queue_capacity = 1;
  receive_queue_bytes = 8;
  receive_queue_overflow = drop_oldest;
  send_rate = none;
}

abbrev empty_listener : Listener
empty_listener = new_listener options

-- Two bytes have come from address 5.
abbrev one_peer : Listener
one_peer = (dispatch (1 ∷ 2 ∷ []) 5 0 empty_listener).1

empty_alive : empty_listener.is_alive ≡ true
unfolding new_listener
empty_alive = refl

no_entry : open_peer empty_listener (lookup 5 empty_listener.peers) ≡ none
unfolding new_listener open_peer lookup
no_entry = refl

first_arrival :
    ((dispatch (1 ∷ 2 ∷ []) 5 0 empty_listener).0 ≡ some empty_listener.next)
    × Arrives empty_listener one_peer (1 ∷ 2 ∷ []) 5 0
unfolding new_listener
first_arrival =
    dispatch-Arrives empty_listener (1 ∷ 2 ∷ []) 5 0 (omega arith) (omega arith) (omega arith)
      no_entry (λ e. absurd (omega (arith, e))) (omega arith) (λ e. absurd (omega (arith, e)))

one_peer-Reachable : Reachable options one_peer
one_peer-Reachable =
    next_step empty_listener one_peer start (arrives empty_listener (1 ∷ 2 ∷ []) 5 0 empty_alive)

Reachable-Bounded_example :
    (one_peer.slots + length one_peer.registered ≡ 2)
    × (length one_peer.peers ≤ length one_peer.registered)
    × (length one_peer.peers ≤ 2)
Reachable-Bounded_example = Reachable-Bounded options one_peer one_peer-Reachable

arrived : Arrives empty_listener one_peer (1 ∷ 2 ∷ []) 5 0
arrived = first_arrival.1

has_entry : lookup 5 one_peer.peers ≡ some 0
unfolding new_listener
has_entry = arrived.entry

dispatch-Untouched_example : Untouched one_peer (dispatch [] 6 1 one_peer).1 5 0
dispatch-Untouched_example =
    dispatch-Untouched options one_peer [] 6 1 5 0
      (Reachable-IsValid options one_peer one_peer-Reachable) (λ e. absurd (omega (arith, e)))
      has_entry

spacing_lem_example :
    (1200 * second ≤ as_nanos (spacing 1200 7) * 7)
    × (as_nanos (spacing 1200 7) * 7 < 1200 * second + 7)
spacing_lem_example = spacing_lem 1200 7 (omega arith) (omega arith)

-- The rate halves while a datagram of ten bytes waits.
waited :
    wait (some (0, 10)) (some 10) 0 ((changed (some 5), 1) ∷ (deadline_reached, 2 * second) ∷ [])
    ≡ go_at (2 * second)
unfolding wait deadline_of spacing div_ceil
waited = refl

slower : Within 10 0 10 10 ((changed (some 5), 1) ∷ (deadline_reached, 2 * second) ∷ [])
unfolding spacing div_ceil
slower = (omega arith, omega arith, omega arith)

wait_rate_example : 10 * second ≤ (2 * second - 0) * 10
wait_rate_example =
    wait_rate 10 0 10 10 0 (2 * second)
      ((changed (some 5), 1) ∷ (deadline_reached, 2 * second) ∷ []) (omega arith) (omega arith)
      (omega arith) slower waited

dispatch-Arrives_example :
    ((dispatch (1 ∷ 2 ∷ []) 5 0 empty_listener).0 ≡ some empty_listener.next)
    × Arrives empty_listener one_peer (1 ∷ 2 ∷ []) 5 0
unfolding new_listener
dispatch-Arrives_example =
    dispatch-Arrives empty_listener (1 ∷ 2 ∷ []) 5 0 (omega arith) (omega arith) (omega arith)
      no_entry (λ e. absurd (omega (arith, e))) (omega arith) (λ e. absurd (omega (arith, e)))

validate_iff_example :
    ((validate 100 options ≡ ok options) × (4 ≤ 65507) × (2 ≤ 100))
    ⊎ ((validate 100 options ≡ err invalid_input) × ((65507 < 4) ⊎ (100 < 2)))
validate_iff_example = validate_iff 100 options

-- A closed port's error, a datagram from the peer that is there, one from a new address, and one more.
abbrev socket_events : List SocketEvent
socket_events =
    fails connection_reset ∷ arrives (9 ∷ []) 5 1 ∷ arrives (8 ∷ []) 6 2 ∷ arrives (7 ∷ []) 7 3 ∷ []

accept-Handled_example : Handled socket_events one_peer (accept socket_events one_peer)
accept-Handled_example = accept-Handled socket_events one_peer

accept_leaves_last : (accept socket_events one_peer).2 ≡ arrives (7 ∷ []) 7 3 ∷ []
unfolding accept new_listener bevy_slinet.Queue.Lossy.try_send bevy_slinet.Queue.Lossy.evict_scan
accept_leaves_last = refl
