-- ===== src/Protocols/Udp/Listener.antt =====
-- protocols/udp/listener.rs, and `PeerRegistration` of protocols/udp/peer.rs. An address is a
-- number. The peers that were ever made are numbered in order, which stands for the identity of
-- their `Arc<PeerState>`.
pub mod Registry
pub mod Valid
pub mod Invariant
pub mod Routing
pub mod Arrival
pub mod Accept
use bevy_slinet.Common.{
  ℕ, zero, suc, ◌+◌, ◌-◌, Bool, true, false, not, ◌&&◌, ◌||◌, Option, none, some, List, [], ◌∷◌,
  Result, ok, err, if◌then◌else◌, ltb, ◌==◌, length,
}
use bevy_slinet.Queue.Lossy.{Shared, TrySendError, try_send}
use bevy_slinet.Protocols.Udp.Settings.{UdpOptions, max_datagram_size_limit}
use bevy_slinet.Protocols.Udp.Peer.{
  QueuedDatagram, Peer, new_peer, close, received_datagram, push, drop_incoming, drop_peer_sender,
}

-- `peers` is the listener's map; `cells` are all peers by their number, which is below `next`;
-- `registered` are the numbers of the registrations that are still held, each with a permit.
pub record Listener : Type 0 where
  pub options : UdpOptions
  pub slots : ℕ
  pub peers : List (ℕ × ℕ)
  pub cells : ℕ → Peer
  pub next : ℕ
  pub registered : List (ℕ × ℕ)
  pub is_alive : Bool

-- `from_socket`, once the options are valid and the socket is found unconnected.
unfoldable pub new_listener : UdpOptions → Listener
unfolding new_peer
new_listener o = record {
  options = o;
  slots = o.max_peers;
  peers = [];
  cells = λ _. new_peer o;
  next = 0;
  registered = [];
  is_alive = true;
}

unfoldable pub lookup : ℕ → List (ℕ × ℕ) → Option ℕ
lookup k [] = none
lookup k ((j, v) ∷ m) = if j == k then some v else lookup k m

unfoldable pub remove : ℕ → List (ℕ × ℕ) → List (ℕ × ℕ)
remove k [] = []
remove k ((j, v) ∷ m) = if j == k then remove k m else (j, v) ∷ remove k m

unfoldable pub update : (ℕ → Peer) → ℕ → Peer → ℕ → Peer
update cells id p other = if other == id then p else cells other

abbrev pub on_cell : ℕ → (Peer → Peer) → Listener → Listener
on_cell id f l = record l { cells = update l.cells id (f (l.cells id)) }

-- `peers.get(&address).filter(|peer| !peer.state().is_closed())`.
unfoldable pub open_peer : Listener → Option ℕ → Option ℕ
open_peer l none = none
open_peer l (some id) = if (l.cells id).is_closed then none else some id

-- The peer that an insertion replaces loses its sender.
unfoldable pub drop_replaced : Option ℕ → Listener → Listener
unfolding update drop_peer_sender
drop_replaced none l = l
drop_replaced (some id) l = on_cell id drop_peer_sender l

-- `peers.insert(address, peer)`, for the peer made last.
unfoldable pub insert_peer : ℕ → Peer → Listener → Listener
unfolding lookup remove drop_replaced update
insert_peer address p l =
    let l' = drop_replaced (lookup address l.peers) l in
    record l' {
      peers = (address, l.next) ∷ remove address l.peers;
      cells = update l'.cells l.next p;
      next = suc l.next;
      registered = (address, l.next) ∷ l.registered;
      slots = l.slots - 1;
    }

-- A new peer, unless its queue refuses the first datagram: then its permit is given back.
unfoldable pub admit_peer :
    List ℕ
    → ℕ
    → Listener
    → Result (List QueuedDatagram) (TrySendError QueuedDatagram) × Shared QueuedDatagram
    → Option ℕ × Listener
unfolding insert_peer received_datagram new_peer
admit_peer bytes address l (err e, q) = (none, l)
admit_peer bytes address l (ok evicted, q) = (
  some l.next,
  insert_peer address (received_datagram (length bytes) (record (new_peer l.options) { queue = q }))
      l,
)

-- The part of `dispatch` for an address with no open peer.
unfoldable pub dispatch_new : List ℕ → ℕ → ℕ → Listener → Option ℕ × Listener
unfolding admit_peer new_peer
dispatch_new bytes address received_at l =
    if (l.options.receive_queue_capacity == 0) || ltb l.options.receive_queue_bytes (length bytes)
    then (none, l)
    else if l.slots == 0
    then (none, l)
    else admit_peer bytes address l (
        try_send ((new_peer l.options).queue) (record { bytes = bytes; received_at = received_at })
          (length bytes))

unfoldable pub dispatch_to : List ℕ → ℕ → ℕ → Listener → Option ℕ → Option ℕ × Listener
unfolding dispatch_new push received_datagram update
dispatch_to bytes address received_at l (some id) =
    (none, on_cell id (λ p. push bytes received_at (received_datagram (length bytes) p)) l)
dispatch_to bytes address received_at l none = dispatch_new bytes address received_at l

-- `dispatch`: the number of the peer whose stream it returns.
unfoldable pub dispatch : List ℕ → ℕ → ℕ → Listener → Option ℕ × Listener
unfolding dispatch_to open_peer lookup
dispatch bytes address received_at l =
    if ltb max_datagram_size_limit (length bytes)
    then (none, l)
    else dispatch_to bytes address received_at l (open_peer l (lookup address l.peers))

-- The map without the entry of peer `id` at `address`, if it is still that peer's.
unfoldable pub forget_peer : ℕ → ℕ → Option ℕ → Listener → Listener
unfolding remove update drop_peer_sender
forget_peer address id none l = l
forget_peer address id (some found) l =
    if found == id
    then on_cell id drop_peer_sender (record l { peers = remove address l.peers })
    else l

unfoldable pub remove_id : ℕ → List (ℕ × ℕ) → List (ℕ × ℕ)
remove_id id [] = []
remove_id id ((a, j) ∷ m) = if j == id then m else (a, j) ∷ remove_id id m

-- `PeerRegistration::drop`, and the permit that goes with it. The map is gone with the listener.
unfoldable pub drop_registration : ℕ → ℕ → Listener → Listener
unfolding forget_peer remove_id lookup update close
drop_registration address id l =
    let l' = if l.is_alive then forget_peer address id (lookup address l.peers) l else l in
    record l' {
      cells = update l'.cells id (close (l'.cells id));
      registered = remove_id id l.registered;
      slots = l.slots + 1;
    }

-- The end of a stream that was not split: its registration goes first, then its queue. (A read half
-- drops the queue first, and then the registration.)
unfoldable pub drop_stream : ℕ → ℕ → Listener → Listener
unfolding drop_registration drop_incoming update
drop_stream address id l = on_cell id drop_incoming (drop_registration address id l)

unfoldable pub close_all : List (ℕ × ℕ) → (ℕ → Peer) → ℕ → Peer
unfolding update close drop_peer_sender
close_all [] cells = cells
close_all ((a, id) ∷ m) cells = close_all m (update cells id (drop_peer_sender (close (cells id))))

-- `UdpNetworkListener::drop`.
unfoldable pub drop_listener : Listener → Listener
unfolding close_all
drop_listener l = record l { cells = close_all l.peers l.cells; peers = []; is_alive = false }
