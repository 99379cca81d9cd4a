-- ===== src/Protocols/Udp/Listener/Routing.antt =====
-- Where `dispatch` of protocols/udp/listener.rs sends a datagram.
use bevy_slinet.Common.{
  ℕ, ap, sym, ◌<◌, ◌≡◌, ◌≢◌, inl, inr, refl, ◌∙◌, Option, none, some, List, [], ◌∷◌, Result, ok,
  err, ltb, ◌==◌, ◌||◌, length, All, arith, Bool-cases, if_false,
}
use bevy_slinet.Queue.Lossy.{Shared, TrySendError}
use bevy_slinet.Protocols.Udp.Settings.{UdpOptions, max_datagram_size_limit}
use bevy_slinet.Protocols.Udp.Peer.{QueuedDatagram, Peer}
use bevy_slinet.Protocols.Udp.Listener.{
  Listener, dispatch, dispatch_to, dispatch_new, admit_peer, insert_peer, drop_replaced, open_peer,
  lookup, remove, update,
}
use bevy_slinet.Protocols.Udp.Listener.Registry.{find_id, Owned}
use bevy_slinet.Protocols.Udp.Listener.Valid.{IsValid}

lookup-Owned :
    (address id : ℕ) (registered m : List (ℕ × ℕ))
    → Owned registered m
    → lookup address m ≡ some id
    → find_id id registered ≡ some address
unfolding lookup
lookup-Owned address id registered [] o h = absurd (cc h)
lookup-Owned address id registered ((a, j) ∷ m) o h =
    ground (arith, lookup-Owned address id registered m o.1, o.0)

lookup-fresh :
    (address id next : ℕ) (m : List (ℕ × ℕ))
    → All (λ e. e.1 < next) m
    → lookup address m ≡ some id
    → id < next
unfolding lookup
lookup-fresh address id next [] f h = absurd (cc h)
lookup-fresh address id next ((a, j) ∷ m) f h =
    ground (arith, lookup-fresh address id next m f.1, f.0)

lookup-remove_other : (a k : ℕ) (m : List (ℕ × ℕ)) → a ≢ k → lookup a (remove k m) ≡ lookup a m
unfolding lookup remove
lookup-remove_other a k [] h = refl
lookup-remove_other a k ((j, v) ∷ m) h = ground (arith, lookup-remove_other a k m h)

-- The peers of two addresses are two peers.
two_peers :
    (o : UdpOptions) (l : Listener) (a a' id id' : ℕ)
    → IsValid o l
    → a ≢ a'
    → lookup a l.peers ≡ some id
    → lookup a' l.peers ≡ some id'
    → id ≢ id'
two_peers o l a a' id id' v d h h' =
    let owner = lookup-Owned a id l.registered l.peers v.owned h in
    let owner' = lookup-Owned a' id' l.registered l.peers v.owned h' in
    ground (arith, owner, owner')

-- Peer `id` at `address` is as it was.
pub record Untouched (l l' : Listener) (address id : ℕ) : Type 0 where
  pub entry : lookup address l'.peers ≡ some id
  pub cell : l'.cells id ≡ l.cells id

update_other :
    (cells : ℕ → Peer) (id other : ℕ) (p : Peer)
    → other ≢ id
    → update cells id p other ≡ cells other
unfolding update
update_other cells id other p d = if_false (other == id) p (cells other) (ground arith)

same_Untouched :
    (l : Listener) (address id : ℕ) → lookup address l.peers ≡ some id → Untouched l l address id
same_Untouched l address id h = record { entry = h; cell = refl }

drop_replaced-cell :
    (l : Listener) (id : ℕ) (r : Option ℕ) → r ≢ some id → (drop_replaced r l).cells id ≡ l.cells id
unfolding drop_replaced
drop_replaced-cell l id none d = refl
drop_replaced-cell l id (some replaced) d =
    update_other l.cells replaced id _ (λ e. d (ap some (sym e)))

insert_peer-Untouched :
    (o : UdpOptions) (l : Listener) (address other id : ℕ) (p : Peer)
    → IsValid o l
    → address ≢ other
    → lookup other l.peers ≡ some id
    → Untouched l (insert_peer address p l) other id
unfolding insert_peer lookup
insert_peer-Untouched o l address other id p v d h = record {
  entry =
      if_false (address == other) _ _ (ground arith)
      ∙ lookup-remove_other other address l.peers (λ e. d (sym e))
      ∙ h;
  cell =
      update_other (drop_replaced (lookup address l.peers) l).cells l.next id p
        (ground (arith, lookup-fresh other id l.next l.peers v.fresh h))
      ∙ drop_replaced-cell l id (lookup address l.peers)
          (λ e. two_peers o l address other id id v d e h refl);
}

admit_peer-Untouched :
    (o : UdpOptions) (l : Listener) (bytes : List ℕ) (address other id : ℕ)
    (r : Result (List QueuedDatagram) (TrySendError QueuedDatagram) × Shared QueuedDatagram)
    → IsValid o l
    → address ≢ other
    → lookup other l.peers ≡ some id
    → Untouched l (admit_peer bytes address l r).1 other id
unfolding admit_peer
admit_peer-Untouched o l bytes address other id (err e, q) v d h = same_Untouched l other id h
admit_peer-Untouched o l bytes address other id (ok evicted, q) v d h =
    insert_peer-Untouched o l address other id _ v d h

dispatch_new-Untouched :
    (o : UdpOptions) (l : Listener) (bytes : List ℕ) (address received_at other id : ℕ)
    → IsValid o l
    → address ≢ other
    → lookup other l.peers ≡ some id
    → Untouched l (dispatch_new bytes address received_at l).1 other id
unfolding dispatch_new
dispatch_new-Untouched o l bytes address received_at other id v d h =
    elim (Bool-cases (
      (l.options.receive_queue_capacity == 0)
      || ltb l.options.receive_queue_bytes (length bytes))) [
        | inl e ↦ rw e (same_Untouched l other id h)
        | inr e ↦ rw e (elim (Bool-cases (l.slots == 0)) [
          | inl z ↦ rw z (same_Untouched l other id h)
          | inr z ↦ rw z (admit_peer-Untouched o l bytes address other id _ v d h)
        ])
      ]

open_peer_lem : (l : Listener) (r : Option ℕ) (id : ℕ) → open_peer l r ≡ some id → r ≡ some id
unfolding open_peer
open_peer_lem l none id h = h
open_peer_lem l (some found) id h = ground (arith, h)

dispatch_to-Untouched :
    (o : UdpOptions) (l : Listener) (bytes : List ℕ) (address received_at other id : ℕ)
    (r : Option ℕ)
    → IsValid o l
    → address ≢ other
    → lookup other l.peers ≡ some id
    → open_peer l (lookup address l.peers) ≡ r
    → Untouched l (dispatch_to bytes address received_at l r).1 other id
unfolding dispatch_to
dispatch_to-Untouched o l bytes address received_at other id none v d h e =
    dispatch_new-Untouched o l bytes address received_at other id v d h
dispatch_to-Untouched o l bytes address received_at other id (some found) v d h e = record {
  entry = h;
  cell = update_other l.cells found id _ (λ same.
      two_peers o l address other found id v d (open_peer_lem l (lookup address l.peers) found e) h
        (sym same));
}

-- A datagram from one address changes neither the entry nor the state of the peer at another
-- address, whatever its length and whether or not a new peer is made for it.
pub dispatch-Untouched :
    (o : UdpOptions) (l : Listener) (bytes : List ℕ) (address received_at other id : ℕ)
    → IsValid o l
    → address ≢ other
    → lookup other l.peers ≡ some id
    → Untouched l (dispatch bytes address received_at l).1 other id
unfolding dispatch
dispatch-Untouched o l bytes address received_at other id v d h =
    elim (Bool-cases (ltb max_datagram_size_limit (length bytes))) [
      | inl e ↦ rw e (same_Untouched l other id h)
      | inr e ↦ rw e (dispatch_to-Untouched o l bytes address received_at other id _ v d h refl)
    ]
