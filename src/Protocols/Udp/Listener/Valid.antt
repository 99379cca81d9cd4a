-- ===== src/Protocols/Udp/Listener/Valid.antt =====
-- What holds of a listener of protocols/udp/listener.rs, and that a datagram keeps it.
use bevy_slinet.Common.{
  ℕ, ◌+◌, ◌<◌, ◌≡◌, ◌≢◌, ◌⊎◌, inl, inr, refl, ◌∙◌, true, Option, none, some, List, [], Result, ok,
  err, ltb, ◌==◌, ◌||◌, length, All, arith, Bool-cases,
}
use bevy_slinet.Queue.Lossy.{Shared, TrySendError}
use bevy_slinet.Protocols.Udp.Settings.{UdpOptions, max_datagram_size_limit}
use bevy_slinet.Protocols.Udp.Peer.{QueuedDatagram, Peer}
use bevy_slinet.Protocols.Udp.Listener.{
  Listener, new_listener, dispatch, dispatch_to, dispatch_new, admit_peer, insert_peer,
  drop_replaced, open_peer, lookup, remove,
}
use bevy_slinet.Protocols.Udp.Listener.Registry.{
  find_id, Owned, Keys, lookup-remove_self, remove-Keys, remove-All, Owned-cons, All-suc,
}

-- Each registration holds one permit, every entry of the map belongs to a registration, no address
-- has two entries, and a listener that has ended has no map.
pub record IsValid (o : UdpOptions) (l : Listener) : Type 0 where
  pub options : l.options ≡ o
  pub permits : l.slots + length l.registered ≡ o.max_peers
  pub owned : Owned l.registered l.peers
  pub fresh : All (λ e. e.1 < l.next) l.peers
  pub keys : Keys l.peers
  pub ended : (l.is_alive ≡ true) ⊎ (l.peers ≡ [])

pub new_listener-IsValid : (o : UdpOptions) → IsValid o (new_listener o)
unfolding new_listener
new_listener-IsValid o = record {
  options = refl;
  permits = omega arith;
  owned = tt;
  fresh = tt;
  keys = tt;
  ended = inl refl;
}

drop_replaced-options : (r : Option ℕ) (l : Listener) → (drop_replaced r l).options ≡ l.options
unfolding drop_replaced
drop_replaced-options none l = refl
drop_replaced-options (some id) l = refl

drop_replaced-is_alive : (r : Option ℕ) (l : Listener) → (drop_replaced r l).is_alive ≡ l.is_alive
unfolding drop_replaced
drop_replaced-is_alive none l = refl
drop_replaced-is_alive (some id) l = refl

insert_peer-IsValid :
    (o : UdpOptions) (address : ℕ) (p : Peer) (l : Listener)
    → l.slots ≢ 0
    → l.is_alive ≡ true
    → IsValid o l
    → IsValid o (insert_peer address p l)
unfolding insert_peer
insert_peer-IsValid o address p l s a v = record {
  options = drop_replaced-options (lookup address l.peers) l ∙ v.options;
  permits = (let before = v.permits in omega arith);
  owned = (
    ground arith,
    Owned-cons address l.next l.registered (remove address l.peers)
        (remove-All (λ e. e.1 < l.next) address l.peers v.fresh)
        (remove-All (λ e. find_id e.1 l.registered ≡ some e.0) address l.peers v.owned),
  );
  fresh = (
    omega arith,
    All-suc l.next (remove address l.peers)
        (remove-All (λ e. e.1 < l.next) address l.peers v.fresh),
  );
  keys = (lookup-remove_self address l.peers, remove-Keys address l.peers v.keys);
  ended = inl (drop_replaced-is_alive (lookup address l.peers) l ∙ a);
}

admit_peer-IsValid :
    (o : UdpOptions) (bytes : List ℕ) (address : ℕ) (l : Listener)
    (r : Result (List QueuedDatagram) (TrySendError QueuedDatagram) × Shared QueuedDatagram)
    → l.slots ≢ 0
    → l.is_alive ≡ true
    → IsValid o l
    → IsValid o (admit_peer bytes address l r).1
unfolding admit_peer
admit_peer-IsValid o bytes address l (err e, q) s a v = v
admit_peer-IsValid o bytes address l (ok evicted, q) s a v = insert_peer-IsValid o address _ l s a v

dispatch_new-IsValid :
    (o : UdpOptions) (bytes : List ℕ) (address received_at : ℕ) (l : Listener)
    → l.is_alive ≡ true
    → IsValid o l
    → IsValid o (dispatch_new bytes address received_at l).1
unfolding dispatch_new
dispatch_new-IsValid o bytes address received_at l a v =
    elim (Bool-cases (
      (l.options.receive_queue_capacity == 0)
      || ltb l.options.receive_queue_bytes (length bytes))) [
        | inl e ↦ rw e v
        | inr e ↦ rw e (elim (Bool-cases (l.slots == 0)) [
          | inl z ↦ rw z v
          | inr z ↦ rw z (admit_peer-IsValid o bytes address l _ (ground (arith, z)) a v)
        ])
      ]

dispatch_to-IsValid :
    (o : UdpOptions) (bytes : List ℕ) (address received_at : ℕ) (l : Listener) (id : Option ℕ)
    → l.is_alive ≡ true
    → IsValid o l
    → IsValid o (dispatch_to bytes address received_at l id).1
unfolding dispatch_to
dispatch_to-IsValid o bytes address received_at l none a v =
    dispatch_new-IsValid o bytes address received_at l a v
dispatch_to-IsValid o bytes address received_at l (some id) a v = record {
  options = v.options;
  permits = v.permits;
  owned = v.owned;
  fresh = v.fresh;
  keys = v.keys;
  ended = v.ended;
}

pub dispatch-IsValid :
    (o : UdpOptions) (bytes : List ℕ) (address received_at : ℕ) (l : Listener)
    → l.is_alive ≡ true
    → IsValid o l
    → IsValid o (dispatch bytes address received_at l).1
unfolding dispatch
dispatch-IsValid o bytes address received_at l a v =
    elim (Bool-cases (ltb max_datagram_size_limit (length bytes))) [
      | inl e ↦ rw e v
      | inr e ↦ rw e (
          dispatch_to-IsValid o bytes address received_at l (open_peer l (lookup address l.peers)) a
            v)
    ]
