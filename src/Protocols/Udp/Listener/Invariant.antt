-- ===== src/Protocols/Udp/Listener/Invariant.antt =====
-- The states that a listener of protocols/udp/listener.rs reaches.
use bevy_slinet.Common.{
  ℕ, ap, sym, subst, ◌+◌, ◌≤◌, ◌<◌, ◌≡◌, ◌⊎◌, inl, inr, refl, ◌∙◌, true, false, Option, none, some,
  List, [], ◌==◌, length, All, arith, if_elim,
}
use bevy_slinet.Protocols.Udp.Settings.{UdpOptions}
use bevy_slinet.Protocols.Udp.Peer.{close}
use bevy_slinet.Protocols.Udp.Listener.{
  Listener, new_listener, dispatch, drop_registration, update, drop_stream, drop_listener,
  forget_peer, lookup, remove, remove_id,
}
use bevy_slinet.Protocols.Udp.Listener.Registry.{
  find_id, Owned, Keys, Without, remove-Keys, remove-All, remove-Without, Owned-Without,
  Owned-remove_id, length-remove_id, length-Owned,
}
use bevy_slinet.Protocols.Udp.Listener.Valid.{IsValid, new_listener-IsValid, dispatch-IsValid}

-- What happens to a listener with options `o`: a datagram arrives while it lives, the stream or the
-- registration of a peer ends, or the listener itself.
pub data Step : Listener → Listener → Type 0 where
  arrives :
      (l : Listener) (bytes : List ℕ) (address received_at : ℕ)
      → l.is_alive ≡ true
      → Step l (dispatch bytes address received_at l).1
  stream_ends :
      (l : Listener) (address id : ℕ)
      → find_id id l.registered ≡ some address
      → Step l (drop_stream address id l)
  registration_ends :
      (l : Listener) (address id : ℕ)
      → find_id id l.registered ≡ some address
      → Step l (drop_registration address id l)
  ends : (l : Listener) → l.is_alive ≡ true → Step l (drop_listener l)

pub data Reachable (o : UdpOptions) : Listener → Type 0 where
  start : Reachable o (new_listener o)
  next_step : (l l' : Listener) → Reachable o l → Step l l' → Reachable o l'

-- The effect of `forget_peer` on a valid listener, and what it leaves of the registration.
record Forgets (l l' : Listener) (id : ℕ) : Type 0 where
  options : l'.options ≡ l.options
  ended : (l'.is_alive ≡ true) ⊎ (l'.peers ≡ [])
  next : l'.next ≡ l.next
  owned : Owned l.registered l'.peers
  fresh : All (λ e. e.1 < l.next) l'.peers
  keys : Keys l'.peers
  without : Without id l'.peers

forget_peer-Forgets :
    (o : UdpOptions) (l : Listener) (address id : ℕ) (found : Option ℕ)
    → lookup address l.peers ≡ found
    → find_id id l.registered ≡ some address
    → IsValid o l
    → Forgets l (forget_peer address id found l) id
unfolding forget_peer remove
forget_peer-Forgets o l address id none e f v = record {
  options = refl;
  ended = v.ended;
  next = refl;
  owned = v.owned;
  fresh = v.fresh;
  keys = v.keys;
  without = Owned-Without address id l.registered l.peers f v.owned v.keys (λ h. cc (e, h));
}
forget_peer-Forgets o l address id (some found) e f v =
    if_elim (λ r. Forgets l r id) (found == id) _ _
      (λ same. record {
        options = refl;
        ended = elim v.ended [ inl a ↦ inl a | inr h ↦ inr (ap (remove address) h) ];
        next = refl;
        owned = remove-All (λ e. find_id e.1 l.registered ≡ some e.0) address l.peers v.owned;
        fresh = remove-All (λ e. e.1 < l.next) address l.peers v.fresh;
        keys = remove-Keys address l.peers v.keys;
        without = remove-Without address id l.registered l.peers f v.owned;
      })
      (λ other. record {
        options = refl;
        ended = v.ended;
        next = refl;
        owned = v.owned;
        fresh = v.fresh;
        keys = v.keys;
        without =
            Owned-Without address id l.registered l.peers f v.owned v.keys
              (λ h. ground (arith, e, h, other));
      })

-- The map of a listener that has ended is empty.
ended-Forgets :
    (o : UdpOptions) (l : Listener) (id : ℕ) → l.is_alive ≡ false → IsValid o l → Forgets l l id
ended-Forgets o l id e v = record {
  options = refl;
  ended = v.ended;
  next = refl;
  owned = v.owned;
  fresh = v.fresh;
  keys = v.keys;
  without = elim v.ended [
    | inl a ↦ absurd (cc (e, a))
    | inr h ↦ subst (λ m. Without id m) (sym h) tt
  ];
}

drop_registration-IsValid :
    (o : UdpOptions) (address id : ℕ) (l : Listener)
    → find_id id l.registered ≡ some address
    → IsValid o l
    → IsValid o (drop_registration address id l)
unfolding drop_registration
drop_registration-IsValid o address id l f v = give_back (
    if_elim (λ r. Forgets l r id) l.is_alive _ _
      (λ a. forget_peer-Forgets o l address id (lookup address l.peers) refl f v)
      (λ e. ended-Forgets o l id e v))
  where
    give_back :
        {l' : Listener}
        → Forgets l l' id
        → IsValid o (record l' {
          cells = update l'.cells id (close (l'.cells id));
          registered = remove_id id l.registered;
          slots = l.slots + 1;
        })
    give_back {l'} h = record {
      options = h.options ∙ v.options;
      permits =
          (let before = v.permits in
            let one = length-remove_id id address l.registered f in omega arith);
      owned = Owned-remove_id id l.registered l'.peers h.without h.owned;
      fresh = subst (λ n. All (λ e. e.1 < n) l'.peers) (sym h.next) h.fresh;
      keys = h.keys;
      ended = h.ended;
    }

drop_stream-IsValid :
    (o : UdpOptions) (address id : ℕ) (l : Listener)
    → find_id id l.registered ≡ some address
    → IsValid o l
    → IsValid o (drop_stream address id l)
unfolding drop_stream
drop_stream-IsValid o address id l f v = record {
  options = after.options;
  permits = after.permits;
  owned = after.owned;
  fresh = after.fresh;
  keys = after.keys;
  ended = after.ended;
}
  where
    after : IsValid o (drop_registration address id l)
    after = drop_registration-IsValid o address id l f v

drop_listener-IsValid : (o : UdpOptions) (l : Listener) → IsValid o l → IsValid o (drop_listener l)
unfolding drop_listener
drop_listener-IsValid o l v = record {
  options = v.options;
  permits = v.permits;
  owned = tt;
  fresh = tt;
  keys = tt;
  ended = inr refl;
}

Step-IsValid : (o : UdpOptions) (l l' : Listener) → Step l l' → IsValid o l → IsValid o l'
Step-IsValid o _ _ (arrives l bytes address received_at a) v =
    dispatch-IsValid o bytes address received_at l a v
Step-IsValid o _ _ (stream_ends l address id f) v = drop_stream-IsValid o address id l f v
Step-IsValid o _ _ (registration_ends l address id f) v =
    drop_registration-IsValid o address id l f v
Step-IsValid o _ _ (ends l a) v = drop_listener-IsValid o l v

-- Whatever datagrams arrive at a listener and whatever streams end, the invariant holds.
pub Reachable-IsValid : (o : UdpOptions) (l : Listener) → Reachable o l → IsValid o l
Reachable-IsValid o _ start = new_listener-IsValid o
Reachable-IsValid o _ (next_step l l' r s) = Step-IsValid o l l' s (Reachable-IsValid o l r)

-- In every state that a listener reaches, the permits left and the registrations held together are
-- the configured maximum, and the map has at most as many peers as registrations are held.
pub Reachable-Bounded :
    (o : UdpOptions) (l : Listener)
    → Reachable o l
    → (l.slots + length l.registered ≡ o.max_peers)
      × (length l.peers ≤ length l.registered)
      × (length l.peers ≤ o.max_peers)
Reachable-Bounded o l r =
    let v = Reachable-IsValid o l r in
    let held = v.permits in
    let fewer = length-Owned l.registered l.peers v.owned v.keys in (held, fewer, omega arith)
