-- ===== src/Queue/Outgoing/Accounting.antt =====
-- What the queues of connection/queue/mod.rs report as lost.
use bevy_slinet.Common.{
  ℕ, zero, suc, ◌+◌, ◌<◌, ◌≤◌, ◌-◌, ◌≡◌, refl, ap, sym, ◌⊎◌, ◌∙◌, subst, ◌||◌, Bool, true, false,
  not, Option, none, some, List, [], ◌∷◌, Result, ok, err, ltb, ◌==◌, if_elim, not-false, not-true,
  length, length-map, map, map-append, arith, inl, inr, ◌++◌, if◌then◌else◌,
}
use bevy_slinet.Queue.Lossy.{
  Shared, OverflowPolicy, drop_newest, drop_oldest, item, TrySendError, TryRecvError, try_send,
  close_and_drain,
}
use bevy_slinet.Queue.Lossy.Invariant.{IsValid, admit, offered, try_send_where_lem}
use bevy_slinet.Queue.Lossy.Transfer.{Fits, admit-Fits, accepted-IsValid}
use bevy_slinet.Queue.Lossy.Room.{weigh, fits, Outcome, split_room-Outcome}
use bevy_slinet.Queue.Outgoing.{
  Outgoing, reliable, lossy, SendError, full, closed, Channel, outgoing_try_send, after_lossy,
  counted_error, after_try_recv, drain_channel, after_drain, drop_outgoing, forward_datagram,
  after_forward,
}
use bevy_slinet.Protocols.Transport.{QueueDropReason, TransportHandle, record_drops}

module _ {ℓ} {T : Type ℓ} where
  -- A packet is in a valid queue behind those that were in it, without the oldest, which left.
  pub record Queued (q : Shared T) (packet : T) (evicted : List T) (q' : Shared T) : Type ℓ where
    pub valid : IsValid q'
    pub kept : List T
    pub before : map item q.items ≡ evicted ++ kept
    pub after : map item q'.items ≡ kept ++ (packet ∷ [])
    pub was_open : q.receiver_open ≡ true

  -- An open queue without room for one more packet that weighs a byte.
  pub record IsFull (q : Shared T) : Type ℓ where
    pub is_open : q.receiver_open ≡ true
    pub no_room : (q.max_items ≤ length q.items) ⊎ (q.max_bytes < weigh q.items + 1)

  -- What becomes of a packet that is offered to a queue, and of the packets in it.
  abbrev pub Offer : Shared T → T → Result (List T) (TrySendError T) × Shared T → Type ℓ
  Offer q packet (ok evicted, q') = Queued q packet evicted q'
  Offer q packet (err (TrySendError.full back), q') = (back ≡ packet) × (q' ≡ q) × IsFull q
  Offer q packet (err (TrySendError.closed back), q') =
      (back ≡ packet) × (q' ≡ q) × (q.receiver_open ≡ false)

  offered-Offer :
      (q : Shared T) (packet : T) (o : Option (List (T × ℕ) × List (T × ℕ)))
      → IsValid q
      → q.receiver_open ≡ true
      → Fits q 1 o
      → (o ≡ none → IsFull q)
      → Offer q packet (offered q packet 1 o)
  offered-Offer q packet none v is_open f tight = (refl, refl, tight refl)
  offered-Offer q packet (some (gone, kept)) v is_open r tight = record {
    valid = accepted-IsValid q packet 1 v is_open r;
    kept = map item kept;
    before = ap (map item) (sym r.split) ∙ map-append item gone kept;
    after = map-append item kept ((packet, 1) ∷ []);
    was_open = is_open;
  }

  -- Only a queue without room refuses; one whose policy is to evict has room for what can ever fit.
  admit-IsFull :
      (q : Shared T) (p : OverflowPolicy)
      → q.receiver_open ≡ true
      → 1 ≤ q.max_bytes
      → admit q 1 (λ _. true) p ≡ none
      → IsFull q
  admit-IsFull q drop_newest is_open usable h =
      let tight = not_taken (fits q.max_items (q.max_bytes - 1) q.items) ([], q.items) h in
      record { is_open = is_open; no_room = ground (arith, tight) }
    where
      not_taken : {A : Type ℓ} (b : Bool) (a : A) → (if b then some a else none) ≡ none → b ≡ false
      not_taken true a e = absurd (cc e)
      not_taken false a e = refl
  admit-IsFull q drop_oldest is_open usable h =
      let blocked : Outcome (λ _. true) q.max_items (q.max_bytes - 1) q.items none =
        subst (Outcome (λ _. true) q.max_items (q.max_bytes - 1) q.items) h
          (split_room-Outcome (λ _. true) q.max_items (q.max_bytes - 1) q.items) in
      absurd (cc blocked.kept_back)

  pub try_send-Offer :
      (q : Shared T) (packet : T) → IsValid q → Offer q packet (try_send q packet 1)
  unfolding try_send
  try_send-Offer q packet v =
      subst (Offer q packet) (sym (try_send_where_lem q packet 1 (λ _. true) v)) (
        if_elim (Offer q packet) (not q.receiver_open) _ _ (λ c. (refl, refl, not-true c))
          (λ c.
            if_elim (Offer q packet) ((q.max_items == 0) || ltb q.max_bytes 1) _ _
              (λ useless.
                (refl, refl, record { is_open = not-false c; no_room = ground (arith, useless) }))
              (λ usable.
                offered-Offer q packet _ v (not-false c)
                  (admit-Fits q 1 (λ _. true) q.policy (ground arith) (ground arith))
                  (admit-IsFull q q.policy (not-false c) (ground arith)))))

module _ {R T H : Type 0} (channel : Channel R T) (transport : TransportHandle H) where
  -- What `try_send` on a datagram queue reports, and what is queued afterwards.
  abbrev pub Reported :
      Shared T → T → H → Result (Unit {0}) (SendError T) × Outgoing R T × H → Type 0
  Reported q packet h (ok u, lossy q', h') =
      (evicted : List T) × Queued q packet evicted q'
      × (h' ≡ record_drops transport QueueDropReason.outgoing_queue_evicted (length evicted) h)
  Reported q packet h (err (full back), lossy q', h') =
      (back ≡ packet)
      × (q' ≡ q)
      × IsFull q
      × (h' ≡ transport.record_drop QueueDropReason.outgoing_queue_full h)
  Reported q packet h (err (closed back), lossy q', h') =
      (back ≡ packet) × (q' ≡ q) × (h' ≡ h) × (q.receiver_open ≡ false)
  Reported q packet h (result, reliable r, h') = ⊥

  after_lossy-Reported :
      (q : Shared T) (packet : T) (h : H) (r : Result (List T) (TrySendError T) × Shared T)
      → Offer q packet r
      → Reported q packet h (after_lossy channel transport r h)
  unfolding after_lossy counted_error
  after_lossy-Reported q packet h (ok evicted, q') kept = (evicted, kept, refl)
  after_lossy-Reported q packet h (err (TrySendError.full back), q') (e, s, tight) =
      (e, s, tight, refl)
  after_lossy-Reported q packet h (err (TrySendError.closed back), q') (e, s, is_closed) =
      (e, s, refl, is_closed)

  -- A packet that is sent on a valid datagram queue is queued behind those that stay, and the oldest,
  -- which it displaces, are each reported as evicted; or it comes back from an open queue that has no
  -- room, which is reported once and left as it was; or it comes back from a closed queue, and nothing is reported.
  pub outgoing_try_send-Reported :
      (q : Shared T) (packet : T) (h : H)
      → IsValid q
      → Reported q packet h (outgoing_try_send channel transport packet (lossy q) h)
  unfolding outgoing_try_send
  outgoing_try_send-Reported q packet h v =
      after_lossy-Reported q packet h (try_send q packet 1) (try_send-Offer q packet v)

  -- A channel whose receiver takes what is queued, in order, also after it is closed.
  pub record IsDrained (queued : R → List T) : Type 0 where
    pub closes : (r : R) → queued (channel.close_channel r) ≡ queued r
    pub takes :
        (r : R) (packet : T) (rest : List T)
        → queued r ≡ packet ∷ rest
        → (r' : R) × (channel.channel_try_recv r ≡ (ok packet, r')) × (queued r' ≡ rest)
    pub ends :
        (r : R)
        → queued r ≡ []
        → (e : TryRecvError) × (r' : R) × (channel.channel_try_recv r ≡ (err e, r'))

  module _ (queued : R → List T) (laws : IsDrained queued) where
    abbrev pub waiting : Outgoing R T → ℕ
    waiting (reliable r) = length (queued r)
    waiting (lossy q) = length q.items

    drain_channel-Reported :
        (fuel : ℕ) (packets : List T) (r : R) (h : H)
        → queued r ≡ packets
        → length packets < fuel
        → (r' : R) × (drain_channel channel transport fuel r h
            ≡ some (
              r',
              record_drops transport QueueDropReason.closed_before_delivery (length packets) h,
            ))
    unfolding drain_channel after_try_recv record_drops
    drain_channel-Reported zero packets r h e enough = absurd (omega arith)
    drain_channel-Reported (suc fuel) [] r h e enough =
        let (error, r', got) = laws.ends r e in
        (r', ap (after_try_recv channel transport (drain_channel channel transport fuel) h) got)
    drain_channel-Reported (suc fuel) (packet ∷ rest) r h e enough =
        let (r', got, left) = laws.takes r packet rest e in
        let (last, drained) =
          drain_channel-Reported fuel rest r'
            (transport.record_drop QueueDropReason.closed_before_delivery h) left (omega arith) in
        (
          last,
          ap (after_try_recv channel transport (drain_channel channel transport fuel) h) got
              ∙ drained,
        )

    -- When the receiving end of a connection that has a transport goes away, every packet that still
    -- waits is reported once, on either kind of queue.
    pub drop_outgoing-Reported :
        (fuel : ℕ) (o : Outgoing R T) (h : H)
        → waiting o < fuel
        → (o' : Outgoing R T) × (drop_outgoing channel transport fuel true o h
            ≡ some
                (o', record_drops transport QueueDropReason.closed_before_delivery (waiting o) h))
    unfolding drop_outgoing close_and_drain after_drain
    drop_outgoing-Reported fuel (lossy q) h enough = (
      lossy (close_and_drain (close_and_drain q).1).1,
      ap
          (λ n. some (
            lossy (close_and_drain (close_and_drain q).1).1,
            record_drops transport QueueDropReason.closed_before_delivery n h,
          ))
          (length-map q.items item),
    )
    drop_outgoing-Reported fuel (reliable r) h enough =
        let (r', drained) =
          drain_channel-Reported fuel (queued r) (channel.close_channel r) h (laws.closes r)
            enough in
        (reliable (channel.drop_receiver r'), ap (after_drain channel transport) drained)

-- What `forward` of a datagram connection does, and what is queued for the ECS afterwards.
module _ {T H : Type 0} (transport : TransportHandle H) where
  abbrev pub Forwarded : Shared T → T → H → Bool × List T × Shared T × H → Type 0
  Forwarded q packet h (go_on, evicted, q', h') =
      ((go_on ≡ true) × (h' ≡ h) × Queued q packet evicted q')
      ⊎ ((go_on ≡ true)
          × (h' ≡ transport.record_drop QueueDropReason.receive_queue_full h)
          × (q' ≡ q)
          × (evicted ≡ [])
          × IsFull q)
      ⊎ ((go_on ≡ false) × (h' ≡ h) × (q' ≡ q) × (evicted ≡ []) × (q.receiver_open ≡ false))

  after_forward-Forwarded :
      (q : Shared T) (packet : T) (h : H) (r : Result (List T) (TrySendError T) × Shared T)
      → Offer q packet r
      → Forwarded q packet h (after_forward transport r h)
  unfolding after_forward
  after_forward-Forwarded q packet h (ok evicted, q') kept = inl (refl, refl, kept)
  after_forward-Forwarded q packet h (err (TrySendError.full back), q') (e, s, tight) =
      inr (inl (refl, refl, s, refl, tight))
  after_forward-Forwarded q packet h (err (TrySendError.closed back), q') (e, s, is_closed) =
      inr (inr (refl, refl, s, refl, is_closed))

  -- A datagram that is forwarded to the ECS over a valid queue is queued behind those that stay, and
  -- the oldest, which it displaces, are handed to the caller; or an open queue that has no room stays
  -- as it is and one loss is reported;
  -- or forwarding stops, exactly when the queue is closed, and nothing is reported.
  pub forward_datagram-Forwarded :
      (q : Shared T) (packet : T) (h : H)
      → IsValid q
      → Forwarded q packet h (forward_datagram transport packet q h)
  unfolding forward_datagram
  forward_datagram-Forwarded q packet h v =
      after_forward-Forwarded q packet h (try_send q packet 1) (try_send-Offer q packet v)
