-- ===== src/Queue/Lossy/Invariant.antt =====
-- What holds of a queue of connection/queue/lossy.rs between any two calls, and `try_send_where`
-- in a state where it holds.
use bevy_slinet.Common.{
  ℕ, ◌+◌, ◌-◌, ◌≤◌, ◌≡◌, ◌⊎◌, ◌≢◌, ◌||◌, inl, inr, refl, ap, Bool, true, false, not, Option, none,
  some, List, [], ◌∷◌, ◌++◌, map, ltb, leb, ◌==◌, if◌then◌else◌, length, arith, Bool-cases, Result,
  ok, err, word_max, add_word, else_congr,
}
use bevy_slinet.Queue.Lossy.{
  Shared, changed_one, OverflowPolicy, drop_newest, drop_oldest, TrySendError, item, make_room,
  enqueue, enqueue_after, drain_front, push_back, try_send_where,
}
use bevy_slinet.Queue.Lossy.Room.{
  counts, weigh, fits, split_room, Room, evict_scan-split_room, split_room-Outcome, Outcome,
  drain_front_lem,
}

module _ {ℓ} {A : Type ℓ} where
  pub record IsValid (q : Shared A) : Type ℓ where
    pub counted : q.bytes ≡ weigh q.items
    pub few : length q.items ≤ q.max_items
    pub light : q.bytes ≤ q.max_bytes
    pub items_word : q.max_items ≤ word_max
    pub bytes_word : q.max_bytes ≤ word_max
    pub drained : (q.receiver_open ≡ true) ⊎ (q.items ≡ [])

  -- The entries given up and kept for a new entry of `bytes`, and `none` if it is refused.
  abbrev pub admit :
      Shared A → ℕ → (A → Bool) → OverflowPolicy → Option (List (A × ℕ) × List (A × ℕ))
  admit q bytes can_evict drop_newest =
      if fits q.max_items (q.max_bytes - bytes) q.items then some ([], q.items) else none
  admit q bytes can_evict drop_oldest =
      split_room can_evict q.max_items (q.max_bytes - bytes) q.items

  abbrev pub accepted : Shared A → A → ℕ → List (A × ℕ) → Shared A
  accepted q value bytes kept = record q {
    state = record (q.state) { items = kept ++ ((value, bytes) ∷ []); bytes = weigh kept + bytes };
    signals = changed_one ∷ q.signals;
  }

  abbrev pub offered :
      Shared A
      → A
      → ℕ
      → Option (List (A × ℕ) × List (A × ℕ))
      → Result (List A) (TrySendError A) × Shared A
  offered q value bytes none = (err (TrySendError.full value), q)
  offered q value bytes (some (gone, kept)) = (ok (map item gone), accepted q value bytes kept)

  Room-refusal :
      (can_evict : A → Bool) {max_items spare : ℕ} {xs gone kept : List (A × ℕ)}
      → Room can_evict max_items spare xs gone kept
      → max_items ≢ 0
      → (leb max_items (length kept) || ltb spare (weigh kept)) ≡ false
  Room-refusal can_evict {kept} r h = ground (arith, r.enough)

  abbrev grown : Shared A → A → ℕ → ℕ → Shared A
  grown q value bytes n = record q {
    state = record (q.state) { bytes = n; items = q.items ++ ((value, bytes) ∷ []) };
    signals = changed_one ∷ q.signals;
  }

  -- The byte count does not wrap.
  pub push_back_lem :
      (q : Shared A) (value : A) (bytes : ℕ)
      → q.bytes ≡ weigh q.items
      → q.bytes + bytes ≤ word_max
      → push_back q value bytes ≡ accepted q value bytes q.items
  unfolding push_back
  push_back_lem q value bytes counted small = ap (grown q value bytes) sum
    where
      sum : add_word q.bytes bytes ≡ weigh q.items + bytes
      sum = omega arith

  -- An entry that fits is added.
  enqueue_fits :
      (q : Shared A) (value : A) (bytes : ℕ) (gone : List A)
      → (leb q.max_items (length q.items) || ltb (q.max_bytes - bytes) (weigh q.items)) ≡ false
      → bytes ≤ q.max_bytes
      → q.max_bytes ≤ word_max
      → q.bytes ≡ weigh q.items
      → enqueue q value bytes gone ≡ (ok gone, accepted q value bytes q.items)
  unfolding enqueue
  enqueue_fits q value bytes gone test small word counted =
      rw (counted, test, enqueue) (ap (λ n. (ok gone, grown q value bytes n)) sum)
    where
      sum : add_word (weigh q.items) bytes ≡ weigh q.items + bytes
      sum = ground arith

  -- An entry that does not fit is refused, and nothing changes.
  enqueue_full :
      (q : Shared A) (value : A) (bytes : ℕ) (gone : List A)
      → q.bytes ≡ weigh q.items
      → (leb q.max_items (length q.items) || ltb (q.max_bytes - bytes) (weigh q.items)) ≡ true
      → enqueue q value bytes gone ≡ (err (TrySendError.full value), q)
  unfolding enqueue
  enqueue_full q value bytes gone counted test = rw (counted, test, enqueue)

  enqueue_after-newest :
      (q : Shared A) (value : A) (bytes : ℕ) (can_evict : A → Bool)
      → IsValid q
      → bytes ≤ q.max_bytes
      → enqueue_after q value bytes (some ([], q.state))
        ≡ offered q value bytes (admit q bytes can_evict drop_newest)
  unfolding enqueue_after
  enqueue_after-newest q value bytes can_evict v small =
      elim (Bool-cases (fits q.max_items (q.max_bytes - bytes) q.items)) [
        | inl loose ↦
            rw loose (enqueue_fits q value bytes [] (ground arith) small v.bytes_word v.counted)
        | inr tight ↦ rw tight (enqueue_full q value bytes [] v.counted (ground arith))
      ]

  enqueue_after-oldest :
      (q : Shared A) (value : A) (bytes : ℕ) (can_evict : A → Bool)
      (o : Option (List (A × ℕ) × List (A × ℕ)))
      → IsValid q
      → q.max_items ≢ 0
      → bytes ≤ q.max_bytes
      → Outcome can_evict q.max_items (q.max_bytes - bytes) q.items o
      → enqueue_after q value bytes
          (elim (counts o) [ none ↦ none | some (n, w) ↦ some (drain_front q.state n w) ])
        ≡ offered q value bytes o
  unfolding enqueue_after
  enqueue_after-oldest q value bytes can_evict none v pos small r = refl
  enqueue_after-oldest q value bytes can_evict (some (gone, kept)) v pos small r =
      rw (drain_front_lem q.state gone kept r.split (omega (arith, v.few, v.items_word))) (
        enqueue_fits (record q { state = record (q.state) { items = kept; bytes = weigh kept } })
          value bytes (map item gone) (Room-refusal can_evict r pos) small v.bytes_word refl)

  make_room-newest :
      (q : Shared A) (bytes : ℕ) (can_evict : A → Bool)
      → q.policy ≡ drop_newest
      → make_room q bytes can_evict ≡ some ([], q.state)
  unfolding make_room
  make_room-newest q bytes can_evict e = rw (e, make_room)

  make_room-oldest :
      (q : Shared A) (bytes : ℕ) (can_evict : A → Bool)
      → IsValid q
      → q.policy ≡ drop_oldest
      → make_room q bytes can_evict
        ≡ elim (counts (split_room can_evict q.max_items (q.max_bytes - bytes) q.items)) [
          | none ↦ none
          | some (n, w) ↦ some (drain_front q.state n w)
        ]
  unfolding make_room
  make_room-oldest q bytes can_evict v e = rw (
    e,
    make_room,
    v.counted,
    evict_scan-split_room can_evict q.max_items (q.max_bytes - bytes) q.items
        (omega (arith, v.few, v.items_word)) (omega (arith, v.counted, v.light, v.bytes_word)),
  )

  enqueue_after-make_room :
      (q : Shared A) (value : A) (bytes : ℕ) (can_evict : A → Bool) (p : OverflowPolicy)
      → q.policy ≡ p
      → IsValid q
      → q.max_items ≢ 0
      → bytes ≤ q.max_bytes
      → enqueue_after q value bytes (make_room q bytes can_evict)
        ≡ offered q value bytes (admit q bytes can_evict p)
  enqueue_after-make_room q value bytes can_evict drop_newest e v pos small =
      rw (make_room-newest q bytes can_evict e)
        (enqueue_after-newest q value bytes can_evict v small)
  enqueue_after-make_room q value bytes can_evict drop_oldest e v pos small =
      rw (make_room-oldest q bytes can_evict v e) (
        enqueue_after-oldest q value bytes can_evict _ v pos small
          (split_room-Outcome can_evict q.max_items (q.max_bytes - bytes) q.items))

  -- `try_send_where` in a valid queue, on every branch: it refuses a closed queue and an entry that
  -- can never fit; otherwise it gives up and keeps what the policy's plain recursion says, counts
  -- the bytes without a wrap, and wakes one receiver exactly if it accepts.
  pub try_send_where_lem :
      (q : Shared A) (value : A) (bytes : ℕ) (can_evict : A → Bool)
      → IsValid q
      → try_send_where q value bytes can_evict ≡ (
          if not q.receiver_open
          then (err (TrySendError.closed value), q)
          else if (q.max_items == 0) || ltb q.max_bytes bytes
          then (err (TrySendError.full value), q)
          else offered q value bytes (admit q bytes can_evict q.policy))
  unfolding try_send_where
  try_send_where_lem q value bytes can_evict v = else_congr (not q.receiver_open) _ λ _.
      else_congr ((q.max_items == 0) || ltb q.max_bytes bytes) _ λ usable.
        enqueue_after-make_room q value bytes can_evict q.policy refl v (ground arith)
          (ground arith)
