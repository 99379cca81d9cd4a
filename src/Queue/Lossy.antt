-- ===== src/Queue/Lossy.antt =====
-- src/connection/queue/lossy.rs: a bounded queue that can discard its oldest items.
-- The lock makes each method one step on `Shared`, so a method maps the shared value to its result
-- and the new shared value. What the method tells the two `Notify` objects is logged in `signals`,
-- newest first.
pub mod Room
pub mod Invariant
pub mod History
pub mod Transfer
pub mod Preserve
pub mod Admission
mod Examples
use bevy_slinet.Common.{
  ℕ, ◌-◌, Bool, true, false, ◌&&◌, ◌||◌, not, Option, none, some, List, [], ◌∷◌, ◌++◌, map, Result,
  ok, err, ltb, leb, ◌==◌, if◌then◌else◌, length, take, drop, add_word, sub_word,
}

-- `OverflowPolicy` of connection/queue/mod.rs.
pub data OverflowPolicy : Type 0 where
  drop_newest drop_oldest : OverflowPolicy

abbrev pub is_drop_oldest : OverflowPolicy → Bool
is_drop_oldest drop_newest = false
is_drop_oldest drop_oldest = true

-- The calls of `Notify::notify_one` and `Notify::notify_waiters`.
pub data Signal : Type 0 where
  changed_one changed_all space_one space_all : Signal

pub data TrySendError {ℓ} (A : Type ℓ) : Type ℓ where
  full : A → TrySendError A
  closed : A → TrySendError A

-- `Pending` where the future goes on waiting for `space`.
pub data Poll {ℓ} (A : Type ℓ) : Type ℓ where
  pending : Poll A
  ready : A → Poll A

pub data TryRecvError : Type 0 where
  empty disconnected : TryRecvError

pub record State {ℓ} (A : Type ℓ) : Type ℓ where
  pub items : List (A × ℕ)
  pub bytes : ℕ
  pub senders : ℕ
  pub receiver_open : Bool

pub record Shared {ℓ} (A : Type ℓ) : Type ℓ where
  pub state : State A
  pub open state use *
  pub max_items : ℕ
  pub max_bytes : ℕ
  pub policy : OverflowPolicy
  pub signals : List Signal

module _ {ℓ} {A : Type ℓ} where
  -- The item of a queue entry; the rest of the entry is its byte weight.
  abbrev pub item : A × ℕ → A
  item e = e.0

  abbrev pub is_empty : List (A × ℕ) → Bool
  is_empty [] = true
  is_empty (e ∷ es) = false

  unfoldable pub lossy_channel : ℕ → ℕ → OverflowPolicy → Shared A
  lossy_channel max_items max_bytes policy = record {
    state = record { items = []; bytes = 0; senders = 1; receiver_open = true };
    max_items = max_items;
    max_bytes = max_bytes;
    policy = policy;
    signals = [];
  }

  unfoldable pub clone_sender : Shared A → Shared A
  clone_sender q = record q { state = record (q.state) { senders = add_word q.senders 1 } }

  unfoldable pub drop_sender : Shared A → Shared A
  drop_sender q =
      let left = sub_word q.senders 1 in
      record q {
        state = record (q.state) { senders = left };
        signals = if left == 0 then changed_all ∷ q.signals else q.signals;
      }

  unfoldable pub is_closed : Shared A → Bool
  is_closed q = not q.receiver_open

  -- The loop over `state.items`: the items and bytes that remain once enough of the oldest entries
  -- are given up, and `none` at the `return` on a protected entry.
  unfoldable pub evict_scan : (A → Bool) → ℕ → ℕ → List (A × ℕ) → ℕ → ℕ → Option (ℕ × ℕ)
  evict_scan can_evict max_items spare [] remaining_items remaining_bytes =
      some (remaining_items, remaining_bytes)
  evict_scan can_evict max_items spare ((old, old_bytes) ∷ rest) remaining_items remaining_bytes =
      if ltb remaining_items max_items && leb remaining_bytes spare
      then some (remaining_items, remaining_bytes)
      else if not (can_evict old)
      then none
      else evict_scan can_evict max_items spare rest (sub_word remaining_items 1)
          (sub_word remaining_bytes old_bytes)

  -- The state after `drain(..evicted_count)`, and what was drained.
  unfoldable pub drain_front : State A → ℕ → ℕ → List A × State A
  drain_front s remaining_items remaining_bytes =
      let evicted_count = sub_word (length s.items) remaining_items in
      (
        map item (take evicted_count s.items),
        record s { items = drop evicted_count s.items; bytes = remaining_bytes },
      )

  -- The `DropOldest` block; `none` where it returns `Full`.
  unfoldable pub make_room : Shared A → ℕ → (A → Bool) → Option (List A × State A)
  make_room q bytes can_evict =
      if is_drop_oldest q.policy
      then elim (evict_scan can_evict q.max_items (q.max_bytes - bytes) q.items (length q.items)
          q.bytes) [
            | none ↦ none
            | some (remaining_items, remaining_bytes) ↦
                some (drain_front q.state remaining_items remaining_bytes)
          ]
      else some ([], q.state)

  unfoldable pub push_back : Shared A → A → ℕ → Shared A
  push_back q value bytes = record q {
    state = record (q.state) {
      bytes = add_word q.bytes bytes;
      items = q.items ++ ((value, bytes) ∷ []);
    };
    signals = changed_one ∷ q.signals;
  }

  -- The test after the `DropOldest` block, and the enqueueing.
  unfoldable pub enqueue : Shared A → A → ℕ → List A → Result (List A) (TrySendError A) × Shared A
  unfolding push_back
  enqueue q value bytes evicted =
      if leb q.max_items (length q.items) || ltb (q.max_bytes - bytes) q.bytes
      then (err (TrySendError.full value), q)
      else (ok evicted, push_back q value bytes)

  -- The outcome of the `DropOldest` block, taken on.
  unfoldable pub enqueue_after :
      Shared A → A → ℕ → Option (List A × State A) → Result (List A) (TrySendError A) × Shared A
  unfolding enqueue
  enqueue_after q value bytes none = (err (TrySendError.full value), q)
  enqueue_after q value bytes (some (evicted, s)) =
      enqueue (record q { state = s }) value bytes evicted

  unfoldable pub try_send_where :
      Shared A → A → ℕ → (A → Bool) → Result (List A) (TrySendError A) × Shared A
  unfolding make_room drain_front enqueue_after
  try_send_where q value bytes can_evict =
      if not q.receiver_open
      then (err (TrySendError.closed value), q)
      else if (q.max_items == 0) || ltb q.max_bytes bytes
      then (err (TrySendError.full value), q)
      else enqueue_after q value bytes (make_room q bytes can_evict)

  unfoldable pub try_send : Shared A → A → ℕ → Result (List A) (TrySendError A) × Shared A
  unfolding try_send_where
  try_send q value bytes = try_send_where q value bytes (λ _. true)

  -- The check of `send` before its loop, which returns without taking the lock.
  unfoldable pub send_check : Shared A → A → ℕ → Option (TrySendError A)
  send_check q value bytes =
      if (q.max_items == 0) || ltb q.max_bytes bytes then some (TrySendError.full value) else none

  -- One round of the loop of `send`.
  unfoldable pub send_round :
      Shared A → A → ℕ → Poll (Result (Unit {0}) (TrySendError A)) × Shared A
  unfolding push_back
  send_round q value bytes =
      if not q.receiver_open
      then (ready (err (TrySendError.closed value)), q)
      else if ltb (length q.items) q.max_items && leb q.bytes (q.max_bytes - bytes)
      then (ready (ok tt), push_back q value bytes)
      else (pending, q)

  unfoldable pub close_and_drain : Shared A → List A × Shared A
  close_and_drain q = (
    map item q.items,
    record q {
      state = record (q.state) { receiver_open = false; bytes = 0; items = [] };
      signals = space_all ∷ changed_all ∷ q.signals;
    },
  )

  unfoldable pub front_ready : (A → Bool) → List (A × ℕ) → Bool
  front_ready is_ready [] = false
  front_ready is_ready ((value, w) ∷ rest) = is_ready value

  -- `pop_front` and what follows it, where the queue is not empty.
  unfoldable pub pop_front : Shared A → List (A × ℕ) → Option (A × Shared A)
  pop_front q [] = none
  pop_front q ((value, w) ∷ rest) = some (
    value,
    record q {
      state = record (q.state) { items = rest; bytes = sub_word q.bytes w };
      signals = space_one ∷ q.signals;
    },
  )

  -- The error where nothing was taken.
  unfoldable pub recv_error : Shared A → TryRecvError
  recv_error q =
      if is_empty q.items && ((q.senders == 0) || not q.receiver_open) then disconnected else empty

  unfoldable pub try_recv_if : Shared A → (A → Bool) → Result A TryRecvError × Shared A
  unfolding front_ready pop_front recv_error
  try_recv_if q is_ready =
      elim (if front_ready is_ready q.items then pop_front q q.items else none) [
        | some (value, q') ↦ (ok value, q')
        | none ↦ (err (recv_error q), q)
      ]

  unfoldable pub try_recv : Shared A → Result A TryRecvError × Shared A
  unfolding try_recv_if
  try_recv q = try_recv_if q (λ _. true)
