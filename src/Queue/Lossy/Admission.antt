-- ===== src/Queue/Lossy/Admission.antt =====
-- Which entries `try_send_where` of connection/queue/lossy.rs gives up for a new one.
use bevy_slinet.Common.{
  ℕ, ◌-◌, ◌≤◌, ◌≡◌, ◌∙◌, ◌≢◌, ◌||◌, refl, ap, Bool, true, not, Option, some, List, [], ltb, leb,
  ◌==◌, arith, ok, if_false, if_true, ◌&&◌,
}
use bevy_slinet.Queue.Lossy.{
  Shared, OverflowPolicy, drop_newest, drop_oldest, try_send, try_send_where,
}
use bevy_slinet.Queue.Lossy.Room.{split_room, split_room-Outcome, Outcome}
use bevy_slinet.Queue.Lossy.Invariant.{IsValid, admit, offered, accepted, try_send_where_lem}

module _ {ℓ} {A : Type ℓ} where
  -- An open queue that can hold the entry offers it what its policy makes room for.
  pub try_send_where-usable :
      (q : Shared A) (value : A) (bytes : ℕ) (can_evict : A → Bool) (p : OverflowPolicy)
      → IsValid q
      → q.policy ≡ p
      → q.receiver_open ≡ true
      → q.max_items ≢ 0
      → bytes ≤ q.max_bytes
      → try_send_where q value bytes can_evict ≡ offered q value bytes (admit q bytes can_evict p)
  try_send_where-usable q value bytes can_evict p v e is_open pos small =
      try_send_where_lem q value bytes can_evict v
      ∙ if_false (not q.receiver_open) _ _ (ap not is_open)
      ∙ if_false ((q.max_items == 0) || ltb q.max_bytes bytes) _ _ (ground arith)
      ∙ ap (λ r. offered q value bytes (admit q bytes can_evict r)) e

  -- What a queue that may discard does with an entry that it can hold.
  pub record Evicts (q : Shared A) (value : A) (bytes : ℕ) (can_evict : A → Bool) : Type ℓ where
    pub choice : Option (List (A × ℕ) × List (A × ℕ))
    pub result : try_send_where q value bytes can_evict ≡ offered q value bytes choice
    pub least : Outcome can_evict q.max_items (q.max_bytes - bytes) q.items choice

  -- A valid open queue under `DropOldest` either refuses an entry of at most its byte limit because
  -- a protected entry is the first that would have to go, and stays as it is, or it gives up the
  -- shortest front that makes room, none of it protected, and adds the entry behind the rest.
  pub try_send_where-Evicts :
      (q : Shared A) (value : A) (bytes : ℕ) (can_evict : A → Bool)
      → IsValid q
      → q.policy ≡ drop_oldest
      → q.receiver_open ≡ true
      → q.max_items ≢ 0
      → bytes ≤ q.max_bytes
      → Evicts q value bytes can_evict
  try_send_where-Evicts q value bytes can_evict v e is_open pos small = record {
    choice = split_room can_evict q.max_items (q.max_bytes - bytes) q.items;
    result = try_send_where-usable q value bytes can_evict drop_oldest v e is_open pos small;
    least = split_room-Outcome can_evict q.max_items (q.max_bytes - bytes) q.items;
  }

  admit-empty :
      (q : Shared A) (bytes : ℕ) (can_evict : A → Bool) (p : OverflowPolicy)
      → q.items ≡ []
      → q.max_items ≢ 0
      → admit q bytes can_evict p ≡ some ([], [])
  unfolding split_room
  admit-empty q bytes can_evict drop_newest e pos =
      rw e (if_true (ltb 0 q.max_items && leb 0 (q.max_bytes - bytes)) _ _ (ground arith))
  admit-empty q bytes can_evict drop_oldest e pos =
      ap (split_room can_evict q.max_items (q.max_bytes - bytes)) e

  -- An empty queue accepts an entry that it can hold.
  pub try_send-empty :
      (q : Shared A) (value : A) (bytes : ℕ)
      → IsValid q
      → q.items ≡ []
      → q.receiver_open ≡ true
      → q.max_items ≢ 0
      → bytes ≤ q.max_bytes
      → try_send q value bytes ≡ (ok [], accepted q value bytes [])
  unfolding try_send
  try_send-empty q value bytes v e is_open pos small =
      try_send_where-usable q value bytes (λ _. true) q.policy v refl is_open pos small
      ∙ ap (offered q value bytes) (admit-empty q bytes (λ _. true) q.policy e pos)
