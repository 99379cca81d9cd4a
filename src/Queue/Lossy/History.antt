-- ===== src/Queue/Lossy/History.antt =====
-- The calls that senders and the receiver of a queue of connection/queue/lossy.rs make, one after
-- the other: the lock puts them in an order.
use bevy_slinet.Common.{ℕ, Bool, Option, none, some, List, [], ◌∷◌, ◌++◌, Result, ok, err}
use bevy_slinet.Queue.Lossy.{
  Shared, Poll, pending, ready, TrySendError, TryRecvError, clone_sender, drop_sender,
  try_send_where, send_check, send_round, close_and_drain, try_recv_if,
}

-- `awaits` is one round of the loop of `send`.
pub data Call {ℓ} (A : Type ℓ) : Type ℓ where
  clones drops closes : Call A
  offers : A → ℕ → (A → Bool) → Call A
  awaits : A → ℕ → Call A
  receives : (A → Bool) → Call A

-- What a call does to the queue, with the items that came in and those that left by it.
pub record Effect {ℓ} (A : Type ℓ) : Type ℓ where
  pub entered : List A
  pub left : List A
  pub after : Shared A

module _ {ℓ} {A : Type ℓ} where
  abbrev pub offered_effect : A → Result (List A) (TrySendError A) × Shared A → Effect A
  offered_effect value (ok evicted, q) = record { entered = value ∷ []; left = evicted; after = q }
  offered_effect value (err e, q) = record { entered = []; left = []; after = q }

  abbrev pub awaited_effect : A → Poll (Result (Unit {0}) (TrySendError A)) × Shared A → Effect A
  awaited_effect value (ready (ok u), q) = record { entered = value ∷ []; left = []; after = q }
  awaited_effect value (ready (err e), q) = record { entered = []; left = []; after = q }
  awaited_effect value (pending, q) = record { entered = []; left = []; after = q }

  abbrev pub received_effect : Result A TryRecvError × Shared A → Effect A
  received_effect (ok value, q) = record { entered = []; left = value ∷ []; after = q }
  received_effect (err e, q) = record { entered = []; left = []; after = q }

  abbrev pub quiet : Shared A → Effect A
  quiet q = record { entered = []; left = []; after = q }

  unfoldable pub await_checked : Shared A → A → ℕ → Option (TrySendError A) → Effect A
  await_checked q value bytes (some e) = quiet q
  await_checked q value bytes none = awaited_effect value (send_round q value bytes)

  unfoldable pub effect : Shared A → Call A → Effect A
  unfolding await_checked
  effect q clones = quiet (clone_sender q)
  effect q drops = quiet (drop_sender q)
  effect q closes = record {
    entered = [];
    left = (close_and_drain q).0;
    after = (close_and_drain q).1;
  }
  effect q (offers value bytes can_evict) =
      offered_effect value (try_send_where q value bytes can_evict)
  effect q (awaits value bytes) = await_checked q value bytes (send_check q value bytes)
  effect q (receives is_ready) = received_effect (try_recv_if q is_ready)

  -- The effect of a whole history.
  unfoldable pub run : Shared A → List (Call A) → Effect A
  run q [] = quiet q
  run q (c ∷ cs) =
      let first = effect q c in
      let rest = run first.after cs in
      record {
        entered = first.entered ++ rest.entered;
        left = first.left ++ rest.left;
        after = rest.after;
      }
