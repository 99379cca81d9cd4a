-- ===== src/Queue/Lossy/Examples.antt =====
-- A queue of connection/queue/lossy.rs that holds two entries of weights 3 and 4.
use bevy_slinet.Common.{
  ℕ, ◌≤◌, ◌≡◌, ◌||◌, refl, inl, Bool, true, not, List, [], ◌∷◌, ◌++◌, ltb, ◌==◌, if◌then◌else◌,
  length, arith, err, map,
}
use bevy_slinet.Queue.Lossy.{Shared, item, drop_oldest, TrySendError, try_send_where, lossy_channel}
use bevy_slinet.Queue.Lossy.Room.{weigh}
use bevy_slinet.Queue.Lossy.Invariant.{IsValid, admit, offered, try_send_where_lem}
use bevy_slinet.Queue.Lossy.History.{Call, clones, drops, closes, offers, awaits, receives, run}
use bevy_slinet.Queue.Lossy.Preserve.{run-lossy_channel}
use bevy_slinet.Queue.Lossy.Admission.{Evicts, try_send_where-Evicts}

abbrev two_entries : Shared ℕ
two_entries = record {
  state = record { items = (10, 3) ∷ (20, 4) ∷ []; bytes = 7; senders = 1; receiver_open = true };
  max_items = 2;
  max_bytes = 8;
  policy = drop_oldest;
  signals = [];
}

two_entries-IsValid : IsValid two_entries
two_entries-IsValid = record {
  counted = refl;
  few = omega arith;
  light = omega arith;
  items_word = omega arith;
  bytes_word = omega arith;
  drained = inl refl;
}

-- The entry 10 is protected.
abbrev not_ten : ℕ → Bool
not_ten n = not (n == 10)

try_send_where_lem_example : try_send_where two_entries 30 2 not_ten ≡ (
    if not true
    then (err (TrySendError.closed 30), two_entries)
    else if (2 == 0) || ltb 8 2
    then (err (TrySendError.full 30), two_entries)
    else offered two_entries 30 2 (admit two_entries 2 not_ten drop_oldest))
try_send_where_lem_example = try_send_where_lem two_entries 30 2 not_ten two_entries-IsValid

try_send_where-Evicts_example : Evicts two_entries 30 2 (λ n. true)
try_send_where-Evicts_example =
    try_send_where-Evicts two_entries 30 2 (λ n. true) two_entries-IsValid refl refl
      (λ e. absurd (omega (arith, e))) (omega arith)

abbrev calls : List (Call ℕ)
calls =
    clones
    ∷ offers 1 3 (λ n. true)
    ∷ awaits 2 3
    ∷ offers 3 4 (λ n. true)
    ∷ receives (λ n. true)
    ∷ drops
    ∷ awaits 4 9
    ∷ closes
    ∷ []

run-lossy_channel_example :
    ((run (lossy_channel 2 8 drop_oldest) calls).after.bytes
      ≡ weigh (run (lossy_channel 2 8 drop_oldest) calls).after.items)
    × (length (run (lossy_channel 2 8 drop_oldest) calls).after.items ≤ 2)
    × ((run (lossy_channel 2 8 drop_oldest) calls).after.bytes ≤ 8)
    × ((run (lossy_channel 2 8 drop_oldest) calls).entered
        ≡ (run (lossy_channel 2 8 drop_oldest) calls).left
          ++ map item (run (lossy_channel 2 8 drop_oldest) calls).after.items)
run-lossy_channel_example = run-lossy_channel 2 8 drop_oldest calls (omega arith) (omega arith)
