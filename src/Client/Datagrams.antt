-- ===== src/Client/Datagrams.antt =====
-- `receive_datagram_packets` of client.rs and of server.rs, which do the same. A packet carries the
-- number of its connection; the observers of a packet are a parameter, by what they cancel.
pub mod Fates
use bevy_slinet.Common.{
  ℕ, zero, suc, ◌+◌, ◌≤◌, ◌≡◌, ◌⊎◌, inl, inr, refl, sym, ap, ◌∙◌, Bool, false, ◌||◌, List, [], ◌∷◌,
  ◌++◌, map, Result, ok, err, if◌then◌else◌, if_elim, length, arith, none, some, Bool-cases, true,
  times, subst, append_assoc, append-nil,
}
use bevy_slinet.Queue.Lossy.{
  Shared, item, TryRecvError, try_recv_if, front_ready, pop_front, recv_error,
}

-- The flags of the connections, the packets whose event was triggered, oldest first, and the
-- connections whose transport was told of a lost packet, one entry for each report.
pub record Deliveries (P : Type 0) : Type 0 where
  pub is_published : ℕ → Bool
  pub is_cancelled : ℕ → Bool
  pub delivered : List (ℕ × P)
  pub reports : List ℕ

module _ {P : Type 0} (observe : ℕ × P → (ℕ → Bool) → ℕ → Bool) where
  -- The test that `try_recv_if` makes of the front packet.
  abbrev pub is_ready : Deliveries P → ℕ × P → Bool
  is_ready w packet = w.is_published packet.0 || w.is_cancelled packet.0

  -- `record_drop(ClosedBeforeDelivery)` on the packet's connection.
  abbrev pub report : ℕ × P → Deliveries P → Deliveries P
  report packet w = record w { reports = packet.0 ∷ w.reports }

  -- `world.trigger(packet)`, with the observers.
  abbrev pub trigger : ℕ × P → Deliveries P → Deliveries P
  trigger packet w = record w {
    delivered = w.delivered ++ (packet ∷ []);
    is_cancelled = observe packet w.is_cancelled;
  }

  -- The system's part of a round: the packets for which a command is queued, the queue, and the
  -- world.
  abbrev pub Progress : Type 0
  Progress = List (ℕ × P) × Shared (ℕ × P) × Deliveries P

  unfoldable pub queue_command : ℕ × P → Deliveries P → (Deliveries P → Progress) → Progress
  queue_command packet w rest =
      if w.is_cancelled packet.0
      then rest (report packet w)
      else (let (commands, q, w') = rest w in (packet ∷ commands, q, w'))

  unfoldable pub after_recv :
      Deliveries P
      → (Shared (ℕ × P) → Deliveries P → Progress)
      → Result (ℕ × P) TryRecvError × Shared (ℕ × P)
      → Progress
  unfolding queue_command
  after_recv w rest (err e, q) = ([], q, w)
  after_recv w rest (ok packet, q) = queue_command packet w (rest q)

  unfoldable pub take_packets : ℕ → Shared (ℕ × P) → Deliveries P → Progress
  unfolding after_recv try_recv_if
  take_packets zero q w = ([], q, w)
  take_packets (suc budget) q w = after_recv w (take_packets budget) (try_recv_if q (is_ready w))

  -- The commands, which test the token again: an observer of an earlier packet may have cancelled it.
  unfoldable pub run_commands : List (ℕ × P) → Deliveries P → Deliveries P
  run_commands [] w = w
  run_commands (packet ∷ rest) w =
      run_commands rest (if w.is_cancelled packet.0 then report packet w else trigger packet w)

  unfoldable pub receive_datagram_packets :
      ℕ → Shared (ℕ × P) → Deliveries P → Shared (ℕ × P) × Deliveries P
  unfolding take_packets run_commands
  receive_datagram_packets budget q w =
      let (commands, q', w') = take_packets budget q w in (q', run_commands commands w')
