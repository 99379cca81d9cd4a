-- ===== src/Connection/Reader/Liveness.antt =====
-- The reading task of client.rs and server.rs ends once its connection is cancelled.
use bevy_slinet.Common.{
  ℕ, ◌+◌, ◌-◌, ◌≤◌, ◌≡◌, inl, inr, refl, ap, Bool, true, List, [], ◌∷◌, Result, Bool-cases, arith,
}
use bevy_slinet.Queue.Lossy.{Poll, pending, ready}
use bevy_slinet.Protocols.Framing.{ReceiveError}
use bevy_slinet.Protocols.Transport.{TransportHandle}
use bevy_slinet.Connection.Reader.{
  PacketReceiveEvent, SendErrorCell, waiting, arrived, taken, ReaderPhase, selecting, forwarding,
  closing, reporting, finished, Reading, Happening, writer_failed, token_cancelled, others_leave,
  stopped, polled, ReaderTask, end_loop, poll_forward, poll_select, poll_closing, poll_reporting,
  poll_reader, reader_step, receive_packets,
}

module _ {P D L H : Type 0} (transport : TransportHandle H) (task : ReaderTask) where
  -- The polls that a cancelled task needs to end.
  abbrev pub remaining : ReaderPhase P D L → ℕ
  remaining selecting = 3
  remaining (forwarding event) = 3
  remaining (closing error) = 2
  remaining reporting = 1
  remaining finished = 0

  abbrev pub counts : Happening P D L → ℕ
  counts (polled received (ready accepted)) = 1
  counts _ = 0

  abbrev pub ready_polls : List (Happening P D L) → ℕ
  ready_polls [] = 0
  ready_polls (happening ∷ rest) = counts happening + ready_polls rest

  -- A cancelled task stays so, and `n` polls of it bring it closer to its end.
  record Advances (n : ℕ) (s t : Reading P D L H) : Type 0 where
    closer : remaining t.phase ≤ remaining s.phase - n
    still_cancelled : t.is_cancelled ≡ true

  poll_forward-Advances :
      (event : PacketReceiveEvent P) (channel : Poll Bool) (s : Reading P D L H)
      → s.is_cancelled ≡ true
      → remaining s.phase ≡ 3
      → Advances 1 s (poll_forward transport task event channel s)
  unfolding poll_forward end_loop
  poll_forward-Advances event pending s h e =
      rw h (record { closer = omega arith; still_cancelled = refl })
  poll_forward-Advances event (ready accepted) s h e =
      rw h (record { closer = omega arith; still_cancelled = refl })

  poll_select-Advances :
      (cell : SendErrorCell) (received : Poll (Result (P × ℕ) (ReceiveError D L)))
      (channel : Poll Bool) (s : Reading P D L H)
      → s.is_cancelled ≡ true
      → remaining s.phase ≡ 3
      → Advances 1 s (poll_select transport task cell received channel s)
  unfolding poll_select end_loop
  poll_select-Advances (arrived error) received channel s h e = record {
    closer = omega arith;
    still_cancelled = refl;
  }
  poll_select-Advances waiting received channel s h e =
      rw h (record { closer = omega arith; still_cancelled = refl })
  poll_select-Advances taken received channel s h e =
      rw h (record { closer = omega arith; still_cancelled = refl })

  closing-Advances :
      (error : ReceiveError D L) (accepted : Bool) (s : Reading P D L H)
      → s.phase ≡ closing error
      → s.is_cancelled ≡ true
      → Advances 1 s (poll_closing transport task error (ready accepted) s)
  unfolding poll_closing
  closing-Advances error accepted s p h = elim (Bool-cases task.is_server) [
    | inl server ↦
        rw server (record { closer = omega (arith, ap remaining p); still_cancelled = h })
    | inr client ↦ rw client (record { closer = omega arith; still_cancelled = h })
  ]

  poll_reader-Advances :
      (phase : ReaderPhase P D L) (received : Poll (Result (P × ℕ) (ReceiveError D L)))
      (accepted : Bool) (s : Reading P D L H)
      → s.phase ≡ phase
      → s.is_cancelled ≡ true
      → Advances 1 s (poll_reader transport task phase received (ready accepted) s)
  unfolding poll_reader poll_reporting
  poll_reader-Advances selecting received accepted s p h =
      poll_select-Advances s.send_error received (ready accepted) s h (ap remaining p)
  poll_reader-Advances (forwarding event) received accepted s p h =
      poll_forward-Advances event (ready accepted) s h (ap remaining p)
  poll_reader-Advances (closing error) received accepted s p h =
      closing-Advances error accepted s p h
  poll_reader-Advances reporting received accepted s p h = record {
    closer = omega arith;
    still_cancelled = h;
  }
  poll_reader-Advances finished received accepted s p h = record {
    closer = omega (arith, ap remaining p);
    still_cancelled = h;
  }

  -- The other polls take it no further from its end.
  poll_reader_pending :
      (phase : ReaderPhase P D L) (received : Poll (Result (P × ℕ) (ReceiveError D L)))
      (s : Reading P D L H)
      → s.phase ≡ phase
      → s.is_cancelled ≡ true
      → Advances 0 s (poll_reader transport task phase received pending s)
  unfolding poll_reader poll_reporting poll_closing
  poll_reader_pending selecting received s p h =
      let a = poll_select-Advances s.send_error received pending s h (ap remaining p) in
      record { closer = omega (arith, a.closer); still_cancelled = a.still_cancelled }
  poll_reader_pending (forwarding event) received s p h =
      let a = poll_forward-Advances event pending s h (ap remaining p) in
      record { closer = omega (arith, a.closer); still_cancelled = a.still_cancelled }
  poll_reader_pending (closing error) received s p h = record {
    closer = omega arith;
    still_cancelled = h;
  }
  poll_reader_pending reporting received s p h = record {
    closer = omega arith;
    still_cancelled = h;
  }
  poll_reader_pending finished received s p h = record { closer = omega arith; still_cancelled = h }

  reader_step-Advances :
      (happening : Happening P D L) (s : Reading P D L H)
      → s.is_cancelled ≡ true
      → Advances (counts happening) s (reader_step transport task happening s)
  unfolding reader_step
  reader_step-Advances (writer_failed e) s h = record { closer = omega arith; still_cancelled = h }
  reader_step-Advances token_cancelled s h = record { closer = omega arith; still_cancelled = refl }
  reader_step-Advances (others_leave q) s h = record { closer = omega arith; still_cancelled = h }
  reader_step-Advances stopped s h = record { closer = omega arith; still_cancelled = refl }
  reader_step-Advances (polled received pending) s h = poll_reader_pending s.phase received s refl h
  reader_step-Advances (polled received (ready accepted)) s h =
      poll_reader-Advances s.phase received accepted s refl h

  receive_packets-Advances :
      (happenings : List (Happening P D L)) (s : Reading P D L H)
      → s.is_cancelled ≡ true
      → Advances (ready_polls happenings) s (receive_packets transport task happenings s)
  unfolding receive_packets
  receive_packets-Advances [] s h = record { closer = omega arith; still_cancelled = h }
  receive_packets-Advances (happening ∷ rest) s h =
      let a = reader_step-Advances happening s h in
      let b =
        receive_packets-Advances rest (reader_step transport task happening s) a.still_cancelled in
      record { closer = omega (arith, a.closer, b.closer); still_cancelled = b.still_cancelled }

  remaining_zero : (phase : ReaderPhase P D L) → remaining phase ≤ 0 → phase ≡ finished
  remaining_zero selecting h = absurd (omega arith)
  remaining_zero (forwarding event) h = absurd (omega arith)
  remaining_zero (closing error) h = absurd (omega arith)
  remaining_zero reporting h = absurd (omega arith)
  remaining_zero finished h = refl

  remaining_bound : (phase : ReaderPhase P D L) → remaining phase ≤ 3
  remaining_bound selecting = omega arith
  remaining_bound (forwarding event) = omega arith
  remaining_bound (closing error) = omega arith
  remaining_bound reporting = omega arith
  remaining_bound finished = omega arith

  -- A reading task whose connection is cancelled ends, in whatever phase it is and whatever the
  -- transport gives: three polls at which the channel answers, be it by taking the message or by
  -- being closed, are enough, with anything else between them.
  pub receive_packets_ends :
      (happenings : List (Happening P D L)) (s : Reading P D L H)
      → s.is_cancelled ≡ true
      → 3 ≤ ready_polls happenings
      → (receive_packets transport task happenings s).phase ≡ finished
  receive_packets_ends happenings s h enough =
      remaining_zero _
        (omega (arith, (receive_packets-Advances happenings s h).closer, remaining_bound s.phase))
