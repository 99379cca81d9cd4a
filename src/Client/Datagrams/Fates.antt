-- ===== src/Client/Datagrams/Fates.antt =====
-- What becomes of the datagrams that a frame of client.rs takes.
use bevy_slinet.Common.{
  ℕ, zero, suc, ◌+◌, ◌≤◌, ◌≡◌, ◌⊎◌, inl, inr, refl, sym, ap, ◌∙◌, Bool, false, ◌||◌, List, [], ◌∷◌,
  ◌++◌, map, Result, ok, err, if◌then◌else◌, if_elim, length, arith, none, some, Bool-cases, true,
  times, subst, append_assoc, append-nil,
}
use bevy_slinet.Queue.Lossy.{
  Shared, item, TryRecvError, try_recv_if, front_ready, pop_front, recv_error,
}
use bevy_slinet.Client.Datagrams.{
  Deliveries, is_ready, report, trigger, Progress, queue_command, after_recv, take_packets,
  run_commands, receive_datagram_packets,
}

module _ {P : Type 0} (observe : ℕ × P → (ℕ → Bool) → ℕ → Bool) where
  -- The packets whose connection passes no test of cancellation, and the connections of the others.
  abbrev kept : (ℕ → Bool) → List (ℕ × P) → List (ℕ × P)
  kept gone [] = []
  kept gone (p ∷ rest) = if gone p.0 then kept gone rest else p ∷ kept gone rest

  abbrev skipped : (ℕ → Bool) → List (ℕ × P) → List ℕ
  skipped gone [] = []
  skipped gone (p ∷ rest) = if gone p.0 then p.0 ∷ skipped gone rest else skipped gone rest

  -- In one pass: the packets whose connection is cancelled neither at the start of the frame nor, by
  -- the observers of those delivered before, when its turn comes, and the connections of the others.
  abbrev pub delivered_of : (ℕ → Bool) → (ℕ → Bool) → List (ℕ × P) → List (ℕ × P)
  delivered_of start now [] = []
  delivered_of start now (p ∷ rest) =
      if start p.0 || now p.0
      then delivered_of start now rest
      else p ∷ delivered_of start (observe p now) rest

  abbrev pub lost_of : (ℕ → Bool) → (ℕ → Bool) → List (ℕ × P) → List ℕ
  lost_of start now [] = []
  lost_of start now (p ∷ rest) =
      if start p.0 || now p.0
      then p.0 ∷ lost_of start now rest
      else lost_of start (observe p now) rest

  -- What the commands do, after the system has skipped the packets cancelled at the start.
  record Ran (start : ℕ → Bool) (packets : List (ℕ × P)) (w t : Deliveries P) : Type 0 where
    delivers : t.delivered ≡ w.delivered ++ delivered_of start w.is_cancelled packets
    loses :
        (a : ℕ)
        → times a t.reports + times a (skipped start packets)
          ≡ times a w.reports + times a (lost_of start w.is_cancelled packets)

  skips-Ran :
      (start : ℕ → Bool) (p : ℕ × P) (rest : List (ℕ × P)) (w t : Deliveries P)
      → start p.0 ≡ true
      → Ran start rest w t
      → Ran start (p ∷ rest) w t
  skips-Ran start p rest w t gone r = record {
    delivers = rw gone r.delivers;
    loses = λ a. rw gone (omega (arith, r.loses a));
  }

  reports-Ran :
      (start : ℕ → Bool) (p : ℕ × P) (rest : List (ℕ × P)) (w t : Deliveries P)
      → start p.0 ≡ false
      → w.is_cancelled p.0 ≡ true
      → Ran start rest (report observe p w) t
      → Ran start (p ∷ rest) w t
  reports-Ran start p rest w t open_first gone r = record {
    delivers = rw (open_first, gone) r.delivers;
    loses = λ a. rw (open_first, gone) (omega (arith, r.loses a));
  }

  triggers-Ran :
      (start : ℕ → Bool) (p : ℕ × P) (rest : List (ℕ × P)) (w t : Deliveries P)
      → start p.0 ≡ false
      → w.is_cancelled p.0 ≡ false
      → Ran start rest (trigger observe p w) t
      → Ran start (p ∷ rest) w t
  triggers-Ran start p rest w t open_first open_now r = record {
    delivers =
        rw (open_first, open_now)
          (r.delivers
            ∙ append_assoc w.delivered (p ∷ [])
                (delivered_of start (observe p w.is_cancelled) rest));
    loses = λ a. rw (open_first, open_now) (r.loses a);
  }

  run_commands-Ran :
      (start : ℕ → Bool) (packets : List (ℕ × P)) (w : Deliveries P)
      → Ran start packets w (run_commands observe (kept start packets) w)
  unfolding run_commands
  run_commands-Ran start [] w = record {
    delivers = sym (append-nil w.delivered);
    loses = λ a. refl;
  }
  run_commands-Ran start (p ∷ rest) w =
      if_elim (λ cs. Ran start (p ∷ rest) w (run_commands observe cs w)) (start p.0) _ _
        (λ gone. skips-Ran start p rest w _ gone (run_commands-Ran start rest w))
        (λ open_first.
          if_elim (λ v. Ran start (p ∷ rest) w (run_commands observe (kept start rest) v))
            (w.is_cancelled p.0) (report observe p w) (trigger observe p w)
            (λ gone.
              reports-Ran start p rest w _ open_first gone
                (run_commands-Ran start rest (report observe p w)))
            (λ open_now.
              triggers-Ran start p rest w _ open_first open_now
                (run_commands-Ran start rest (trigger observe p w))))

  -- The packets a round takes are the first ones, at most as many as the budget, and fewer only before
  -- a packet that is not ready; those of a cancelled connection are reported, and the others have
  -- commands.
  pub record Taken (budget : ℕ) (q : Shared (ℕ × P)) (w : Deliveries P) (r : Progress observe)
      : Type 0 where
    pub packets : List (ℕ × P)
    pub split : map item q.items ≡ packets ++ map item r.1.items
    pub within : length packets ≤ budget
    pub stops : (length packets ≡ budget) ⊎ (front_ready (is_ready observe w) r.1.items ≡ false)
    pub commands : r.0 ≡ kept w.is_cancelled packets
    pub same_delivered : r.2.delivered ≡ w.delivered
    pub same_cancelled : r.2.is_cancelled ≡ w.is_cancelled
    pub reported :
        (a : ℕ) → times a r.2.reports ≡ times a w.reports + times a (skipped w.is_cancelled packets)

  queue_command-Taken :
      (budget : ℕ) (q : Shared (ℕ × P)) (packet : ℕ × P) (w : Deliveries P)
      (rest : Deliveries P → Progress observe)
      → ((v : Deliveries P) → Taken budget q v (rest v))
      → (before : Shared (ℕ × P)) → map item before.items ≡ packet ∷ map item q.items
      → Taken (suc budget) before w (queue_command observe packet w rest)
  unfolding queue_command
  queue_command-Taken budget q packet w rest t before e =
      if_elim (Taken (suc budget) before w) (w.is_cancelled packet.0) _ _
        (λ gone. record {
          packets = packet ∷ (t (report observe packet w)).packets;
          split = e ∙ ap (◌∷◌ packet) (t (report observe packet w)).split;
          within = omega (arith, (t (report observe packet w)).within);
          stops = ground (arith, (t (report observe packet w)).stops);
          commands = rw gone (t (report observe packet w)).commands;
          same_delivered = (t (report observe packet w)).same_delivered;
          same_cancelled = (t (report observe packet w)).same_cancelled;
          reported = λ a. rw gone (omega (arith, (t (report observe packet w)).reported a));
        })
        (λ open_still. record {
          packets = packet ∷ (t w).packets;
          split = e ∙ ap (◌∷◌ packet) (t w).split;
          within = omega (arith, (t w).within);
          stops = ground (arith, (t w).stops);
          commands = rw open_still (ap (◌∷◌ packet) (t w).commands);
          same_delivered = (t w).same_delivered;
          same_cancelled = (t w).same_cancelled;
          reported = λ a. rw open_still ((t w).reported a);
        })

  -- What `try_recv_if` takes.
  abbrev Took :
      Deliveries P → Shared (ℕ × P) → Result (ℕ × P) TryRecvError × Shared (ℕ × P) → Type 0
  Took w q (ok packet, q') = map item q.items ≡ packet ∷ map item q'.items
  Took w q (err e, q') = (q' ≡ q) × (front_ready (is_ready observe w) q.items ≡ false)

  pop_front-Took :
      (w : Deliveries P) (q : Shared (ℕ × P)) (xs : List ((ℕ × P) × ℕ))
      → q.items ≡ xs
      → Took w q (elim (if front_ready (is_ready observe w) xs then pop_front q xs else none) [
        | some (packet, q') ↦ (ok packet, q')
        | none ↦ (err (recv_error q), q)
      ])
  unfolding front_ready pop_front
  pop_front-Took w q [] e = (refl, ap (front_ready (is_ready observe w)) e)
  pop_front-Took w q ((packet, weight) ∷ rest) e = elim (Bool-cases (is_ready observe w packet)) [
    | inl go ↦ rw go (ap (map item) e)
    | inr wait ↦ rw wait (refl, ap (front_ready (is_ready observe w)) e ∙ wait)
  ]

  after_recv-Taken :
      (budget : ℕ) (q : Shared (ℕ × P)) (w : Deliveries P)
      (rest : Shared (ℕ × P) → Deliveries P → Progress observe)
      (r : Result (ℕ × P) TryRecvError × Shared (ℕ × P))
      → ((q' : Shared (ℕ × P)) (v : Deliveries P) → Taken budget q' v (rest q' v))
      → Took w q r
      → Taken (suc budget) q w (after_recv observe w rest r)
  unfolding after_recv
  after_recv-Taken budget q w rest (ok packet, q') t e =
      queue_command-Taken budget q' packet w (rest q') (t q') q e
  after_recv-Taken budget q w rest (err e, q') t (same, waits) = record {
    packets = [];
    split = ap (λ p. map item p.items) (sym same);
    within = omega arith;
    stops = inr (ap (λ p. front_ready (is_ready observe w) p.items) same ∙ waits);
    commands = refl;
    same_delivered = refl;
    same_cancelled = refl;
    reported = λ a. omega arith;
  }

  take_packets-Taken :
      (budget : ℕ) (q : Shared (ℕ × P)) (w : Deliveries P)
      → Taken budget q w (take_packets observe budget q w)
  unfolding take_packets try_recv_if
  take_packets-Taken zero q w = record {
    packets = [];
    split = refl;
    within = omega arith;
    stops = inl refl;
    commands = refl;
    same_delivered = refl;
    same_cancelled = refl;
    reported = λ a. omega arith;
  }
  take_packets-Taken (suc budget) q w =
      after_recv-Taken budget q w (take_packets observe budget) (try_recv_if q (is_ready observe w))
        (take_packets-Taken budget) (pop_front-Took w q q.items refl)

  -- What a frame does with the queued datagrams.
  pub record Frame (budget : ℕ) (q : Shared (ℕ × P)) (w : Deliveries P)
      (r : Shared (ℕ × P) × Deliveries P) : Type 0 where
    pub packets : List (ℕ × P)
    pub split : map item q.items ≡ packets ++ map item r.0.items
    pub within : length packets ≤ budget
    pub stops : (length packets ≡ budget) ⊎ (front_ready (is_ready observe w) r.0.items ≡ false)
    pub delivers : r.1.delivered ≡ w.delivered ++ delivered_of w.is_cancelled w.is_cancelled packets
    pub reports_lost :
        (a : ℕ)
        → times a r.1.reports
          ≡ times a w.reports + times a (lost_of w.is_cancelled w.is_cancelled packets)

  -- A frame takes the oldest datagrams, at most as many as its budget, and fewer only before one
  -- whose connection is neither published nor cancelled, which stays queued. In order, each that it
  -- takes triggers its event if its connection is cancelled neither at the start of the frame nor by
  -- the observers of those delivered before it, and otherwise is reported once as lost to its
  -- connection.
  pub receive_datagram_packets-Frame :
      (budget : ℕ) (q : Shared (ℕ × P)) (w : Deliveries P)
      → Frame budget q w (receive_datagram_packets observe budget q w)
  unfolding receive_datagram_packets
  receive_datagram_packets-Frame budget q w =
      let t = take_packets-Taken budget q w in
      let w' = (take_packets observe budget q w).2 in
      let ran : Ran w.is_cancelled t.packets w'
          (run_commands observe (take_packets observe budget q w).0 w') =
        subst (λ cs. Ran w.is_cancelled t.packets w' (run_commands observe cs w')) (sym t.commands)
          (run_commands-Ran w.is_cancelled t.packets w') in
      record {
        packets = t.packets;
        split = t.split;
        within = t.within;
        stops = t.stops;
        delivers =
            ran.delivers
            ∙ ap (λ c. w'.delivered ++ delivered_of w.is_cancelled c t.packets) t.same_cancelled
            ∙ ap (λ l. l ++ delivered_of w.is_cancelled w.is_cancelled t.packets) t.same_delivered;
        reports_lost = λ a. omega (
          arith,
          ran.loses a,
          t.reported a,
          ap (λ c. times a (lost_of w.is_cancelled c t.packets)) t.same_cancelled,
        );
      }
