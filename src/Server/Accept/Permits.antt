-- ===== src/Server/Accept/Permits.antt =====
-- What the acceptance of server.rs makes of the streams, and its permits.
use bevy_slinet.Common.{
  ℕ, zero, suc, ◌+◌, ◌≡◌, refl, sym, subst, Bool, true, false, Option, none, some, List, [], ◌∷◌,
  ◌++◌, map, Result, ok, err, if◌then◌else◌, if_elim, ◌==◌, length, length-append, arith, max,
  take_at, times,
}
use bevy_slinet.Protocols.Framing.{IoError}
use bevy_slinet.Server.Accept.{
  Establishing, spawned, announcing, handing, Accepting, AcceptStep, accepts, disconnected, polled,
  stopped, is_transient, admit_stream, after_accept, poll_establish, stop_establish, accept_step,
  run_accepting, listening, accept_connections,
}

module _ {L : Type 0} (handle_disconnection : ℕ → L → L) where
  -- The streams of a peer whose task has not told the ECS yet.
  abbrev pub waiting_tasks : ℕ → List Establishing → ℕ
  waiting_tasks a [] = 0
  waiting_tasks a (spawned peer ∷ rest) = (if a == peer then 1 else 0) + waiting_tasks a rest
  waiting_tasks a (announcing id peer ∷ rest) = (if a == peer then 1 else 0) + waiting_tasks a rest
  waiting_tasks a (handing id peer ∷ rest) = waiting_tasks a rest

  abbrev pub peer_of : ℕ × ℕ → ℕ
  peer_of announced = announced.1

  -- The streams of a peer, by what became of them.
  abbrev pub streams : ℕ → Accepting L → ℕ
  streams a s =
      waiting_tasks a s.tasks
      + times a (map peer_of s.announced)
      + times a s.dropped
      + times a s.logged

  abbrev pub arrives : ℕ → AcceptStep → Bool → ℕ
  arrives a (accepts (ok peer)) true = if a == peer then 1 else 0
  arrives a _ _ = 0

  -- The streams that the listener accepts while the loop runs.
  abbrev pub arrivals : ℕ → List AcceptStep → Accepting L → ℕ
  arrivals a [] s = 0
  arrivals a (step ∷ rest) s =
      arrives a step s.is_running + arrivals a rest (accept_step handle_disconnection step s)

  -- A step keeps the permits and the tasks together.
  record Keeps (a n : ℕ) (s t : Accepting L) : Type 0 where
    permits : t.permits + length t.tasks ≡ s.permits + length s.tasks
    total : streams a t ≡ streams a s + n

  waiting_tasks-append :
      (a : ℕ) (xs ys : List Establishing)
      → waiting_tasks a (xs ++ ys) ≡ waiting_tasks a xs + waiting_tasks a ys
  waiting_tasks-append a [] ys = omega arith
  waiting_tasks-append a (spawned peer ∷ xs) ys = omega (arith, waiting_tasks-append a xs ys)
  waiting_tasks-append a (announcing id peer ∷ xs) ys = omega (arith, waiting_tasks-append a xs ys)
  waiting_tasks-append a (handing id peer ∷ xs) ys = waiting_tasks-append a xs ys

  -- What `take_at` leaves of the tasks.
  record Removes (a : ℕ) (xs : List Establishing) (t : Establishing) (others : List Establishing)
      : Type 0 where
    removes : waiting_tasks a xs ≡ waiting_tasks a (t ∷ []) + waiting_tasks a others
    shorter : length xs ≡ suc (length others)

  abbrev Took : ℕ → List Establishing → Option (Establishing × List Establishing) → Type 0
  Took a xs none = Unit
  Took a xs (some (t, others)) = Removes a xs t others

  waiting_cons :
      (a : ℕ) (t : Establishing) (xs : List Establishing)
      → waiting_tasks a (t ∷ xs) ≡ waiting_tasks a (t ∷ []) + waiting_tasks a xs
  waiting_cons a (spawned peer) xs = omega arith
  waiting_cons a (announcing id peer) xs = omega arith
  waiting_cons a (handing id peer) xs = omega arith

  Took-cons :
      (a : ℕ) (c : Establishing) (xs : List Establishing)
      (r : Option (Establishing × List Establishing))
      → Took a xs r
      → Took a (c ∷ xs) (elim r [ none ↦ none | some (b, others) ↦ some (b, c ∷ others) ])
  Took-cons a c xs none t = tt
  Took-cons a c xs (some (b, others)) t = record {
    removes = omega (arith, t.removes, waiting_cons a c xs, waiting_cons a c others);
    shorter = omega (arith, t.shorter);
  }

  take_at-Took : (a n : ℕ) (xs : List Establishing) → Took a xs (take_at n xs)
  unfolding take_at
  take_at-Took a n [] = tt
  take_at-Took a zero (b ∷ xs) = record { removes = waiting_cons a b xs; shorter = omega arith }
  take_at-Took a (suc n) (b ∷ xs) = Took-cons a b xs (take_at n xs) (take_at-Took a n xs)

  same-Keeps : (a : ℕ) (s : Accepting L) → Keeps a 0 s s
  same-Keeps a s = record { permits = refl; total = omega arith }

  admit_stream-Keeps :
      (a peer free : ℕ) (s : Accepting L)
      → s.permits ≡ free
      → Keeps a (if a == peer then 1 else 0) s (admit_stream handle_disconnection peer free s)
  unfolding admit_stream
  admit_stream-Keeps a peer zero s e = record { permits = refl; total = omega arith }
  admit_stream-Keeps a peer (suc free) s e = record {
    permits = omega (arith, e, length-append s.tasks (spawned peer ∷ []));
    total = omega (arith, waiting_tasks-append a s.tasks (spawned peer ∷ []));
  }

  after_accept-Keeps :
      (a : ℕ) (result : Result ℕ IoError) (s : Accepting L)
      → Keeps a (arrives a (accepts result) true) s (after_accept handle_disconnection result s)
  unfolding after_accept
  after_accept-Keeps a (ok peer) s = admit_stream-Keeps a peer s.permits s refl
  after_accept-Keeps a (err e) s =
      if_elim (Keeps a 0 s) (is_transient e) _ _ (λ _. same-Keeps a s)
        (λ _. record { permits = refl; total = omega arith })

  poll_establish-Keeps :
      (a : ℕ) (accepted : Bool) (r : Option (Establishing × List Establishing)) (s : Accepting L)
      → Took a s.tasks r
      → Keeps a 0 s (poll_establish handle_disconnection accepted r s)
  unfolding poll_establish
  poll_establish-Keeps a accepted none s t = same-Keeps a s
  poll_establish-Keeps a accepted (some (spawned peer, others)) s t = record {
    permits = omega (arith, t.shorter);
    total = omega (arith, t.removes);
  }
  poll_establish-Keeps a accepted (some (announcing id peer, others)) s t =
      if_elim (Keeps a 0 s) accepted _ _
        (λ _. record { permits = omega (arith, t.shorter); total = omega (arith, t.removes) })
        (λ _. record { permits = omega (arith, t.shorter); total = omega (arith, t.removes) })
  poll_establish-Keeps a accepted (some (handing id peer, others)) s t = record {
    permits = omega (arith, t.shorter);
    total = omega (arith, t.removes);
  }

  stop_establish-Keeps :
      (a : ℕ) (r : Option (Establishing × List Establishing)) (s : Accepting L)
      → Took a s.tasks r
      → Keeps a 0 s (stop_establish handle_disconnection r s)
  unfolding stop_establish
  stop_establish-Keeps a none s t = same-Keeps a s
  stop_establish-Keeps a (some (spawned peer, others)) s t = record {
    permits = omega (arith, t.shorter);
    total = omega (arith, t.removes);
  }
  stop_establish-Keeps a (some (announcing id peer, others)) s t = record {
    permits = omega (arith, t.shorter);
    total = omega (arith, t.removes);
  }
  stop_establish-Keeps a (some (handing id peer, others)) s t = record {
    permits = omega (arith, t.shorter);
    total = omega (arith, t.removes);
  }

  running_arrives : (a : ℕ) (step : AcceptStep) (b : Bool) → b ≡ false → arrives a step b ≡ 0
  running_arrives a (accepts (ok peer)) true e = absurd (cc e)
  running_arrives a (accepts (ok peer)) false e = refl
  running_arrives a (accepts (err error)) b e = refl
  running_arrives a (disconnected peer) b e = refl
  running_arrives a (polled n accepted) b e = refl
  running_arrives a (stopped n) b e = refl

  accept_step-Keeps :
      (a : ℕ) (step : AcceptStep) (s : Accepting L)
      → Keeps a (arrives a step s.is_running) s (accept_step handle_disconnection step s)
  unfolding accept_step
  accept_step-Keeps a (accepts result) s =
      if_elim (Keeps a (arrives a (accepts result) s.is_running) s) s.is_running _ _
        (λ r.
          subst
            (λ b.
              Keeps a (arrives a (accepts result) b) s (after_accept handle_disconnection result s))
            (sym r) (after_accept-Keeps a result s))
        (λ r. record {
          permits = refl;
          total = omega (arith, running_arrives a (accepts result) s.is_running r);
        })
  accept_step-Keeps a (disconnected peer) s =
      if_elim (Keeps a 0 s) s.is_running _ _ (λ _. record { permits = refl; total = omega arith })
        (λ _. same-Keeps a s)
  accept_step-Keeps a (polled n accepted) s =
      poll_establish-Keeps a accepted (take_at n s.tasks) s (take_at-Took a n s.tasks)
  accept_step-Keeps a (stopped n) s =
      stop_establish-Keeps a (take_at n s.tasks) s (take_at-Took a n s.tasks)

  run_accepting-Keeps :
      (a : ℕ) (steps : List AcceptStep) (s : Accepting L)
      → Keeps a (arrivals a steps s) s (run_accepting handle_disconnection steps s)
  unfolding run_accepting
  run_accepting-Keeps a [] s = same-Keeps a s
  run_accepting-Keeps a (step ∷ rest) s =
      let k = accept_step-Keeps a step s in
      let r = run_accepting-Keeps a rest (accept_step handle_disconnection step s) in
      record {
        permits = omega (arith, k.permits, r.permits);
        total = omega (arith, k.total, r.total);
      }

  -- What a server makes of the streams it accepts.
  pub record Admitted (a capacity arrived : ℕ) (s : Accepting L) : Type 0 where
    pub bounded : s.permits + length s.tasks ≡ max capacity 1
    pub total : streams a s ≡ arrived

  -- Without a listener there is nothing; with one, `Admitted` holds of what the loop leaves.
  abbrev pub Outcome :
      ℕ → Result L IoError → ℕ → ℕ → List AcceptStep → Option (Accepting L) → Type 0
  Outcome a (ok listener) capacity counter steps (some s) =
      Admitted a capacity
        (arrivals a steps (listening handle_disconnection listener capacity counter)) s
  Outcome a (ok listener) capacity counter steps none = ⊥
  Outcome a (err e) capacity counter steps none = Unit
  Outcome a (err e) capacity counter steps (some s) = ⊥

  -- A server whose listener is bound admits no more connections at once than its receive capacity,
  -- or one if that is 0: each task under way has a permit, and gives it back on every way it ends.
  -- Every stream that the listener accepts is waiting in its task, known to the ECS, dropped for want
  -- of a permit, or logged as failed or stopped, and is so once. A server that cannot bind admits none.
  pub accept_connections-Outcome :
      (a : ℕ) (bound : Result L IoError) (capacity counter : ℕ) (steps : List AcceptStep)
      → Outcome a bound capacity counter steps
          (accept_connections handle_disconnection bound capacity counter steps)
  unfolding accept_connections
  accept_connections-Outcome a (err e) capacity counter steps = tt
  accept_connections-Outcome a (ok listener) capacity counter steps =
      let k =
        run_accepting-Keeps a steps (listening handle_disconnection listener capacity counter) in
      record { bounded = omega (arith, k.permits); total = omega (arith, k.total) }
