-- ===== src/Connection/Setup/Accounts.antt =====
-- What becomes of the connections that connection/tasks.rs sets up.
use bevy_slinet.Common.{
  ℕ, ◌+◌, ◌≤◌, ◌≡◌, refl, ap, Bool, Option, none, some, List, [], ◌∷◌, map, Result, ok, err,
  if◌then◌else◌, if_elim, ltb, ltb→lt, ◌==◌, length, length-append, arith, max, take_at, times,
  times-append, TookAt, take_at-TookAt, TookBy, take_at-TookBy,
}
use bevy_slinet.Protocols.Framing.{IoError}
use bevy_slinet.Connection.Setup.{
  Setups, SetupStep, handed, admits, split, told, admit_setup, after_split, after_told, setup_step,
  run_connections,
}

abbrev pub owner : ℕ × IoError → ℕ
owner f = f.0

-- Where a connection is.
abbrev pub places : ℕ → Setups → ℕ
places id s =
    times id s.queued
    + times id s.splitting
    + times id (map owner s.failed)
    + times id s.readers
    + times id (map owner s.closed)
    + times id s.untold

abbrev pub handed_at : ℕ → SetupStep → ℕ
handed_at id (handed c) = if id == c then 1 else 0
handed_at id _ = 0

abbrev pub all_handed : ℕ → List SetupStep → ℕ
all_handed id [] = 0
all_handed id (step ∷ rest) = handed_at id step + all_handed id rest

-- What holds of the connections at every moment: the limit, that a connection has both its tasks or
-- none, and that a token is cancelled for a failed split alone.
pub record IsSound (limit : ℕ) (s : Setups) : Type 0 where
  pub within : length s.splitting + length s.failed ≤ max limit 1
  pub paired : s.readers ≡ s.writers
  pub cancels :
      (id : ℕ)
      → times id s.cancelled
        ≡ times id (map owner s.failed) + times id (map owner s.closed) + times id s.untold

-- A step keeps that, and adds nothing but the connection it hands over.
record Steps (limit id n : ℕ) (s t : Setups) : Type 0 where
  sound : IsSound limit t
  moved : places id t ≡ places id s + n

admit_setup-Steps :
    (limit id : ℕ) (queued : List ℕ) (s : Setups)
    → s.queued ≡ queued
    → IsSound limit s
    → Steps limit id 0 s (admit_setup limit queued s)
unfolding admit_setup
admit_setup-Steps limit id [] s e h = record { sound = h; moved = omega arith }
admit_setup-Steps limit id (c ∷ rest) s e h =
    if_elim (Steps limit id 0 s) (ltb (length s.splitting + length s.failed) (max limit 1)) _ _
      (λ room. record {
        sound = record {
          within = omega (
            arith,
            ltb→lt (length s.splitting + length s.failed) (max limit 1) room,
            length-append s.splitting (c ∷ []),
          );
          paired = h.paired;
          cancels = h.cancels;
        };
        moved = omega (arith, times-append id s.splitting (c ∷ []), ap (times id) e);
      })
      (λ _. record { sound = h; moved = omega arith })

after_split-Steps :
    (limit id : ℕ) (result : Result (Unit {0}) IoError) (r : Option (ℕ × List ℕ)) (s : Setups)
    → TookAt s.splitting r
    → IsSound limit s
    → Steps limit id 0 s (after_split result r s)
unfolding after_split
after_split-Steps limit id result none s t h = record { sound = h; moved = omega arith }
after_split-Steps limit id (ok halves) (some (c, others)) s t h = record {
  sound = record {
    within = omega (arith, t.shorter, h.within);
    paired = ap (◌∷◌ c) h.paired;
    cancels = h.cancels;
  };
  moved = omega (arith, t.removes id);
}
after_split-Steps limit id (err e) (some (c, others)) s t h = record {
  sound = record {
    within = omega (arith, t.shorter, h.within);
    paired = h.paired;
    cancels = λ i. omega (arith, h.cancels i);
  };
  moved = omega (arith, t.removes id);
}

after_told-Steps :
    (limit id : ℕ) (accepted : Bool) (r : Option ((ℕ × IoError) × List (ℕ × IoError))) (s : Setups)
    → TookBy owner s.failed r
    → IsSound limit s
    → Steps limit id 0 s (after_told accepted r s)
unfolding after_told
after_told-Steps limit id accepted none s t h = record { sound = h; moved = omega arith }
after_told-Steps limit id accepted (some ((c, e), others)) s t h =
    if_elim (Steps limit id 0 s) accepted _ _
      (λ _. record {
        sound = record {
          within = omega (arith, t.shorter, h.within);
          paired = h.paired;
          cancels = λ i. omega (arith, h.cancels i, t.removes i);
        };
        moved = omega (arith, t.removes id);
      })
      (λ _. record {
        sound = record {
          within = omega (arith, t.shorter, h.within);
          paired = h.paired;
          cancels = λ i. omega (arith, h.cancels i, t.removes i);
        };
        moved = omega (arith, t.removes id);
      })

setup_step-Steps :
    (limit id : ℕ) (step : SetupStep) (s : Setups)
    → IsSound limit s
    → Steps limit id (handed_at id step) s (setup_step limit step s)
unfolding setup_step
setup_step-Steps limit id (handed c) s h = record {
  sound = record { within = h.within; paired = h.paired; cancels = h.cancels };
  moved = omega (arith, times-append id s.queued (c ∷ []));
}
setup_step-Steps limit id admits s h = admit_setup-Steps limit id s.queued s refl h
setup_step-Steps limit id (split n result) s h =
    after_split-Steps limit id result (take_at n s.splitting) s (take_at-TookAt n s.splitting) h
setup_step-Steps limit id (told n accepted) s h =
    after_told-Steps limit id accepted (take_at n s.failed) s (take_at-TookBy owner n s.failed) h

pub record Accounted (limit id n : ℕ) (s t : Setups) : Type 0 where
  pub sound : IsSound limit t
  pub total : places id t ≡ places id s + n

-- However the transports and the ECS answer, every connection that is handed over is queued, in
-- its setup, running with both its tasks, or closed for the error of its split, and in one of these
-- only. No more setups run at once than the limit allows, and a token is cancelled exactly for the
-- connections whose split failed.
pub run_connections-Accounted :
    (limit id : ℕ) (steps : List SetupStep) (s : Setups)
    → IsSound limit s
    → Accounted limit id (all_handed id steps) s (run_connections limit steps s)
unfolding run_connections
run_connections-Accounted limit id [] s h = record { sound = h; total = omega arith }
run_connections-Accounted limit id (step ∷ rest) s h =
    let k = setup_step-Steps limit id step s h in
    let r = run_connections-Accounted limit id rest (setup_step limit step s) k.sound in
    record { sound = r.sound; total = omega (arith, k.moved, r.total) }
