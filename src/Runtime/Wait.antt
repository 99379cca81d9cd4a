-- ===== src/Runtime/Wait.antt =====
-- `wait_for_tasks` of runtime/mod.rs: it ends, and with what result.
use bevy_slinet.Common.{
  ℕ, ◌-◌, ◌≤◌, ◌<◌, ◌≡◌, ◌⊎◌, inl, inr, refl, ap, Bool, true, false, Option, none, some, List, [],
  ◌∷◌, ◌++◌, All, if◌then◌else◌, if_elim, ◌==◌, arith,
}

-- A round of the loop finds whether the tasks have ended and, if not, the time since the start. `none`
-- where the readings run out.
unfoldable pub wait_for_tasks : ℕ → List (Bool × ℕ) → Option Bool
wait_for_tasks timeout [] = none
wait_for_tasks timeout ((is_ready, elapsed) ∷ rest) =
    let later = wait_for_tasks timeout rest in
    if is_ready then some true else (if timeout - elapsed == 0 then some false else later)

-- Some reading is at or after the timeout, or finds the tasks ended.
abbrev pub Expires : ℕ → List (Bool × ℕ) → Type 0
Expires timeout [] = ⊥
Expires timeout ((is_ready, elapsed) ∷ rest) =
    (is_ready ≡ true) ⊎ ((timeout ≤ elapsed) ⊎ Expires timeout rest)

-- A reading after which the wait goes on.
abbrev pub GoesOn : ℕ → Bool × ℕ → Type 0
GoesOn timeout (is_ready, elapsed) = (is_ready ≡ false) × (elapsed < timeout)

-- The reading at which the wait ends, with its result: those before it found the tasks at work and
-- time left, and it finds the tasks ended, or the time up with the tasks at work.
pub record Ends (timeout : ℕ) (readings : List (Bool × ℕ)) (r : Option Bool) : Type 0 where
  pub before : List (Bool × ℕ)
  pub last : Bool × ℕ
  pub after : List (Bool × ℕ)
  pub split : readings ≡ before ++ (last ∷ after)
  pub waits : All (GoesOn timeout) before
  pub result : r ≡ some last.0
  pub over : (last.0 ≡ true) ⊎ (timeout ≤ last.1)

goes_further :
    (timeout elapsed : ℕ) (rest : List (Bool × ℕ))
    → elapsed < timeout
    → Ends timeout rest (wait_for_tasks timeout rest)
    → Ends timeout ((false, elapsed) ∷ rest) (wait_for_tasks timeout rest)
goes_further timeout elapsed rest h e = record {
  before = (false, elapsed) ∷ e.before;
  last = e.last;
  after = e.after;
  split = ap (◌∷◌ (false, elapsed)) e.split;
  waits = ((refl, h), e.waits);
  result = e.result;
  over = e.over;
}

-- The wait ends once its time is up or the tasks have ended. It succeeds exactly if it finds the tasks
-- ended, at the last reading it needs; a failure means that the time was up and the tasks at work, and
-- it never ends before one of the two.
pub wait_for_tasks-Ends :
    (timeout : ℕ) (readings : List (Bool × ℕ))
    → Expires timeout readings
    → Ends timeout readings (wait_for_tasks timeout readings)
unfolding wait_for_tasks
wait_for_tasks-Ends timeout [] h = absurd h
wait_for_tasks-Ends timeout ((true, elapsed) ∷ rest) h = record {
  before = [];
  last = (true, elapsed);
  after = rest;
  split = refl;
  waits = tt;
  result = refl;
  over = inl refl;
}
wait_for_tasks-Ends timeout ((false, elapsed) ∷ rest) h =
    if_elim (Ends timeout ((false, elapsed) ∷ rest)) (timeout - elapsed == 0) _ _
      (λ up. record {
        before = [];
        last = (false, elapsed);
        after = rest;
        split = refl;
        waits = tt;
        result = refl;
        over = inr (ground arith);
      })
      (λ left.
        goes_further timeout elapsed rest (ground arith)
          (wait_for_tasks-Ends timeout rest (later h (ground arith))))
  where
    later : Expires timeout ((false, elapsed) ∷ rest) → elapsed < timeout → Expires timeout rest
    later (inl r) k = absurd (cc r)
    later (inr (inl up)) k = absurd (omega arith)
    later (inr (inr e)) k = e
