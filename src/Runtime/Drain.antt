-- ===== src/Runtime/Drain.antt =====
-- The tasks of runtime/mod.rs end once the runtime is stopped and its thread serves no more.
use bevy_slinet.Common.{ℕ, zero, ◌+◌, ◌-◌, ◌≤◌, ◌≡◌, Bool, true, false, some, List, [], ◌∷◌, length}
use bevy_slinet.Runtime.{NetworkRuntime, RuntimeStep, task_polled, takes_commands}
use bevy_slinet.Runtime.Wait.{wait_for_tasks}

abbrev pub first_poll : RuntimeStep → ℕ
first_poll (task_polled zero poll) = 1
first_poll _ = 0

abbrev pub first_polls : List RuntimeStep → ℕ
first_polls [] = 0
first_polls (step ∷ rest) = first_poll step + first_polls rest

-- A stopped runtime whose thread takes no command.
pub record IsDraining (r : NetworkRuntime) : Type 0 where
  pub stopped : r.is_stopped ≡ true
  pub no_commands : takes_commands r.thread ≡ false

record Drains (n : ℕ) (r t : NetworkRuntime) : Type 0 where
  still : IsDraining t
  fewer : length t.tasks ≤ length r.tasks - n

-- A runtime whose tasks have ended and whose tracker is closed. A wait that looks at the tracker then
-- succeeds; `is_ready` is whether the tracker's own `wait` is ready, by whether it is closed and its
-- tasks.
pub record Drained (is_ready : Bool → List ℕ → Bool) (t : NetworkRuntime) : Type 0 where
  pub ended : t.tasks ≡ []
  pub closed : t.is_closed ≡ true
  pub wait_succeeds :
      (timeout elapsed : ℕ) (later : List (Bool × ℕ))
      → wait_for_tasks timeout ((is_ready t.is_closed t.tasks, elapsed) ∷ later) ≡ some true
