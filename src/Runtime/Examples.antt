-- ===== src/Runtime/Examples.antt =====
-- runtime/mod.rs at fixed inputs.
use bevy_slinet.Common.{
  ◌≡◌, refl, ℕ, Bool, true, false, some, List, [], ◌∷◌, ◌++◌, ◌&&◌, ◌==◌, length, arith, inl, inr,
}
use bevy_slinet.Runtime.{
  RuntimeSettings, default_runtime_settings, external, NetworkRuntime, RuntimeStep, spawns,
  spawns_child, spawns_local, task_polled, local_polled, thread_takes, thread_stops, thread_panics,
  thread_ends, goes_on, completes, panics, timed_out, has_handle, new_runtime, shutdown,
  run_runtime,
}
use bevy_slinet.Runtime.Wait.{wait_for_tasks, Ends, wait_for_tasks-Ends}
use bevy_slinet.Runtime.Stopped.{ShutDown, shutdown-ShutDown}
use bevy_slinet.Runtime.Startup.{starts, Refused, new_runtime-Refused}

abbrev readings : List (Bool × ℕ)
readings = (false, 0) ∷ (false, 60) ∷ (false, 100) ∷ (true, 120) ∷ []

wait_for_tasks-Ends_example : Ends 100 readings (wait_for_tasks 100 readings)
wait_for_tasks-Ends_example =
    wait_for_tasks-Ends 100 readings (inr (inr (inr (inr (inr (inl (omega arith)))))))

wait_fails : wait_for_tasks 100 readings ≡ some false
unfolding wait_for_tasks
wait_fails = refl

-- Two tasks and a local one at work.
abbrev begun : List RuntimeStep
begun =
    spawns 1
    ∷ spawns 2
    ∷ spawns_local 3
    ∷ thread_takes
    ∷ task_polled 0 goes_on
    ∷ local_polled 0 panics
    ∷ []

abbrev later : List RuntimeStep
later =
    task_polled 0 goes_on
    ∷ spawns_child 4
    ∷ spawns 5
    ∷ thread_stops
    ∷ task_polled 0 completes
    ∷ thread_ends true
    ∷ []

abbrev running : NetworkRuntime
running = run_runtime begun (new_runtime default_runtime_settings true)

running_has_inner : running.has_inner ≡ true
unfolding run_runtime new_runtime
running_has_inner = refl

shutdown-ShutDown_example :
    ShutDown running (run_runtime later (shutdown timed_out false running).0)
shutdown-ShutDown_example = shutdown-ShutDown timed_out false later running running_has_inner

abbrev wrong_flavor : RuntimeSettings
wrong_flavor = record { mode = external false; shutdown_timeout = 500 }

wrong_starts : starts wrong_flavor true ≡ false
unfolding has_handle
wrong_starts = refl

new_runtime-Refused_example : Refused begun (run_runtime begun (new_runtime wrong_flavor true))
new_runtime-Refused_example = new_runtime-Refused wrong_flavor true begun wrong_starts

-- The runtime after its thread has left the loop, with two tasks on the workers.
abbrev until_panic : List RuntimeStep
until_panic = begun ++ (thread_panics ∷ [])

abbrev stopped : NetworkRuntime
stopped = run_runtime until_panic (new_runtime default_runtime_settings true)

-- Whether a tracker is ready, by whether it is closed and how many tasks it has.
abbrev is_done : Bool → List ℕ → Bool
is_done closed tasks = closed && (length tasks == 0)

polls_of_run : running.polled ≡ 3 ∷ 1 ∷ []
unfolding run_runtime new_runtime
polls_of_run = refl
