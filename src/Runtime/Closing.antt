-- ===== src/Runtime/Closing.antt =====
-- A runtime of runtime/mod.rs closes its tracker of tasks whenever it is stopped.
use bevy_slinet.Common.{
  ℕ, ◌≡◌, refl, Bool, ◌&&◌, Option, none, some, List, [], ◌∷◌, if_elim, take_at, arith,
}
use bevy_slinet.Runtime.{
  RuntimeSettings, NetworkRuntime, TaskPoll, ThreadPhase, serving, draining, RuntimeStep, spawns,
  spawns_child, spawns_local, task_polled, local_polled, thread_takes, thread_stops, thread_panics,
  thread_ends, shuts_down, DoneResult, takes_commands, has_handle, unavailable, new_runtime,
  spawn_on, spawn, spawn_child, spawn_local, poll_task, poll_local_task, take_command, end_serving,
  end_thread, stop_inner, join_thread, shutdown, thread_step, runtime_step, run_runtime,
}

-- The token is cancelled and the tracker closed together.
abbrev pub Agrees : NetworkRuntime → Type 0
Agrees r = r.is_closed ≡ r.is_stopped

new_runtime-Agrees :
    (settings : RuntimeSettings) (spawned : Bool) → Agrees (new_runtime settings spawned)
unfolding new_runtime unavailable
new_runtime-Agrees settings spawned =
    if_elim Agrees (has_handle settings.mode) _ _
      (λ _. if_elim Agrees spawned _ _ (λ _. refl) (λ _. refl)) (λ _. refl)

spawn_on-Agrees : (future : ℕ) (r : NetworkRuntime) → Agrees r → Agrees (spawn_on future r)
unfolding spawn_on
spawn_on-Agrees future r h = if_elim Agrees r.is_stopped _ _ (λ _. h) (λ _. h)

spawn_child-Agrees :
    (future : ℕ) (tasks local_tasks : List ℕ) (r : NetworkRuntime)
    → Agrees r
    → Agrees (spawn_child future tasks local_tasks r)
unfolding spawn_child
spawn_child-Agrees future [] [] r h = h
spawn_child-Agrees future (t ∷ rest) local_tasks r h = spawn_on-Agrees future r h
spawn_child-Agrees future [] (t ∷ rest) r h = spawn_on-Agrees future r h

poll_task-Agrees :
    (poll : TaskPoll) (t : Option (ℕ × List ℕ)) (r : NetworkRuntime)
    → Agrees r
    → Agrees (poll_task poll t r)
unfolding poll_task
poll_task-Agrees poll none r h = h
poll_task-Agrees poll (some t) r h = h

poll_local_task-Agrees :
    (poll : TaskPoll) (t : Option (ℕ × List ℕ)) (r : NetworkRuntime)
    → Agrees r
    → Agrees (poll_local_task poll t r)
unfolding poll_local_task
poll_local_task-Agrees poll none r h = h
poll_local_task-Agrees poll (some t) r h = h

take_command-Agrees :
    (commands : List ℕ) (r : NetworkRuntime) → Agrees r → Agrees (take_command commands r)
unfolding take_command
take_command-Agrees [] r h = h
take_command-Agrees (future ∷ rest) r h = h

thread_step-Agrees :
    (phase : ThreadPhase) (step : RuntimeStep) (r : NetworkRuntime)
    → Agrees r
    → Agrees (thread_step phase step r)
unfolding thread_step end_serving end_thread
thread_step-Agrees serving thread_takes r h = take_command-Agrees r.commands r h
thread_step-Agrees serving thread_stops r h = if_elim Agrees r.is_stopped _ _ (λ _. refl) (λ _. h)
thread_step-Agrees serving thread_panics r h = refl
thread_step-Agrees draining (thread_ends is_owned) r h = h
thread_step-Agrees _ _ r h = h

shutdown-Agrees :
    (result : DoneResult) (finished : Bool) (r : NetworkRuntime)
    → Agrees r
    → Agrees (shutdown result finished r).0
unfolding shutdown stop_inner join_thread
shutdown-Agrees result finished r h = ground arith

runtime_step-Agrees :
    (step : RuntimeStep) (r : NetworkRuntime) → Agrees r → Agrees (runtime_step step r)
unfolding runtime_step spawn spawn_local
runtime_step-Agrees (spawns future) r h =
    if_elim Agrees r.has_inner _ _ (λ _. spawn_on-Agrees future r h) (λ _. h)
runtime_step-Agrees (spawns_child future) r h = spawn_child-Agrees future r.tasks r.local_tasks r h
runtime_step-Agrees (spawns_local future) r h =
    if_elim Agrees (r.has_inner && takes_commands r.thread) _ _ (λ _. h) (λ _. h)
runtime_step-Agrees (task_polled n poll) r h = poll_task-Agrees poll (take_at n r.tasks) r h
runtime_step-Agrees (local_polled n poll) r h =
    poll_local_task-Agrees poll (take_at n r.local_tasks) r h
runtime_step-Agrees (shuts_down result finished) r h = shutdown-Agrees result finished r h
runtime_step-Agrees thread_takes r h = thread_step-Agrees r.thread thread_takes r h
runtime_step-Agrees thread_stops r h = thread_step-Agrees r.thread thread_stops r h
runtime_step-Agrees thread_panics r h = thread_step-Agrees r.thread thread_panics r h
runtime_step-Agrees (thread_ends o) r h = thread_step-Agrees r.thread (thread_ends o) r h

pub run_runtime-Agrees :
    (steps : List RuntimeStep) (r : NetworkRuntime) → Agrees r → Agrees (run_runtime steps r)
unfolding run_runtime
run_runtime-Agrees [] r h = h
run_runtime-Agrees (step ∷ rest) r h =
    run_runtime-Agrees rest (runtime_step step r) (runtime_step-Agrees step r h)

-- In every state that a runtime reaches, its tracker is closed exactly if its token is cancelled.
pub reached-Agrees :
    (steps : List RuntimeStep) (settings : RuntimeSettings) (spawned : Bool)
    → Agrees (run_runtime steps (new_runtime settings spawned))
reached-Agrees steps settings spawned =
    run_runtime-Agrees steps (new_runtime settings spawned) (new_runtime-Agrees settings spawned)
