-- ===== src/Runtime/Stopped.antt =====
-- What a stopped runtime of runtime/mod.rs still does.
use bevy_slinet.Common.{
  ℕ, ◌≡◌, refl, ap, ◌∙◌, Bool, true, false, ◌&&◌, Option, none, some, List, [], ◌∷◌, if_elim, arith,
  take_at,
}
use bevy_slinet.Runtime.{
  NetworkRuntime, TaskPoll, ThreadPhase, absent, serving, draining, thread_ended, RuntimeStep,
  spawns, spawns_child, spawns_local, task_polled, local_polled, thread_takes, thread_stops,
  thread_panics, thread_ends, shuts_down, DoneResult, is_available, takes_commands, stop_inner,
  join_thread, spawn_on, spawn, spawn_child, spawn_local, after_task_stopped, poll_task,
  poll_local_task, take_command, end_serving, end_thread, shutdown, thread_step, runtime_step,
  run_runtime,
}

-- A step leaves the runtime stopped and polls nothing.
record Rests (r t : NetworkRuntime) : Type 0 where
  stays : t.is_stopped ≡ true
  quiet : t.polled ≡ r.polled

same-Rests : (r : NetworkRuntime) → r.is_stopped ≡ true → Rests r r
same-Rests r h = record { stays = h; quiet = refl }

spawn_on-Rests :
    (future : ℕ) (r : NetworkRuntime) → r.is_stopped ≡ true → Rests r (spawn_on future r)
unfolding spawn_on
spawn_on-Rests future r h =
    if_elim (λ t. Rests r t) r.is_stopped _ _ (λ _. record { stays = h; quiet = refl })
      (λ _. record { stays = h; quiet = refl })

spawn-Rests : (future : ℕ) (r : NetworkRuntime) → r.is_stopped ≡ true → Rests r (spawn future r)
unfolding spawn
spawn-Rests future r h =
    if_elim (λ t. Rests r t) r.has_inner _ _ (λ _. spawn_on-Rests future r h)
      (λ _. record { stays = h; quiet = refl })

spawn_child-Rests :
    (future : ℕ) (tasks local_tasks : List ℕ) (r : NetworkRuntime)
    → r.is_stopped ≡ true
    → Rests r (spawn_child future tasks local_tasks r)
unfolding spawn_child
spawn_child-Rests future [] [] r h = same-Rests r h
spawn_child-Rests future (t ∷ rest) local_tasks r h = spawn_on-Rests future r h
spawn_child-Rests future [] (t ∷ rest) r h = spawn_on-Rests future r h

spawn_local-Rests :
    (future : ℕ) (r : NetworkRuntime) → r.is_stopped ≡ true → Rests r (spawn_local future r)
unfolding spawn_local
spawn_local-Rests future r h =
    if_elim (λ t. Rests r t) (r.has_inner && takes_commands r.thread) _ _
      (λ _. record { stays = h; quiet = refl }) (λ _. record { stays = h; quiet = refl })

poll_task-Rests :
    (poll : TaskPoll) (t : Option (ℕ × List ℕ)) (r : NetworkRuntime)
    → r.is_stopped ≡ true
    → Rests r (poll_task poll t r)
unfolding poll_task
poll_task-Rests poll none r h = same-Rests r h
poll_task-Rests poll (some (future, others)) r h = record {
  stays = h;
  quiet = ap (λ p. p.1) (after_task_stopped poll future others r.polled r.is_stopped h);
}

poll_local_task-Rests :
    (poll : TaskPoll) (t : Option (ℕ × List ℕ)) (r : NetworkRuntime)
    → r.is_stopped ≡ true
    → Rests r (poll_local_task poll t r)
unfolding poll_local_task
poll_local_task-Rests poll none r h = same-Rests r h
poll_local_task-Rests poll (some (future, others)) r h = record {
  stays = h;
  quiet = ap (λ p. p.1) (after_task_stopped poll future others r.polled r.is_stopped h);
}

take_command-Rests :
    (commands : List ℕ) (r : NetworkRuntime)
    → r.is_stopped ≡ true
    → Rests r (take_command commands r)
unfolding take_command
take_command-Rests [] r h = same-Rests r h
take_command-Rests (future ∷ rest) r h = record { stays = h; quiet = refl }

stop_inner-Rests : (r : NetworkRuntime) → r.is_stopped ≡ true → Rests r (stop_inner r)
unfolding stop_inner
stop_inner-Rests r h =
    if_elim (λ t. Rests r t) r.has_inner _ _ (λ _. record { stays = refl; quiet = refl })
      (λ _. same-Rests r h)

join_thread-Rests :
    (result : DoneResult) (finished : Bool) (r t : NetworkRuntime)
    → Rests r t
    → Rests r (join_thread result finished t).0
unfolding join_thread
join_thread-Rests result finished r t h =
    if_elim {A = NetworkRuntime × Bool} (λ u. Rests r u.0) t.has_done _ _
      (λ _. record { stays = h.stays; quiet = h.quiet }) (λ _. h)

thread_step-Rests :
    (phase : ThreadPhase) (step : RuntimeStep) (r : NetworkRuntime)
    → r.is_stopped ≡ true
    → Rests r (thread_step phase step r)
unfolding thread_step end_serving end_thread
thread_step-Rests serving thread_takes r h = take_command-Rests r.commands r h
thread_step-Rests serving thread_stops r h =
    if_elim (λ t. Rests r t) r.is_stopped _ _ (λ _. record { stays = refl; quiet = refl })
      (λ _. same-Rests r h)
thread_step-Rests serving thread_panics r h = record { stays = refl; quiet = refl }
thread_step-Rests draining (thread_ends is_owned) r h = record { stays = h; quiet = refl }
thread_step-Rests serving (spawns f) r h = same-Rests r h
thread_step-Rests serving (spawns_child f) r h = same-Rests r h
thread_step-Rests serving (spawns_local f) r h = same-Rests r h
thread_step-Rests serving (task_polled n p) r h = same-Rests r h
thread_step-Rests serving (local_polled n p) r h = same-Rests r h
thread_step-Rests serving (thread_ends o) r h = same-Rests r h
thread_step-Rests serving (shuts_down d f) r h = same-Rests r h
thread_step-Rests draining (spawns f) r h = same-Rests r h
thread_step-Rests draining (spawns_child f) r h = same-Rests r h
thread_step-Rests draining (spawns_local f) r h = same-Rests r h
thread_step-Rests draining (task_polled n p) r h = same-Rests r h
thread_step-Rests draining (local_polled n p) r h = same-Rests r h
thread_step-Rests draining thread_takes r h = same-Rests r h
thread_step-Rests draining thread_stops r h = same-Rests r h
thread_step-Rests draining thread_panics r h = same-Rests r h
thread_step-Rests draining (shuts_down d f) r h = same-Rests r h
thread_step-Rests absent step r h = same-Rests r h
thread_step-Rests thread_ended step r h = same-Rests r h

runtime_step-Rests :
    (step : RuntimeStep) (r : NetworkRuntime) → r.is_stopped ≡ true → Rests r (runtime_step step r)
unfolding runtime_step shutdown
runtime_step-Rests (spawns future) r h = spawn-Rests future r h
runtime_step-Rests (spawns_child future) r h = spawn_child-Rests future r.tasks r.local_tasks r h
runtime_step-Rests (spawns_local future) r h = spawn_local-Rests future r h
runtime_step-Rests (task_polled n poll) r h = poll_task-Rests poll (take_at n r.tasks) r h
runtime_step-Rests (local_polled n poll) r h =
    poll_local_task-Rests poll (take_at n r.local_tasks) r h
runtime_step-Rests (shuts_down result finished) r h =
    join_thread-Rests result finished r (stop_inner r) (stop_inner-Rests r h)
runtime_step-Rests thread_takes r h = thread_step-Rests r.thread thread_takes r h
runtime_step-Rests thread_stops r h = thread_step-Rests r.thread thread_stops r h
runtime_step-Rests thread_panics r h = thread_step-Rests r.thread thread_panics r h
runtime_step-Rests (thread_ends o) r h = thread_step-Rests r.thread (thread_ends o) r h

run_runtime-Rests :
    (steps : List RuntimeStep) (r : NetworkRuntime)
    → r.is_stopped ≡ true
    → Rests r (run_runtime steps r)
unfolding run_runtime
run_runtime-Rests [] r h = same-Rests r h
run_runtime-Rests (step ∷ rest) r h =
    let k = runtime_step-Rests step r h in
    let l = run_runtime-Rests rest (runtime_step step r) k.stays in
    record { stays = l.stays; quiet = l.quiet ∙ k.quiet }

-- What a shutdown leaves for good.
pub record ShutDown (before after : NetworkRuntime) : Type 0 where
  pub unavailable : is_available after ≡ false
  pub no_more_polls : after.polled ≡ before.polled

stopped_unavailable : (r : NetworkRuntime) → r.is_stopped ≡ true → is_available r ≡ false
unfolding is_available
stopped_unavailable r h = ground arith

shutdown_stops :
    (result : DoneResult) (finished : Bool) (r : NetworkRuntime)
    → r.has_inner ≡ true
    → Rests r (shutdown result finished r).0
unfolding shutdown stop_inner
shutdown_stops result finished r h = join_thread-Rests result finished r (stop_inner r) (
    if_elim (λ t. Rests r t) r.has_inner _ _ (λ _. record { stays = refl; quiet = refl })
      (λ e. absurd (cc (e, h))))

-- After the shutdown of a runtime that started, whatever is spawned, polled or asked of it later: no
-- future is polled again, new or old, and the runtime is never available again. It makes no difference
-- whether the shutdown timed out.
pub shutdown-ShutDown :
    (result : DoneResult) (finished : Bool) (steps : List RuntimeStep) (r : NetworkRuntime)
    → r.has_inner ≡ true
    → ShutDown r (run_runtime steps (shutdown result finished r).0)
shutdown-ShutDown result finished steps r h =
    let k = shutdown_stops result finished r h in
    let l = run_runtime-Rests steps (shutdown result finished r).0 k.stays in
    record {
      unavailable = stopped_unavailable (run_runtime steps (shutdown result finished r).0) l.stays;
      no_more_polls = l.quiet ∙ k.quiet;
    }
