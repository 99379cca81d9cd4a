-- ===== src/Runtime.antt =====
-- runtime/mod.rs and runtime/task.rs: the tasks of an app's endpoints, from `NetworkRuntime::new` to
-- the shutdown. Futures are numbers; Tokio's executors are the steps that poll, drop and wake. A wait
-- is by the clock's readings at its polls.
pub mod Wait
pub mod Stopped
pub mod Closing
pub mod Drain
pub mod Startup
pub mod Browser
mod Examples
use bevy_slinet.Common.{
  ℕ, zero, suc, ◌-◌, Bool, true, false, ◌&&◌, ◌||◌, ◌≡◌, refl, not, Option, none, some, List, [],
  ◌∷◌, ◌++◌, if◌then◌else◌, length, take_at, ◌==◌,
}

-- `NetworkRuntimeMode`, with what `Builder::build` or `runtime_flavor` find.
pub data RuntimeMode : Type 0 where
  owned : ℕ → Bool → RuntimeMode
  external : Bool → RuntimeMode

pub record RuntimeSettings : Type 0 where
  pub mode : RuntimeMode
  pub shutdown_timeout : ℕ

-- `NetworkRuntimeSettings::default`, in milliseconds, where the runtime builds.
abbrev pub default_runtime_settings : RuntimeSettings
default_runtime_settings = record { mode = owned 2 true; shutdown_timeout = 1000 }

-- The local thread: there is none, it serves commands, waits for the tasks, or has ended.
pub data ThreadPhase : Type 0 where
  absent : ThreadPhase
  serving : ThreadPhase
  draining : ThreadPhase
  thread_ended : ThreadPhase

-- `NetworkRuntime`, which has `Inner`, the thread and its `done` channel or not, with the state of
-- `Inner` and the thread. `tasks` are on the workers and `local_tasks` on the thread; `commands` wait
-- for it. `polled` are the futures that ran, one entry for each poll, and `dropped` those that never
-- began; newest first.
pub record NetworkRuntime : Type 0 where
  pub has_inner : Bool
  pub has_thread : Bool
  pub has_done : Bool
  pub timeout : ℕ
  pub is_stopped : Bool
  pub is_closed : Bool
  pub thread : ThreadPhase
  pub tasks : List ℕ
  pub local_tasks : List ℕ
  pub commands : List ℕ
  pub polled : List ℕ
  pub dropped : List ℕ

-- What a poll of a future gives.
pub data TaskPoll : Type 0 where
  goes_on : TaskPoll
  completes : TaskPoll
  panics : TaskPoll

unfoldable pub unavailable : ℕ → NetworkRuntime
unavailable timeout = record {
  has_inner = false;
  has_thread = false;
  has_done = false;
  timeout = timeout;
  is_stopped = false;
  is_closed = false;
  thread = absent;
  tasks = [];
  local_tasks = [];
  commands = [];
  polled = [];
  dropped = [];
}

-- Whether the settings give a handle to a multi-thread runtime.
unfoldable pub has_handle : RuntimeMode → Bool
has_handle (owned worker_threads builds) = builds
has_handle (external multi_thread) = multi_thread

-- `NetworkRuntime::new`, with whether the thread can be spawned.
unfoldable pub new_runtime : RuntimeSettings → Bool → NetworkRuntime
unfolding unavailable has_handle
new_runtime settings spawns =
    if has_handle settings.mode
    then (if spawns
        then record (unavailable settings.shutdown_timeout) {
          has_inner = true;
          has_thread = true;
          has_done = true;
          thread = serving;
        }
        else unavailable settings.shutdown_timeout)
    else unavailable settings.shutdown_timeout

-- Whether the receiver of the commands is there: `local_tx` is closed once the thread drops it.
abbrev pub takes_commands : ThreadPhase → Bool
takes_commands serving = true
takes_commands _ = false

unfoldable pub is_available : NetworkRuntime → Bool
is_available r = r.has_inner && (not r.is_stopped && takes_commands r.thread)

-- `spawn_on`, for a future on the workers.
unfoldable pub spawn_on : ℕ → NetworkRuntime → NetworkRuntime
spawn_on future r =
    if r.is_stopped
    then record r { dropped = future ∷ r.dropped }
    else record r { tasks = r.tasks ++ (future ∷ []) }

-- `NetworkRuntime::spawn`.
unfoldable pub spawn : ℕ → NetworkRuntime → NetworkRuntime
unfolding spawn_on
spawn future r =
    if r.has_inner then spawn_on future r else record r { dropped = future ∷ r.dropped }

-- `NetworkRuntime::spawn_local`.
unfoldable pub spawn_local : ℕ → NetworkRuntime → NetworkRuntime
spawn_local future r =
    if r.has_inner && takes_commands r.thread
    then record r { commands = r.commands ++ (future ∷ []) }
    else record r { dropped = future ∷ r.dropped }

-- `run_task` at a poll, which is `until_cancelled` with panics caught: whether the task goes on, and
-- whether its future was polled.
unfoldable pub run_task : Bool → TaskPoll → Bool × Bool
run_task true poll = (false, false)
run_task false goes_on = (true, true)
run_task false completes = (false, true)
run_task false panics = (false, true)

-- The tasks and the polls after a task is polled.
abbrev pub after_task : TaskPoll → Bool → ℕ → List ℕ → List ℕ → List ℕ × List ℕ
after_task poll stopped future others polled =
    let (goes, ran) = run_task stopped poll in
    (if goes then future ∷ others else others, if ran then future ∷ polled else polled)

-- A stopped task ends without a poll of its future.
pub after_task_stopped :
    (poll : TaskPoll) (future : ℕ) (others polled : List ℕ) (b : Bool)
    → b ≡ true
    → after_task poll b future others polled ≡ (others, polled)
unfolding run_task
after_task_stopped poll future others polled true h = refl
after_task_stopped poll future others polled false h = absurd (cc h)

unfoldable pub poll_task : TaskPoll → Option (ℕ × List ℕ) → NetworkRuntime → NetworkRuntime
unfolding run_task
poll_task poll none r = r
poll_task poll (some (future, others)) r =
    let (tasks, polled) = after_task poll r.is_stopped future others r.polled in
    record r { tasks = tasks; polled = polled }

unfoldable pub poll_local_task : TaskPoll → Option (ℕ × List ℕ) → NetworkRuntime → NetworkRuntime
unfolding run_task
poll_local_task poll none r = r
poll_local_task poll (some (future, others)) r =
    let (tasks, polled) = after_task poll r.is_stopped future others r.polled in
    record r { local_tasks = tasks; polled = polled }

-- The second arm of the thread's `select!`, which may win although the runtime is stopped.
unfoldable pub take_command : List ℕ → NetworkRuntime → NetworkRuntime
take_command [] r = r
take_command (future ∷ rest) r = record r {
  commands = rest;
  local_tasks = r.local_tasks ++ (future ∷ []);
}

-- The end of the thread's loop: the local tasks and the commands are dropped.
unfoldable pub end_serving : NetworkRuntime → NetworkRuntime
end_serving r = record r {
  is_stopped = true;
  is_closed = true;
  thread = draining;
  local_tasks = [];
  commands = [];
  dropped = r.commands ++ r.dropped;
}

-- The end of the thread, after its wait: an owned runtime drops the tasks that are left.
unfoldable pub end_thread : Bool → NetworkRuntime → NetworkRuntime
end_thread is_owned r = record r { thread = thread_ended; tasks = if is_owned then [] else r.tasks }

-- What `recv_timeout` gives: `done`, no answer in time, or a dropped sender.
pub data DoneResult : Type 0 where
  done timed_out disconnected : DoneResult

abbrev pub is_timeout : DoneResult → Bool
is_timeout timed_out = true
is_timeout _ = false

-- `shutdown`, on `inner` and then on `done` and the thread: the runtime, and whether the thread is
-- joined.
unfoldable pub stop_inner : NetworkRuntime → NetworkRuntime
stop_inner r =
    if r.has_inner then record r { has_inner = false; is_stopped = true; is_closed = true } else r

unfoldable pub join_thread : DoneResult → Bool → NetworkRuntime → NetworkRuntime × Bool
join_thread result thread_finished r =
    if r.has_done
    then (
      record r { has_done = false; has_thread = false },
      r.has_thread && (not (is_timeout result) || thread_finished),
    )
    else (r, false)

-- `NetworkRuntime::shutdown`, with what the `done` channel gives.
unfoldable pub shutdown : DoneResult → Bool → NetworkRuntime → NetworkRuntime × Bool
unfolding stop_inner join_thread
shutdown result thread_finished r = join_thread result thread_finished (stop_inner r)

pub data RuntimeStep : Type 0 where
  spawns : ℕ → RuntimeStep
  spawns_child : ℕ → RuntimeStep
  spawns_local : ℕ → RuntimeStep
  task_polled : ℕ → TaskPoll → RuntimeStep
  local_polled : ℕ → TaskPoll → RuntimeStep
  thread_takes : RuntimeStep
  thread_stops : RuntimeStep
  thread_panics : RuntimeStep
  thread_ends : Bool → RuntimeStep
  shuts_down : DoneResult → Bool → RuntimeStep

-- A step of the thread in its phase.
unfoldable pub thread_step : ThreadPhase → RuntimeStep → NetworkRuntime → NetworkRuntime
unfolding take_command end_serving end_thread
thread_step serving thread_takes r = take_command r.commands r
thread_step serving thread_stops r = if r.is_stopped then end_serving r else r
thread_step serving thread_panics r = end_serving r
thread_step draining (thread_ends is_owned) r = end_thread is_owned r
thread_step phase step r = r

-- `spawn` of a task that is running; without one there is no runtime to find.
unfoldable pub spawn_child : ℕ → List ℕ → List ℕ → NetworkRuntime → NetworkRuntime
unfolding spawn_on
spawn_child future [] [] r = r
spawn_child future (t ∷ rest) local_tasks r = spawn_on future r
spawn_child future [] (t ∷ rest) r = spawn_on future r

unfoldable pub runtime_step : RuntimeStep → NetworkRuntime → NetworkRuntime
unfolding spawn spawn_child spawn_local poll_task poll_local_task thread_step shutdown take_at
runtime_step (spawns future) r = spawn future r
runtime_step (spawns_child future) r = spawn_child future r.tasks r.local_tasks r
runtime_step (spawns_local future) r = spawn_local future r
runtime_step (task_polled n poll) r = poll_task poll (take_at n r.tasks) r
runtime_step (local_polled n poll) r = poll_local_task poll (take_at n r.local_tasks) r
runtime_step (shuts_down result thread_finished) r = (shutdown result thread_finished r).0
runtime_step thread_takes r = thread_step r.thread thread_takes r
runtime_step thread_stops r = thread_step r.thread thread_stops r
runtime_step thread_panics r = thread_step r.thread thread_panics r
runtime_step (thread_ends is_owned) r = thread_step r.thread (thread_ends is_owned) r

unfoldable pub run_runtime : List RuntimeStep → NetworkRuntime → NetworkRuntime
unfolding runtime_step
run_runtime [] r = r
run_runtime (step ∷ rest) r = run_runtime rest (runtime_step step r)
