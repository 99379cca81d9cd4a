-- ===== src/Runtime/Browser.antt =====
-- runtime/wasm.rs: the runtime in a browser, whose event loop polls the tasks.
use bevy_slinet.Common.{
  ℕ, ◌≡◌, refl, ap, ◌∙◌, Bool, true, not, Option, none, some, List, [], ◌∷◌, ◌++◌, if◌then◌else◌,
  if_elim, take_at,
}
use bevy_slinet.Runtime.{TaskPoll, run_task, after_task, after_task_stopped}

-- `NetworkRuntime` of the browser, with the event loop's tasks of this app; `polled` and `dropped` are
-- as for the native runtime.
pub record BrowserRuntime : Type 0 where
  pub is_stopped : Bool
  pub tasks : List ℕ
  pub polled : List ℕ
  pub dropped : List ℕ

unfoldable pub is_available_in_browser : BrowserRuntime → Bool
is_available_in_browser r = not r.is_stopped

-- `spawn_on`, which `spawn` and `spawn_local` call.
unfoldable pub spawn_in_browser : ℕ → BrowserRuntime → BrowserRuntime
spawn_in_browser future r =
    if r.is_stopped
    then record r { dropped = future ∷ r.dropped }
    else record r { tasks = r.tasks ++ (future ∷ []) }

unfoldable pub poll_in_browser : TaskPoll → Option (ℕ × List ℕ) → BrowserRuntime → BrowserRuntime
unfolding run_task
poll_in_browser poll none r = r
poll_in_browser poll (some (future, others)) r =
    let (tasks, polled) = after_task poll r.is_stopped future others r.polled in
    record r { tasks = tasks; polled = polled }

-- `stop_on_exit`, if there is an exit message, and the drop of the runtime.
unfoldable pub stop_in_browser : BrowserRuntime → BrowserRuntime
stop_in_browser r = record r { is_stopped = true }

pub data BrowserStep : Type 0 where
  spawns : ℕ → BrowserStep
  task_polled : ℕ → TaskPoll → BrowserStep
  exits : BrowserStep

unfoldable pub browser_step : BrowserStep → BrowserRuntime → BrowserRuntime
unfolding spawn_in_browser poll_in_browser stop_in_browser take_at
browser_step (spawns future) r = spawn_in_browser future r
browser_step (task_polled n poll) r = poll_in_browser poll (take_at n r.tasks) r
browser_step exits r = stop_in_browser r

unfoldable pub run_browser : List BrowserStep → BrowserRuntime → BrowserRuntime
unfolding browser_step
run_browser [] r = r
run_browser (step ∷ rest) r = run_browser rest (browser_step step r)

record Rests (r t : BrowserRuntime) : Type 0 where
  stays : t.is_stopped ≡ true
  quiet : t.polled ≡ r.polled

poll_in_browser-Rests :
    (poll : TaskPoll) (t : Option (ℕ × List ℕ)) (r : BrowserRuntime)
    → r.is_stopped ≡ true
    → Rests r (poll_in_browser poll t r)
unfolding poll_in_browser
poll_in_browser-Rests poll none r h = record { stays = h; quiet = refl }
poll_in_browser-Rests poll (some (future, others)) r h = record {
  stays = h;
  quiet = ap (λ p. p.1) (after_task_stopped poll future others r.polled r.is_stopped h);
}

browser_step-Rests :
    (step : BrowserStep) (r : BrowserRuntime) → r.is_stopped ≡ true → Rests r (browser_step step r)
unfolding browser_step spawn_in_browser stop_in_browser
browser_step-Rests (spawns future) r h =
    if_elim (λ t. Rests r t) r.is_stopped _ _ (λ _. record { stays = h; quiet = refl })
      (λ _. record { stays = h; quiet = refl })
browser_step-Rests (task_polled n poll) r h = poll_in_browser-Rests poll (take_at n r.tasks) r h
browser_step-Rests exits r h = record { stays = refl; quiet = refl }

-- Once the browser's runtime has stopped, it polls no future again.
pub run_browser_stopped :
    (steps : List BrowserStep) (r : BrowserRuntime)
    → r.is_stopped ≡ true
    → (run_browser steps r).polled ≡ r.polled
unfolding run_browser
run_browser_stopped [] r h = refl
run_browser_stopped (step ∷ rest) r h =
    let k = browser_step-Rests step r h in
    run_browser_stopped rest (browser_step step r) k.stays ∙ k.quiet
