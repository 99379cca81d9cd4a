-- ===== src/Runtime/Startup.antt =====
-- The start of the runtime of runtime/mod.rs, and one that did not start.
use bevy_slinet.Common.{
  ℕ, ◌≡◌, refl, ◌∙◌, sym, ap, Bool, false, ◌&&◌, List, [], ◌∷◌, ◌++◌, append-nil, append_assoc,
  arith, if_elim,
}
use bevy_slinet.Runtime.{
  RuntimeSettings, NetworkRuntime, RuntimeStep, spawns, spawns_child, spawns_local, task_polled,
  local_polled, thread_takes, thread_stops, thread_panics, thread_ends, shuts_down, unavailable,
  has_handle, new_runtime, is_available, runtime_step, run_runtime,
}

abbrev pub starts : RuntimeSettings → Bool → Bool
starts settings thread_spawns = has_handle settings.mode && thread_spawns

-- The futures that the app gives to the runtime, newest first.
abbrev pub offered : List RuntimeStep → List ℕ
offered [] = []
offered (spawns future ∷ rest) = offered rest ++ (future ∷ [])
offered (spawns_local future ∷ rest) = offered rest ++ (future ∷ [])
offered (_ ∷ rest) = offered rest

-- A runtime that never started, after it dropped some futures.
abbrev refused : ℕ → List ℕ → NetworkRuntime
refused timeout futures = record (unavailable timeout) { dropped = futures }

refused_step :
    (timeout : ℕ) (step : RuntimeStep) (futures : List ℕ)
    → runtime_step step (refused timeout futures) ≡ refused timeout (offered (step ∷ []) ++ futures)
unfolding runtime_step unavailable
refused_step timeout (spawns future) futures = refl
refused_step timeout (spawns_child future) futures = refl
refused_step timeout (spawns_local future) futures = refl
refused_step timeout (task_polled n poll) futures = refl
refused_step timeout (local_polled n poll) futures = refl
refused_step timeout thread_takes futures = refl
refused_step timeout thread_stops futures = refl
refused_step timeout thread_panics futures = refl
refused_step timeout (thread_ends is_owned) futures = refl
refused_step timeout (shuts_down result finished) futures = refl

offered_cons :
    (step : RuntimeStep) (rest : List RuntimeStep) (futures : List ℕ)
    → offered rest ++ (offered (step ∷ []) ++ futures) ≡ offered (step ∷ rest) ++ futures
offered_cons (spawns future) rest futures = sym (append_assoc (offered rest) (future ∷ []) futures)
offered_cons (spawns_local future) rest futures =
    sym (append_assoc (offered rest) (future ∷ []) futures)
offered_cons (spawns_child future) rest futures = refl
offered_cons (task_polled n poll) rest futures = refl
offered_cons (local_polled n poll) rest futures = refl
offered_cons thread_takes rest futures = refl
offered_cons thread_stops rest futures = refl
offered_cons thread_panics rest futures = refl
offered_cons (thread_ends is_owned) rest futures = refl
offered_cons (shuts_down result finished) rest futures = refl

refused_run :
    (timeout : ℕ) (steps : List RuntimeStep) (futures : List ℕ)
    → run_runtime steps (refused timeout futures) ≡ refused timeout (offered steps ++ futures)
unfolding run_runtime
refused_run timeout [] futures = refl
refused_run timeout (step ∷ rest) futures =
    ap (run_runtime rest) (refused_step timeout step futures)
    ∙ refused_run timeout rest (offered (step ∷ []) ++ futures)
    ∙ ap (refused timeout) (offered_cons step rest futures)

not_started :
    (settings : RuntimeSettings) (thread_spawns : Bool)
    → starts settings thread_spawns ≡ false
    → new_runtime settings thread_spawns ≡ refused settings.shutdown_timeout []
unfolding new_runtime unavailable
not_started settings thread_spawns h =
    if_elim (λ r. r ≡ refused settings.shutdown_timeout []) (has_handle settings.mode) _ _
      (λ a.
        if_elim (λ r. r ≡ refused settings.shutdown_timeout []) thread_spawns _ _
          (λ b. absurd (ground arith)) (λ _. refl))
      (λ _. refl)

-- What becomes of the futures that a runtime is offered which did not start.
pub record Refused (steps : List RuntimeStep) (r : NetworkRuntime) : Type 0 where
  pub not_available : is_available r ≡ false
  pub no_polls : r.polled ≡ []
  pub all_dropped : r.dropped ≡ offered steps

-- A runtime whose settings give no multi-thread runtime, or whose thread cannot be spawned, is never
-- available: it drops every future that it is offered, in order, and polls none, whatever is asked of
-- it, its shutdown included.
pub new_runtime-Refused :
    (settings : RuntimeSettings) (thread_spawns : Bool) (steps : List RuntimeStep)
    → starts settings thread_spawns ≡ false
    → Refused steps (run_runtime steps (new_runtime settings thread_spawns))
unfolding is_available unavailable
new_runtime-Refused settings thread_spawns steps h =
    rw (not_started settings thread_spawns h, refused_run settings.shutdown_timeout steps [])
      (record { not_available = refl; no_polls = refl; all_dropped = append-nil (offered steps) })
