-- ===== src/Connection/Setup/Examples.antt =====
-- `run_connections` of connection/tasks.rs at fixed inputs, with a limit of 0, which counts as 1.
use bevy_slinet.Common.{◌≡◌, refl, true, List, [], ◌∷◌, ok, err, arith}
use bevy_slinet.Protocols.Framing.{connection_reset}
use bevy_slinet.Connection.Setup.{
  SetupStep, handed, admits, split, told, no_setups, run_connections,
}
use bevy_slinet.Connection.Setup.Accounts.{
  IsSound, Accounted, all_handed, run_connections-Accounted,
}

abbrev steps : List SetupStep
steps =
    handed 1
    ∷ handed 2
    ∷ admits
    ∷ admits
    ∷ split 0 (err connection_reset)
    ∷ admits
    ∷ told 0 true
    ∷ admits
    ∷ split 0 (ok tt)
    ∷ []

no_setups-IsSound : IsSound 0 no_setups
unfolding no_setups
no_setups-IsSound = record { within = omega arith; paired = refl; cancels = λ id. refl }

run_connections-Accounted_example :
    Accounted 0 2 (all_handed 2 steps) no_setups (run_connections 0 steps no_setups)
run_connections-Accounted_example = run_connections-Accounted 0 2 steps no_setups no_setups-IsSound

readers_of_run : (run_connections 0 steps no_setups).readers ≡ 2 ∷ []
unfolding run_connections no_setups
readers_of_run = refl
