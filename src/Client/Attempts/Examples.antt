-- ===== src/Client/Attempts/Examples.antt =====
-- The requests of client.rs at fixed inputs: two requests for an address, one of which is refused.
use bevy_slinet.Common.{◌≤◌, ◌≡◌, refl, true, List, [], ◌∷◌, ok, err, length, arith}
use bevy_slinet.Queue.Lossy.{full}
use bevy_slinet.Protocols.Framing.{connection_refused}
use bevy_slinet.Client.Attempts.{
  max_connection_attempts, AttemptStep, requested, admits, completed, answered, hung_up,
  no_attempts, process_connection_requests,
}
use bevy_slinet.Client.Attempts.Answers.{Answered, all_asked, process_connection_requests-Answered}

abbrev steps : List AttemptStep
steps =
    requested 20 (ok tt)
    ∷ requested 21 (ok tt)
    ∷ requested 20 (err (full 20))
    ∷ admits
    ∷ admits
    ∷ completed 1 (err connection_refused)
    ∷ answered true
    ∷ completed 0 (ok tt)
    ∷ answered true
    ∷ answered true
    ∷ hung_up
    ∷ []

none_in_flight : length (no_attempts 3).in_flight ≤ max_connection_attempts
unfolding no_attempts
none_in_flight = omega arith

process_connection_requests-Answered_example :
    Answered 20
      (all_asked 20 steps)
      (no_attempts 3)
      (process_connection_requests true true steps (no_attempts 3))
process_connection_requests-Answered_example =
    process_connection_requests-Answered 20 true true steps (no_attempts 3) none_in_flight

connections_of_run :
    (process_connection_requests true true steps (no_attempts 3)).connections ≡ 3 ∷ []
unfolding process_connection_requests no_attempts
connections_of_run = refl

one_warning : (process_connection_requests true true steps (no_attempts 3)).warnings ≡ 1
unfolding process_connection_requests no_attempts
one_warning = refl
