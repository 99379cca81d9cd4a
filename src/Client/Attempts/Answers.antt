-- ===== src/Client/Attempts/Answers.antt =====
-- Every request for a connection in client.rs is answered once.
use bevy_slinet.Common.{
  ℕ, ◌+◌, ◌≤◌, ◌≡◌, refl, ap, Bool, Option, none, some, List, [], ◌∷◌, Result, ok, err,
  if◌then◌else◌, if_elim, ltb, ltb→lt, ◌==◌, length, length-append, arith, take_at, times,
  times-append, TookAt, take_at-TookAt,
}
use bevy_slinet.Queue.Lossy.{TrySendError}
use bevy_slinet.Protocols.Framing.{IoError}
use bevy_slinet.Client.Attempts.{
  max_connection_attempts, NoConnection, AttemptMessage, established, not_connected, AttemptPhase,
  awaiting, publishing, handing, stopped, Attempts, AttemptStep, requested, admits, completed,
  answered, hung_up, observe, admit, complete_attempt, publish, hand_over, hang_up, attempt_step,
  process_connection_requests,
}

abbrev pub addresses : List AttemptMessage → List ℕ
addresses [] = []
addresses (established address id ∷ rest) = address ∷ addresses rest
addresses (not_connected closed ∷ rest) = closed.address ∷ addresses rest

abbrev pub rejected_addresses : List NoConnection → List ℕ
rejected_addresses [] = []
rejected_addresses (closed ∷ rest) = closed.address ∷ rejected_addresses rest

abbrev pub unpublished : AttemptPhase → List ℕ
unpublished (publishing attempt) = attempt.address ∷ []
unpublished _ = []

-- The requests for an address that wait, are worked on, and have an outcome.
abbrev pub in_work : ℕ → Attempts → ℕ
in_work a s = times a s.requests + times a s.in_flight + times a (unpublished s.phase)

abbrev pub outcomes : ℕ → Attempts → ℕ
outcomes a s =
    times a (addresses s.messages) + times a s.logged + times a (rejected_addresses s.rejected)

abbrev pub asked : ℕ → AttemptStep → ℕ
asked a (requested address answer) = if a == address then 1 else 0
asked a _ = 0

abbrev pub all_asked : ℕ → List AttemptStep → ℕ
all_asked a [] = 0
all_asked a (step ∷ rest) = asked a step + all_asked a rest

-- What a step keeps: the requests of an address, and the limit on attempts.
record Keeps (a n : ℕ) (s t : Attempts) : Type 0 where
  total : in_work a t + outcomes a t ≡ in_work a s + outcomes a s + n
  bounded :
      length s.in_flight ≤ max_connection_attempts → length t.in_flight ≤ max_connection_attempts

observe-Keeps :
    (a address : ℕ) (answer : Result (Unit {0}) (TrySendError ℕ)) (s : Attempts)
    → Keeps a (if a == address then 1 else 0) s (observe address answer s)
unfolding observe
observe-Keeps a address (ok u) s = record {
  total = omega (arith, times-append a s.requests (address ∷ []));
  bounded = λ h. h;
}
observe-Keeps a address (err e) s = record { total = omega arith; bounded = λ h. h }

-- A step that does nothing.
same-Keeps : (a : ℕ) (s : Attempts) → Keeps a 0 s s
same-Keeps a s = record { total = omega arith; bounded = λ h. h }

admit-Keeps :
    (a : ℕ) (datagram is_mutable : Bool) (requests : List ℕ) (s : Attempts)
    → s.requests ≡ requests
    → Keeps a 0 s (admit datagram is_mutable requests s)
unfolding admit
admit-Keeps a datagram is_mutable [] s e = same-Keeps a s
admit-Keeps a datagram is_mutable (address ∷ rest) s e =
    if_elim (Keeps a 0 s) (ltb (length s.in_flight) max_connection_attempts) _ _
      (λ room. record {
        total = omega (arith, times-append a s.in_flight (address ∷ []), ap (times a) e);
        bounded = λ h. omega (
          arith,
          ltb→lt (length s.in_flight) max_connection_attempts room,
          length-append s.in_flight (address ∷ []),
        );
      })
      (λ _. same-Keeps a s)

complete_attempt-Keeps :
    (a : ℕ) (outcome : Result (Unit {0}) IoError) (r : Option (ℕ × List ℕ)) (s : Attempts)
    → s.phase ≡ awaiting
    → TookAt s.in_flight r
    → Keeps a 0 s (complete_attempt outcome r s)
unfolding complete_attempt
complete_attempt-Keeps a outcome none s p t = same-Keeps a s
complete_attempt-Keeps a outcome (some (address, others)) s p t = record {
  total = omega (arith, t.removes a, ap (λ q. times a (unpublished q)) p);
  bounded = λ h. omega (arith, t.shorter);
}

publish-Keeps :
    (a address : ℕ) (result : Result ℕ IoError) (accepted : Bool) (s : Attempts)
    → unpublished s.phase ≡ address ∷ []
    → Keeps a 0 s (publish address result accepted s)
unfolding publish
publish-Keeps a address (ok id) accepted s p =
    if_elim (Keeps a 0 s) accepted _ _
      (λ _. record { total = omega (arith, ap (times a) p); bounded = λ h. h })
      (λ _. record { total = omega (arith, ap (times a) p); bounded = λ h. h })
publish-Keeps a address (err e) accepted s p =
    if_elim (Keeps a 0 s) accepted _ _
      (λ _. record { total = omega (arith, ap (times a) p); bounded = λ h. h })
      (λ _. record { total = omega (arith, ap (times a) p); bounded = λ h. h })

hang_up-Keeps :
    (a : ℕ) (requests in_flight : List ℕ) (s : Attempts)
    → s.phase ≡ awaiting
    → Keeps a 0 s (hang_up requests in_flight s)
unfolding hang_up
hang_up-Keeps a [] [] s p = record {
  total = omega (arith, ap (λ q. times a (unpublished q)) p);
  bounded = λ h. h;
}
hang_up-Keeps a (b ∷ rest) in_flight s p = same-Keeps a s
hang_up-Keeps a [] (b ∷ rest) s p = same-Keeps a s

hand_over-Keeps :
    (a b id : ℕ) (accepted : Bool) (s : Attempts)
    → s.phase ≡ handing b id
    → Keeps a 0 s (hand_over id accepted s)
unfolding hand_over
hand_over-Keeps a b id accepted s p = record {
  total = omega (arith, ap (λ q. times a (unpublished q)) p);
  bounded = λ h. h;
}

attempt_step-Keeps :
    (a : ℕ) (datagram is_mutable : Bool) (phase : AttemptPhase) (step : AttemptStep) (s : Attempts)
    → s.phase ≡ phase
    → Keeps a (asked a step) s (attempt_step datagram is_mutable phase step s)
unfolding attempt_step
attempt_step-Keeps a d m awaiting (requested address answer) s p = observe-Keeps a address answer s
attempt_step-Keeps a d m (publishing t) (requested address answer) s p =
    observe-Keeps a address answer s
attempt_step-Keeps a d m (handing b id) (requested address answer) s p =
    observe-Keeps a address answer s
attempt_step-Keeps a d m stopped (requested address answer) s p = observe-Keeps a address answer s
attempt_step-Keeps a d m awaiting admits s p = admit-Keeps a d m s.requests s refl
attempt_step-Keeps a d m awaiting (completed n outcome) s p =
    complete_attempt-Keeps a outcome (take_at n s.in_flight) s p (take_at-TookAt n s.in_flight)
attempt_step-Keeps a d m awaiting hung_up s p = hang_up-Keeps a s.requests s.in_flight s p
attempt_step-Keeps a d m awaiting (answered accepted) s p = same-Keeps a s
attempt_step-Keeps a d m (publishing t) (answered accepted) s p =
    publish-Keeps a t.address t.result accepted s (ap unpublished p)
attempt_step-Keeps a d m (publishing t) admits s p = same-Keeps a s
attempt_step-Keeps a d m (publishing t) (completed n outcome) s p = same-Keeps a s
attempt_step-Keeps a d m (publishing t) hung_up s p = same-Keeps a s
attempt_step-Keeps a d m (handing b id) (answered accepted) s p =
    hand_over-Keeps a b id accepted s p
attempt_step-Keeps a d m (handing b id) admits s p = same-Keeps a s
attempt_step-Keeps a d m (handing b id) (completed n outcome) s p = same-Keeps a s
attempt_step-Keeps a d m (handing b id) hung_up s p = same-Keeps a s
attempt_step-Keeps a d m stopped (answered accepted) s p = same-Keeps a s
attempt_step-Keeps a d m stopped admits s p = same-Keeps a s
attempt_step-Keeps a d m stopped (completed n outcome) s p = same-Keeps a s
attempt_step-Keeps a d m stopped hung_up s p = same-Keeps a s

-- What a client makes of its requests, by the state it is in.
pub record Answered (a n : ℕ) (s t : Attempts) : Type 0 where
  pub total : in_work a t + outcomes a t ≡ in_work a s + outcomes a s + n
  pub bounded : length t.in_flight ≤ max_connection_attempts

-- At every moment, each request that was made for an address is either still queued, connecting or
-- about to be published, or was so when the task stopped, or it has one outcome: an event that the ECS took, a refusal by `observe`,
-- or a log entry where the ECS took no events any more. At most eight attempts run at once.
pub process_connection_requests-Answered :
    (a : ℕ) (datagram is_mutable : Bool) (steps : List AttemptStep) (s : Attempts)
    → length s.in_flight ≤ max_connection_attempts
    → Answered a (all_asked a steps) s (process_connection_requests datagram is_mutable steps s)
unfolding process_connection_requests
process_connection_requests-Answered a d m [] s h = record { total = omega arith; bounded = h }
process_connection_requests-Answered a d m (step ∷ rest) s h =
    let k = attempt_step-Keeps a d m s.phase step s refl in
    let r =
      process_connection_requests-Answered a d m rest (attempt_step d m s.phase step s)
        (k.bounded h) in
    record { total = omega (arith, k.total, r.total); bounded = r.bounded }
