-- ===== src/Client/Attempts.antt =====
-- client.rs: the requests for connections, from `observe` over the task that works on them,
-- `process_connection_requests`, to what `ConnectionAttempt::publish` tells the ECS. The task is a
-- machine; what channels and the network answer is part of the steps.
pub mod Answers
mod Examples
use bevy_slinet.Common.{
  ℕ, zero, suc, Bool, true, false, ◌&&◌, not, Option, none, some, List, [], ◌∷◌, ◌++◌, Result, ok,
  err, if◌then◌else◌, ltb, length, take_at,
}
use bevy_slinet.Queue.Lossy.{TrySendError, full, closed}
use bevy_slinet.Protocols.Framing.{IoError, would_block, broken_pipe}
use bevy_slinet.Connection.Handle.{next_id}

abbrev pub max_connection_attempts : ℕ
max_connection_attempts = 8

-- `ConnectionClosed` with `ReceiveError::NoConnection`: the error and the address.
pub record NoConnection : Type 0 where
  pub error : IoError
  pub address : ℕ

-- `ConnectionAttempt`, with the identifier of the connection for the connection.
pub record ConnectionAttempt : Type 0 where
  pub address : ℕ
  pub result : Result ℕ IoError

-- What the task tells the ECS.
pub data AttemptMessage : Type 0 where
  established : ℕ → ℕ → AttemptMessage
  not_connected : NoConnection → AttemptMessage

-- Where the task awaits: for an attempt to complete, for the ECS to take its outcome, and for the
-- connection tasks to take the connection with this address and identifier.
pub data AttemptPhase : Type 0 where
  awaiting : AttemptPhase
  publishing : ConnectionAttempt → AttemptPhase
  handing : ℕ → ℕ → AttemptPhase
  stopped : AttemptPhase

-- `rejected` are the events that `observe` triggers, `logged` the addresses of the outcomes that the
-- ECS did not take, and `warnings` counts those on the serializer. The newest is first in these, and
-- in `messages` and `connections`.
pub record Attempts : Type 0 where
  pub requests : List ℕ
  pub in_flight : List ℕ
  pub phase : AttemptPhase
  pub counter : ℕ
  pub warned : Bool
  pub warnings : ℕ
  pub messages : List AttemptMessage
  pub connections : List ℕ
  pub logged : List ℕ
  pub rejected : List NoConnection

pub data AttemptStep : Type 0 where
  requested : ℕ → Result (Unit {0}) (TrySendError ℕ) → AttemptStep
  admits : AttemptStep
  completed : ℕ → Result (Unit {0}) IoError → AttemptStep
  answered : Bool → AttemptStep
  hung_up : AttemptStep

unfoldable pub rejection_kind : TrySendError ℕ → IoError
rejection_kind (full address) = would_block
rejection_kind (closed address) = broken_pipe

-- `ConnectionRequestSender::observe`, with what the channel's `try_send` answers.
unfoldable pub observe : ℕ → Result (Unit {0}) (TrySendError ℕ) → Attempts → Attempts
unfolding rejection_kind
observe address (ok u) s = record s { requests = s.requests ++ (address ∷ []) }
observe address (err e) s = record s {
  rejected = record { error = rejection_kind e; address = address } ∷ s.rejected;
}

-- `create_connection`, with what the protocol's `connect_to_server` gives.
unfoldable pub create_connection : Result (Unit {0}) IoError → ℕ → Result ℕ IoError × ℕ
unfolding next_id
create_connection (err e) counter = (err e, counter)
create_connection (ok u) counter = let (id, counter') = next_id counter in (ok id, counter')

-- `warn_if_stateful_over_datagrams`: the flag, and the warnings.
unfoldable pub warn_if_stateful : Bool → Bool → Bool → ℕ → Bool × ℕ
warn_if_stateful datagram is_mutable warned warnings =
    if datagram && is_mutable
    then (true, if warned then warnings else suc warnings)
    else (warned, warnings)

-- `buffer_unordered` takes the next request while there is room, and its attempt starts.
unfoldable pub admit : Bool → Bool → List ℕ → Attempts → Attempts
unfolding warn_if_stateful
admit datagram is_mutable [] s = s
admit datagram is_mutable (address ∷ rest) s =
    if ltb (length s.in_flight) max_connection_attempts
    then (let (warned, warnings) = warn_if_stateful datagram is_mutable s.warned s.warnings in
        record s {
          requests = rest;
          in_flight = s.in_flight ++ (address ∷ []);
          warned = warned;
          warnings = warnings;
        })
    else s

unfoldable pub complete_attempt :
    Result (Unit {0}) IoError → Option (ℕ × List ℕ) → Attempts → Attempts
unfolding create_connection
complete_attempt outcome none s = s
complete_attempt outcome (some (address, others)) s =
    let (result, counter') = create_connection outcome s.counter in
    record s {
      in_flight = others;
      counter = counter';
      phase = publishing (record { address = address; result = result });
    }

-- `publish`, at the answers of the two channels; the loop of the task after it.
unfoldable pub publish : ℕ → Result ℕ IoError → Bool → Attempts → Attempts
publish address (ok id) accepted s =
    if accepted
    then record s { phase = handing address id; messages = established address id ∷ s.messages }
    else record s { phase = stopped; logged = address ∷ s.logged }
publish address (err e) accepted s =
    if accepted
    then record s {
      phase = awaiting;
      messages = not_connected (record { error = e; address = address }) ∷ s.messages;
    }
    else record s { phase = awaiting; logged = address ∷ s.logged }

unfoldable pub hand_over : ℕ → Bool → Attempts → Attempts
hand_over id accepted s = record s {
  phase = awaiting;
  connections = if accepted then id ∷ s.connections else s.connections;
}

-- The requests' channel is closed and empty, and no attempt is left.
unfoldable pub hang_up : List ℕ → List ℕ → Attempts → Attempts
hang_up [] [] s = record s { phase = stopped }
hang_up (a ∷ rest) in_flight s = s
hang_up [] (a ∷ rest) s = s

-- A step of the task in its phase; the others do not concern it there.
unfoldable pub attempt_step : Bool → Bool → AttemptPhase → AttemptStep → Attempts → Attempts
unfolding observe admit take_at complete_attempt publish hand_over hang_up
attempt_step datagram is_mutable phase (requested address answer) s = observe address answer s
attempt_step datagram is_mutable awaiting admits s = admit datagram is_mutable s.requests s
attempt_step datagram is_mutable awaiting (completed n outcome) s =
    complete_attempt outcome (take_at n s.in_flight) s
attempt_step datagram is_mutable awaiting hung_up s = hang_up s.requests s.in_flight s
attempt_step datagram is_mutable (publishing attempt) (answered accepted) s =
    publish attempt.address attempt.result accepted s
attempt_step datagram is_mutable (handing address id) (answered accepted) s =
    hand_over id accepted s
attempt_step datagram is_mutable phase step s = s

-- `process_connection_requests` along the steps.
unfoldable pub process_connection_requests : Bool → Bool → List AttemptStep → Attempts → Attempts
unfolding attempt_step
process_connection_requests datagram is_mutable [] s = s
process_connection_requests datagram is_mutable (step ∷ rest) s =
    process_connection_requests datagram is_mutable rest
      (attempt_step datagram is_mutable s.phase step s)

unfoldable pub no_attempts : ℕ → Attempts
no_attempts counter = record {
  requests = [];
  in_flight = [];
  phase = awaiting;
  counter = counter;
  warned = false;
  warnings = 0;
  messages = [];
  connections = [];
  logged = [];
  rejected = [];
}
