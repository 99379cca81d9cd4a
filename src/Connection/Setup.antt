-- ===== src/Connection/Setup.antt =====
-- connection/tasks.rs, `run_connections`, with `ConnectedTransport::run` of client.rs and server.rs:
-- connections wait to be set up, a bounded number at once, and get their two tasks. Connections are
-- identifiers; what the transport's `into_split` and the ECS answer is part of the steps.
pub mod Accounts
mod Examples
use bevy_slinet.Common.{
  ℕ, Bool, true, Option, none, some, List, [], ◌∷◌, ◌++◌, Result, ok, err, if◌then◌else◌, ltb,
  length, max, take_at, ◌+◌,
}
use bevy_slinet.Protocols.Framing.{IoError}

-- `splitting` wait for their transport, and `failed` for the ECS to take their end, with the error of
-- the split. `readers` and `writers` are the tasks that were spawned, `cancelled` the tokens cancelled
-- here, `closed` the messages that the ECS took and `untold` those that it did not, newest first.
pub record Setups : Type 0 where
  pub queued : List ℕ
  pub splitting : List ℕ
  pub failed : List (ℕ × IoError)
  pub readers : List ℕ
  pub writers : List ℕ
  pub cancelled : List ℕ
  pub closed : List (ℕ × IoError)
  pub untold : List ℕ

pub data SetupStep : Type 0 where
  handed : ℕ → SetupStep
  admits : SetupStep
  split : ℕ → Result (Unit {0}) IoError → SetupStep
  told : ℕ → Bool → SetupStep

-- `for_each_concurrent(limit.max(1), run)` takes the next connection while there is room.
unfoldable pub admit_setup : ℕ → List ℕ → Setups → Setups
admit_setup limit [] s = s
admit_setup limit (id ∷ rest) s =
    if ltb (length s.splitting + length s.failed) (max limit 1)
    then record s { queued = rest; splitting = s.splitting ++ (id ∷ []) }
    else s

-- The `match` on what `into_split` gives.
unfoldable pub after_split : Result (Unit {0}) IoError → Option (ℕ × List ℕ) → Setups → Setups
after_split result none s = s
after_split (ok halves) (some (id, others)) s = record s {
  splitting = others;
  readers = id ∷ s.readers;
  writers = id ∷ s.writers;
}
after_split (err e) (some (id, others)) s = record s {
  splitting = others;
  failed = (id, e) ∷ s.failed;
  cancelled = id ∷ s.cancelled;
}

-- The closing message of a connection that could not be split.
unfoldable pub after_told : Bool → Option ((ℕ × IoError) × List (ℕ × IoError)) → Setups → Setups
after_told accepted none s = s
after_told accepted (some ((id, e), others)) s =
    if accepted
    then record s { failed = others; closed = (id, e) ∷ s.closed }
    else record s { failed = others; untold = id ∷ s.untold }

unfoldable pub setup_step : ℕ → SetupStep → Setups → Setups
unfolding admit_setup after_split after_told take_at
setup_step limit (handed id) s = record s { queued = s.queued ++ (id ∷ []) }
setup_step limit admits s = admit_setup limit s.queued s
setup_step limit (split n result) s = after_split result (take_at n s.splitting) s
setup_step limit (told n accepted) s = after_told accepted (take_at n s.failed) s

unfoldable pub run_connections : ℕ → List SetupStep → Setups → Setups
unfolding setup_step
run_connections limit [] s = s
run_connections limit (step ∷ rest) s = run_connections limit rest (setup_step limit step s)

unfoldable pub no_setups : Setups
no_setups = record {
  queued = [];
  splitting = [];
  failed = [];
  readers = [];
  writers = [];
  cancelled = [];
  closed = [];
  untold = [];
}
