-- ===== src/Server/Accept.antt =====
-- server.rs: `accept_connections` and the tasks it starts, `ConnectedTransport::establish`. The
-- listener is a parameter, by its state and what `handle_disconnection` makes of it; what it accepts
-- and what the channels answer is part of the steps. The warning on the serializer is left out.
pub mod Permits
use bevy_slinet.Common.{
  ℕ, zero, suc, ◌-◌, ◌+◌, Bool, true, false, Option, none, some, List, [], ◌∷◌, ◌++◌, Result, ok,
  err, if◌then◌else◌, max, take_at,
}
use bevy_slinet.Protocols.Framing.{IoError, interrupted, connection_aborted, connection_reset}
use bevy_slinet.Connection.Handle.{next_id}

-- A task of `establish`, for a stream with this peer: before its first poll, with the connection's
-- identifier while the ECS is told, and while the connection tasks are given the connection.
pub data Establishing : Type 0 where
  spawned : ℕ → Establishing
  announcing : ℕ → ℕ → Establishing
  handing : ℕ → ℕ → Establishing

-- `permits` are the free ones of the semaphore, and `announced` the connections that the ECS took,
-- with their peers; `handed` went to the connection tasks, `dropped` are the peers of streams for
-- which there was no permit, and `logged` those of tasks that failed or were dropped. Newest first.
pub record Accepting (L : Type 0) : Type 0 where
  pub is_running : Bool
  pub listener : L
  pub permits : ℕ
  pub tasks : List Establishing
  pub counter : ℕ
  pub announced : List (ℕ × ℕ)
  pub handed : List ℕ
  pub dropped : List ℕ
  pub logged : List ℕ

-- `stopped` drops a task, as the runtime does when it shuts down.
pub data AcceptStep : Type 0 where
  accepts : Result ℕ IoError → AcceptStep
  disconnected : ℕ → AcceptStep
  polled : ℕ → Bool → AcceptStep
  stopped : ℕ → AcceptStep

-- The errors after which the loop goes on.
unfoldable pub is_transient : IoError → Bool
is_transient interrupted = true
is_transient connection_aborted = true
is_transient connection_reset = true
is_transient _ = false

module _ {L : Type 0} (handle_disconnection : ℕ → L → L) where
  -- `try_acquire_owned`, and the task for the stream or its end.
  unfoldable pub admit_stream : ℕ → ℕ → Accepting L → Accepting L
  admit_stream peer zero s = record s { dropped = peer ∷ s.dropped }
  admit_stream peer (suc free) s = record s {
    permits = free;
    tasks = s.tasks ++ (spawned peer ∷ []);
  }

  -- The first arm of the `select!`.
  unfoldable pub after_accept : Result ℕ IoError → Accepting L → Accepting L
  unfolding admit_stream is_transient
  after_accept (ok peer) s = admit_stream peer s.permits s
  after_accept (err e) s = if is_transient e then s else record s { is_running = false }

  -- The end of a task, which gives its permit back.
  abbrev pub release : List Establishing → Accepting L → Accepting L
  release others s = record s { tasks = others; permits = suc s.permits }

  -- `establish` at a poll, with what the channel it awaits answers.
  unfoldable pub poll_establish :
      Bool → Option (Establishing × List Establishing) → Accepting L → Accepting L
  unfolding next_id
  poll_establish accepted none s = s
  poll_establish accepted (some (spawned peer, others)) s =
      let (id, counter') = next_id s.counter in
      record s { tasks = announcing id peer ∷ others; counter = counter' }
  poll_establish accepted (some (announcing id peer, others)) s =
      if accepted
      then record s { tasks = handing id peer ∷ others; announced = (id, peer) ∷ s.announced }
      else release others (record s { logged = peer ∷ s.logged })
  poll_establish accepted (some (handing id peer, others)) s =
      release others (record s { handed = if accepted then id ∷ s.handed else s.handed })

  abbrev pub stream_peer : Establishing → ℕ
  stream_peer (spawned peer) = peer
  stream_peer (announcing id peer) = peer
  stream_peer (handing id peer) = peer

  abbrev pub was_announced : Establishing → Bool
  was_announced (handing id peer) = true
  was_announced _ = false

  unfoldable pub stop_establish :
      Option (Establishing × List Establishing) → Accepting L → Accepting L
  stop_establish none s = s
  stop_establish (some (task, others)) s =
      release others
        (record s { logged = if was_announced task then s.logged else stream_peer task ∷ s.logged })

  unfoldable pub accept_step : AcceptStep → Accepting L → Accepting L
  unfolding after_accept poll_establish stop_establish take_at
  accept_step (accepts result) s = if s.is_running then after_accept result s else s
  accept_step (disconnected peer) s =
      if s.is_running then record s { listener = handle_disconnection peer s.listener } else s
  accept_step (polled n accepted) s = poll_establish accepted (take_at n s.tasks) s
  accept_step (stopped n) s = stop_establish (take_at n s.tasks) s

  unfoldable pub run_accepting : List AcceptStep → Accepting L → Accepting L
  unfolding accept_step
  run_accepting [] s = s
  run_accepting (step ∷ rest) s = run_accepting rest (accept_step step s)

  -- The state at the start of the loop.
  abbrev pub listening : L → ℕ → ℕ → Accepting L
  listening listener receive_capacity counter = record {
    is_running = true;
    listener = listener;
    permits = max receive_capacity 1;
    tasks = [];
    counter = counter;
    announced = [];
    handed = [];
    dropped = [];
    logged = [];
  }

  -- `accept_connections`, with what `bind` gives: nothing happens without a listener.
  unfoldable pub accept_connections :
      Result L IoError → ℕ → ℕ → List AcceptStep → Option (Accepting L)
  unfolding run_accepting
  accept_connections (err e) receive_capacity counter steps = none
  accept_connections (ok listener) receive_capacity counter steps =
      some (run_accepting steps (listening listener receive_capacity counter))
