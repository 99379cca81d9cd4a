-- ===== src/Protocols/Udp/Pacing.antt =====
-- protocols/udp/pacing.rs: the spacing of datagrams. Times are nanoseconds; `None` of the rate
-- channel is no pacing.
pub mod Spacing
use bevy_slinet.Common.{
  ℕ, zero, suc, ◌+◌, ◌-◌, ◌*◌, ◌/◌, ◌%◌, ◌^◌, ◌≤◌, ◌<◌, ◌≡◌, Option, none, some, Result, ok, err,
  leb, ltb, if◌then◌else◌, List, [], ◌∷◌, arith, min, word_max, Bool, true, false,
}
use bevy_slinet.Protocols.Framing.{IoError, connection_aborted}

-- `Duration::new(secs, nanos)`, with the `try_from` of its parts.
pub record Duration : Type 0 where
  pub secs : ℕ
  pub nanos : ℕ

abbrev pub second : ℕ
second = 1_000_000_000

abbrev pub as_nanos : Duration → ℕ
as_nanos d = d.secs * second + d.nanos

-- `div_ceil` for `d` not zero.
unfoldable pub div_ceil : ℕ → ℕ → ℕ
div_ceil n d = if leb (n % d) 0 then n / d else n / d + 1

abbrev pub u64_or_max : ℕ → ℕ
u64_or_max n = if leb n word_max then n else word_max

abbrev pub u32_or_max : ℕ → ℕ
u32_or_max n = if leb n (2 ^ 32 - 1) then n else 2 ^ 32 - 1

unfoldable pub spacing : ℕ → ℕ → Duration
spacing bytes rate =
    let nanos = div_ceil (bytes * second) rate in
    record { secs = u64_or_max (nanos / second); nanos = u32_or_max (nanos % second) }

-- The datagram sent last, by its time and size.
pub record DataPacer : Type 0 where
  pub rate : Option ℕ
  pub previous : Option (ℕ × ℕ)

-- What the `select!` of `wait` can see happen, in its order of preference.
pub data Wakeup : Type 0 where
  closed : Wakeup
  changed : Option ℕ → Wakeup
  rate_channel_closed : Wakeup
  deadline_reached : Wakeup

-- The deadline that a round of `wait` waits for, and `none` where it returns at once. `rate` is the
-- value that `borrow_and_update` reads.
unfoldable pub deadline_of : Option (ℕ × ℕ) → Option ℕ → ℕ → Option ℕ
unfolding spacing
deadline_of none rate now = none
deadline_of (some (sent_at, bytes)) none now = none
deadline_of (some (sent_at, bytes)) (some rate) now =
    let deadline = sent_at + as_nanos (spacing bytes rate) in
    if leb deadline now then none else some deadline

-- How a wait ends: with the time at which it returns.
pub data Waited : Type 0 where
  go_at : ℕ → Waited
  aborted : Waited
  still_waiting : Waited

abbrev unless_due : Option ℕ → ℕ → Waited → Waited
unless_due none now other = go_at now
unless_due (some deadline) now other = other

-- The loop of `wait` over what happens, each with the time at which the loop sees it.
unfoldable pub wait : Option (ℕ × ℕ) → Option ℕ → ℕ → List (Wakeup × ℕ) → Waited
unfolding deadline_of
wait previous rate now [] = unless_due (deadline_of previous rate now) now still_waiting
wait previous rate now ((closed, t) ∷ events) =
    unless_due (deadline_of previous rate now) now aborted
wait previous rate now ((changed rate', t) ∷ events) =
    unless_due (deadline_of previous rate now) now (wait previous rate' t events)
wait previous rate now ((rate_channel_closed, t) ∷ events) =
    unless_due (deadline_of previous rate now) now (go_at t)
wait previous rate now ((deadline_reached, t) ∷ events) =
    unless_due (deadline_of previous rate now) now (go_at t)

-- `sent`.
unfoldable pub sent : ℕ → ℕ → DataPacer → DataPacer
sent bytes now p = record p { previous = some (now, bytes) }
