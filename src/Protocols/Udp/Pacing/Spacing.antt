-- ===== src/Protocols/Udp/Pacing/Spacing.antt =====
-- The times that protocols/udp/pacing.rs keeps between two datagrams.
use native.Mathlib.Nat.{div-add-mod', mod-lt}
use bevy_slinet.Common.{
  ℕ, suc, ◌+◌, ◌-◌, ◌*◌, ◌/◌, ◌%◌, ◌≤◌, ◌<◌, ◌≡◌, ◌⊎◌, inl, inr, none, some, leb, List, [], ◌∷◌,
  arith, word_max, Bool-cases, leb→le, dec_le,
}
use bevy_slinet.Protocols.Udp.Pacing.{
  second, as_nanos, div_ceil, u64_or_max, u32_or_max, spacing, Wakeup, closed, changed,
  rate_channel_closed, deadline_reached, deadline_of, unless_due, Waited, go_at, aborted,
  still_waiting, wait,
}

div_ceil_bounds : (n d : ℕ) → 0 < d → (n ≤ div_ceil n d * d) × (div_ceil n d * d < n + d)
unfolding div_ceil
div_ceil_bounds n d h = elim (Bool-cases (leb (n % d) 0)) [
  | inl exact ↦ rw exact (omega (arith, div-add-mod' n d, leb→le (n % d) 0 exact))
  | inr more ↦ rw more (grind (arith, div-add-mod' n d, mod-lt n h))
]

mul_mono : (a b c : ℕ) → a ≤ b → a * c ≤ b * c
mul_mono a b c h = grind arith

le_of_mul : (x n d : ℕ) → 0 < d → x * d < n + d → x ≤ n
le_of_mul x n d h k = elim (dec_le x n) [
  | yes fine ↦ fine
  | no over ↦ absurd (omega (arith, mul_mono (suc n) x d (omega arith), mul_mono 1 d n h))
]

div_ceil-le : (n d : ℕ) → 0 < d → div_ceil n d ≤ n
div_ceil-le n d h = le_of_mul (div_ceil n d) n d h (div_ceil_bounds n d h).1

-- Nothing saturates below `u64::MAX` seconds.
as_nanos_exact :
    (n : ℕ) → n ≤ word_max * second → u64_or_max (n / second) * second + u32_or_max (n % second) ≡ n
as_nanos_exact n h = ground arith

-- The spacing is the least number of nanoseconds in which a rate of `rate` bytes per second sends
-- the datagram: rounded up, and with no part of it saturated.
pub spacing_lem :
    (bytes rate : ℕ)
    → 0 < rate
    → bytes ≤ word_max
    → (bytes * second ≤ as_nanos (spacing bytes rate) * rate)
      × (as_nanos (spacing bytes rate) * rate < bytes * second + rate)
unfolding spacing
spacing_lem bytes rate h k =
    rw
      (as_nanos_exact (div_ceil (bytes * second) rate)
        (omega (arith, div_ceil-le (bytes * second) rate h)))
      (div_ceil_bounds (bytes * second) rate h)

-- The events of a wait during which the rate stays given and at most `top`, the channel of rates
-- stays open, and the timer does not fire before its deadline.
abbrev pub Within : ℕ → ℕ → ℕ → ℕ → List (Wakeup × ℕ) → Type 0
Within top sent_at bytes rate [] = Unit
Within top sent_at bytes rate ((closed, t) ∷ events) = Unit
Within top sent_at bytes rate ((changed none, t) ∷ events) = ⊥
Within top sent_at bytes rate ((changed (some rate'), t) ∷ events) =
    (0 < rate') × (rate' ≤ top) × Within top sent_at bytes rate' events
Within top sent_at bytes rate ((rate_channel_closed, t) ∷ events) = ⊥
Within top sent_at bytes rate ((deadline_reached, t) ∷ events) =
    sent_at + as_nanos (spacing bytes rate) ≤ t

due_rate :
    (top sent_at bytes rate t : ℕ)
    → 0 < rate
    → rate ≤ top
    → bytes ≤ word_max
    → sent_at + as_nanos (spacing bytes rate) ≤ t
    → bytes * second ≤ (t - sent_at) * top
due_rate top sent_at bytes rate t h k w d = omega (
  arith,
  (spacing_lem bytes rate h w).0,
  mul_mono (as_nanos (spacing bytes rate)) (t - sent_at) rate (omega arith),
  mul_mono rate top (t - sent_at) k,
)

-- The wait returns at once only when the deadline has passed.
unless_due_lem :
    (sent_at bytes rate now t : ℕ) (other : Waited)
    → unless_due (deadline_of (some (sent_at, bytes)) (some rate) now) now other ≡ go_at t
    → ((sent_at + as_nanos (spacing bytes rate) ≤ now) × (now ≡ t)) ⊎ (other ≡ go_at t)
unfolding deadline_of
unless_due_lem sent_at bytes rate now t other e = ground arith

paced :
    (top sent_at bytes rate now t : ℕ) (other : Waited)
    → 0 < rate
    → rate ≤ top
    → bytes ≤ word_max
    → unless_due (deadline_of (some (sent_at, bytes)) (some rate) now) now other ≡ go_at t
    → (other ≡ go_at t → bytes * second ≤ (t - sent_at) * top)
    → bytes * second ≤ (t - sent_at) * top
paced top sent_at bytes rate now t other h k w e later =
    elim (unless_due_lem sent_at bytes rate now t other e) [
      | inl (due, same) ↦ due_rate top sent_at bytes rate t h k w (omega arith)
      | inr goes ↦ later goes
    ]

-- However the rate changes during the wait, while it stays at most `top` bytes per second a datagram
-- goes out so late that the one before it took no more than that rate.
pub wait_rate :
    (top sent_at bytes rate now t : ℕ) (events : List (Wakeup × ℕ))
    → 0 < rate
    → rate ≤ top
    → bytes ≤ word_max
    → Within top sent_at bytes rate events
    → wait (some (sent_at, bytes)) (some rate) now events ≡ go_at t
    → bytes * second ≤ (t - sent_at) * top
unfolding wait
wait_rate top sent_at bytes rate now t [] h k w within e =
    paced top sent_at bytes rate now t still_waiting h k w e (λ x. absurd (cc x))
wait_rate top sent_at bytes rate now t ((closed, u) ∷ events) h k w within e =
    paced top sent_at bytes rate now t aborted h k w e (λ x. absurd (cc x))
wait_rate top sent_at bytes rate now t ((changed none, u) ∷ events) h k w within e = absurd within
wait_rate top sent_at bytes rate now t ((changed (some rate'), u) ∷ events) h k w within e =
    paced top sent_at bytes rate now t (wait (some (sent_at, bytes)) (some rate') u events) h k w e
      (wait_rate top sent_at bytes rate' u t events within.0 within.1 w within.2)
wait_rate top sent_at bytes rate now t ((rate_channel_closed, u) ∷ events) h k w within e =
    absurd within
wait_rate top sent_at bytes rate now t ((deadline_reached, u) ∷ events) h k w within e =
    paced top sent_at bytes rate now t (go_at u) h k w e
      (λ x. due_rate top sent_at bytes rate t h k w (ground arith))
