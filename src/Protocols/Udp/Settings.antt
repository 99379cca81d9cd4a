-- ===== src/Protocols/Udp/Settings.antt =====
-- protocols/udp/settings.rs: the limits of a UDP endpoint and their validation. `max_permits` is
-- `Semaphore::MAX_PERMITS` of tokio.
use bevy_slinet.Common.{
  ℕ, ◌≤◌, ◌≡◌, ◌⊎◌, ◌<◌, Option, none, some, Result, ok, err, ltb, ◌||◌, if◌then◌else◌, Bool, true,
  false, arith,
}
use bevy_slinet.Queue.Lossy.{OverflowPolicy, drop_newest}
use bevy_slinet.Protocols.Framing.{IoError, invalid_input}

abbrev pub buffer_size : ℕ
buffer_size = 65535

abbrev pub max_datagram_size_limit : ℕ
max_datagram_size_limit = 65507

-- `send_rate` is not zero where it is given (`NonZeroU64`).
pub record UdpOptions : Type 0 where
  pub max_peers : ℕ
  pub max_datagram_size : ℕ
  pub receive_queue_capacity : ℕ
  pub receive_queue_bytes : ℕ
  pub receive_queue_overflow : OverflowPolicy
  pub send_rate : Option ℕ

unfoldable pub max_payload_size : UdpOptions → Option ℕ
max_payload_size o =
    if ltb max_datagram_size_limit o.max_datagram_size then none else some o.max_datagram_size

abbrev pub default_options : UdpOptions
default_options = record {
  max_peers = 1024;
  max_datagram_size = 1200;
  receive_queue_capacity = 1024;
  receive_queue_bytes = 1048576;
  receive_queue_overflow = drop_newest;
  send_rate = none;
}

abbrev pub is_none : Option ℕ → Bool
is_none none = true
is_none (some n) = false

-- `ValidatedOptions::new`; the wrapped options are its result.
unfoldable pub validate : ℕ → UdpOptions → Result UdpOptions IoError
unfolding max_payload_size
validate max_permits o =
    if is_none (max_payload_size o) || ltb max_permits o.max_peers then err invalid_input else ok o

-- Validation changes nothing, and accepts exactly the options whose datagrams fit into UDP and whose
-- peers the semaphore can count.
pub validate_iff :
    (max_permits : ℕ) (o : UdpOptions)
    → ((validate max_permits o ≡ ok o)
        × (o.max_datagram_size ≤ max_datagram_size_limit)
        × (o.max_peers ≤ max_permits))
      ⊎ ((validate max_permits o ≡ err invalid_input)
          × ((max_datagram_size_limit < o.max_datagram_size) ⊎ (max_permits < o.max_peers)))
unfolding validate
validate_iff max_permits o = ground arith
