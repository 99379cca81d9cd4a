-- ===== src/Connection/Settings.antt =====
-- connection/settings.rs, and `ReceiveLimits` of connection/mod.rs: how an endpoint's settings are
-- found. A resource that is absent is `none`.
use bevy_slinet.Common.{ℕ, Bool, true, false, ◌&&◌, Option, none, some, word_max}
use bevy_slinet.Queue.Outgoing.{NetworkQueueSettings, default_queue_settings}

-- The live limit that clones share.
pub record ReceiveLimits : Type 0 where
  pub max_packet_size : ℕ

abbrev pub default_limits : ReceiveLimits
default_limits = record { max_packet_size = word_max }

unfoldable pub set_max_packet_size : ℕ → ReceiveLimits → ReceiveLimits
set_max_packet_size n limits = record limits { max_packet_size = n }

pub record NetworkSettings : Type 0 where
  pub queues : Option NetworkQueueSettings
  pub packet_limit : Option ℕ

abbrev pub default_settings : NetworkSettings
default_settings = record { queues = none; packet_limit = none }

unfoldable pub with_queues : NetworkQueueSettings → NetworkSettings → NetworkSettings
with_queues queues s = record s { queues = some queues }

unfoldable pub with_max_packet_size : ℕ → NetworkSettings → NetworkSettings
with_max_packet_size bytes s = record s { packet_limit = some bytes }

module _ {A : Type 0} where
  -- `or_else` and `unwrap_or`.
  abbrev pub or_else : Option A → Option A → Option A
  or_else (some a) other = some a
  or_else none other = other

  abbrev pub unwrap_or : Option A → A → A
  unwrap_or (some a) default = a
  unwrap_or none default = default

-- `settings.and_then(|s| s.queues)` and `settings.and_then(|s| s.max_packet_size)`.
abbrev own_queues : Option NetworkSettings → Option NetworkQueueSettings
own_queues none = none
own_queues (some s) = s.queues

abbrev own_limit : Option NetworkSettings → Option ℕ
own_limit none = none
own_limit (some s) = s.packet_limit

unfoldable pub resolve_queues :
    Option NetworkSettings → Option NetworkQueueSettings → NetworkQueueSettings
resolve_queues settings global =
    unwrap_or (or_else (own_queues settings) global) default_queue_settings

unfoldable pub sync_limits : Option NetworkSettings → Option ℕ → ReceiveLimits → ReceiveLimits
unfolding set_max_packet_size
sync_limits settings global limits =
    set_max_packet_size (unwrap_or (or_else (own_limit settings) global) word_max) limits

abbrev is_none : {A : Type 0} → Option A → Bool
is_none none = true
is_none (some a) = false

-- Whether `warning_system` warns.
unfoldable pub warns : Option NetworkSettings → Option ℕ → Bool
warns settings global = is_none (own_limit settings) && is_none global
