-- ===== src/Client/Examples.antt =====
-- A frame of client.rs at fixed inputs.
use bevy_slinet.Common.{ℕ, refl, Bool, true, ◌||◌, none, some, [], ◌∷◌, ◌==◌, List}
use bevy_slinet.Queue.Lossy.{Shared, drop_newest}
use bevy_slinet.Client.Registry.{
  IncomingMessage, established, stream_packet, closed, World, incoming_system,
}
use bevy_slinet.Client.Registry
use bevy_slinet.Client.Datagrams.{Deliveries, receive_datagram_packets}
use bevy_slinet.Client.Datagrams.Fates.{receive_datagram_packets-Frame}
use bevy_slinet.Client.Datagrams.Fates

abbrev world : World ℕ
world = record { connections = 4 ∷ []; current = some 4; published = 4 ∷ []; events = [] }

abbrev messages : List (IncomingMessage ℕ)
messages = established 5 ∷ stream_packet 77 ∷ closed (some 5) ∷ closed none ∷ []

world-IsCurrent : Registry.IsCurrent world
unfolding Registry.last
world-IsCurrent = refl

incoming_system-Frame_example : Registry.Frame 3 messages world (incoming_system 3 messages world)
incoming_system-Frame_example = Registry.incoming_system-Frame 3 messages world world-IsCurrent

-- Connection 1 is published, 2 is cancelled, and 3 is neither; packets of 1 have it cancelled.
abbrev deliveries : Deliveries ℕ
deliveries = record {
  is_published = λ id. id == 1;
  is_cancelled = λ id. id == 2;
  delivered = [];
  reports = [];
}

abbrev cancel_own : ℕ × ℕ → (ℕ → Bool) → ℕ → Bool
cancel_own packet cancelled id = cancelled id || (id == packet.0)

abbrev datagrams : Shared (ℕ × ℕ)
datagrams = record {
  state = record {
    items = ((2, 70), 1) ∷ ((1, 71), 1) ∷ ((1, 72), 1) ∷ ((3, 73), 1) ∷ ((1, 74), 1) ∷ [];
    bytes = 5;
    senders = 1;
    receiver_open = true;
  };
  max_items = 8;
  max_bytes = 100;
  policy = drop_newest;
  signals = [];
}

receive_datagram_packets-Frame_example :
    Fates.Frame cancel_own 4 datagrams deliveries
      (receive_datagram_packets cancel_own 4 datagrams deliveries)
receive_datagram_packets-Frame_example =
    receive_datagram_packets-Frame cancel_own 4 datagrams deliveries
