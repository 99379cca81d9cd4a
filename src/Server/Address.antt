-- ===== src/Server/Address.antt =====
-- server.rs: `publish_server_address`, which a browser runs in each frame until the listener is bound,
-- over the frames.
use bevy_slinet.Common.{ℕ, ◌≡◌, refl, Bool, true, false, Option, none, some, List, [], ◌∷◌}

-- What `try_recv` of the address's channel gives.
pub data AddressPoll : Type 0 where
  empty : AddressPoll
  disconnected : AddressPoll
  bound : ℕ → AddressPoll

-- The resources: whether `PendingServerAddress` is there, and `ServerAddress`.
pub record Addressing : Type 0 where
  pub is_pending : Bool
  pub address : Option ℕ

unfoldable pub after_poll : AddressPoll → Addressing → Addressing
after_poll empty r = r
after_poll disconnected r = record r { is_pending = false }
after_poll (bound a) r = record { is_pending = false; address = some a }

unfoldable pub publish_server_address : Bool → AddressPoll → Addressing → Addressing
unfolding after_poll
publish_server_address true poll r = after_poll poll r
publish_server_address false poll r = r

unfoldable pub publish_frames : List AddressPoll → Addressing → Addressing
unfolding publish_server_address
publish_frames [] r = r
publish_frames (poll ∷ rest) r = publish_frames rest (publish_server_address r.is_pending poll r)

-- The first answer of the channel, if there is one.
abbrev pub first_answer : List AddressPoll → Option ℕ
first_answer [] = none
first_answer (empty ∷ rest) = first_answer rest
first_answer (disconnected ∷ rest) = none
first_answer (bound a ∷ rest) = some a

settled :
    (polls : List AddressPoll) (address : Option ℕ)
    → (publish_frames polls (record { is_pending = false; address = address })).address ≡ address
unfolding publish_frames
settled [] address = refl
settled (poll ∷ rest) address = settled rest address

-- Over the frames of a browser's server, `ServerAddress` becomes the first address that the listener
-- reports and keeps it, and there is none if the listener goes away first.
pub publish_frames_lem :
    (polls : List AddressPoll)
    → (publish_frames polls (record { is_pending = true; address = none })).address
      ≡ first_answer polls
unfolding publish_frames
publish_frames_lem [] = refl
publish_frames_lem (empty ∷ rest) = publish_frames_lem rest
publish_frames_lem (disconnected ∷ rest) = settled rest none
publish_frames_lem (bound a ∷ rest) = settled rest (some a)
