-- ===== src/LobbyBattle/Handoff/Earned.antt =====
-- examples/lobby_and_battle_servers.rs: what a client's way back to the lobby rests on.
use bevy_slinet.Common.{
  ℕ, zero, suc, ◌≡◌, refl, Bool, true, Option, none, some, List, [], ◌∷◌, All, if_elim,
}
use bevy_slinet.LobbyBattle.{BattleClientPacket, BattleServerPacket, keepalive_to, send_keepalive}
use bevy_slinet.LobbyBattle.Handoff.{
  Battle, BattleStep, keeps_alive, greets, server_keeps_alive, server_handles, client_handles,
  loses_to_server, loses_to_client, do_actions, nth, without, answer, server_takes, client_takes,
  battle_step, run_battle,
}

-- What stands behind a packet in flight, by whether the client has received its result.
abbrev Earned : Bool → BattleClientPacket → Type 0
Earned received BattleClientPacket.result_received = received ≡ true
Earned received BattleClientPacket.play = Unit
Earned received BattleClientPacket.keep_alive = Unit

abbrev Confirmed : Bool → BattleServerPacket → Type 0
Confirmed received BattleServerPacket.result_confirmed = received ≡ true
Confirmed received BattleServerPacket.broadcast_player_join = Unit
Confirmed received BattleServerPacket.battle_start = Unit
Confirmed received BattleServerPacket.you_won = Unit
Confirmed received BattleServerPacket.keep_alive = Unit

pub record IsEarned (b : Battle) : Type 0 where
  pub to_server_earned : All (Earned b.servers.result_received) b.to_server
  pub to_client_confirmed : All (Confirmed b.servers.result_received) b.to_client
  pub left_earned : b.has_left ≡ true → b.servers.result_received ≡ true

module _ {A : Type 0} (P : A → Type 0) where
  abbrev IfSome : Option A → Type 0
  IfSome none = Unit
  IfSome (some a) = P a

  All-without : (n : ℕ) (xs : List A) → All P xs → All P (without n xs)
  unfolding without
  All-without n [] h = tt
  All-without zero (a ∷ rest) h = h.1
  All-without (suc n) (a ∷ rest) h = (h.0, All-without n rest h.1)

  All-nth : (n : ℕ) (xs : List A) → All P xs → IfSome (nth n xs)
  unfolding nth
  All-nth n [] h = tt
  All-nth zero (a ∷ rest) h = h.0
  All-nth (suc n) (a ∷ rest) h = All-nth n rest h.1

All-always : {A : Type 0} (P : A → Type 0) (xs : List A) → ((a : A) → P a) → All P xs
All-always P [] h = tt
All-always P (a ∷ rest) h = (h a, All-always P rest h)

Earned-with_result : (p : BattleClientPacket) → Earned true p
Earned-with_result BattleClientPacket.result_received = refl
Earned-with_result BattleClientPacket.play = tt
Earned-with_result BattleClientPacket.keep_alive = tt

Confirmed-with_result : (p : BattleServerPacket) → Confirmed true p
Confirmed-with_result BattleServerPacket.result_confirmed = refl
Confirmed-with_result BattleServerPacket.broadcast_player_join = tt
Confirmed-with_result BattleServerPacket.battle_start = tt
Confirmed-with_result BattleServerPacket.you_won = tt
Confirmed-with_result BattleServerPacket.keep_alive = tt

-- Once the client has its result, every packet is earned.
abbrev with_result : Battle → Battle
with_result b = record b { servers = record (b.servers) { result_received = true } }

with_result-IsEarned : (b : Battle) → IsEarned (with_result b)
with_result-IsEarned b = record {
  to_server_earned = All-always (Earned true) b.to_server Earned-with_result;
  to_client_confirmed = All-always (Confirmed true) b.to_client Confirmed-with_result;
  left_earned = λ _. refl;
}

sends_to_battle-IsEarned :
    (p : BattleClientPacket) (b : Battle)
    → Earned b.servers.result_received p
    → IsEarned b
    → IsEarned (record b { to_server = p ∷ b.to_server })
sends_to_battle-IsEarned p b h k = record {
  to_server_earned = (h, k.to_server_earned);
  to_client_confirmed = k.to_client_confirmed;
  left_earned = k.left_earned;
}

answer-IsEarned :
    (p : BattleServerPacket) (b : Battle)
    → Confirmed b.servers.result_received p
    → IsEarned b
    → IsEarned (answer (some p) b)
unfolding answer
answer-IsEarned p b h k = record {
  to_server_earned = k.to_server_earned;
  to_client_confirmed = (h, k.to_client_confirmed);
  left_earned = k.left_earned;
}

server_takes-IsEarned :
    (p : Option BattleClientPacket) (b : Battle)
    → IfSome (Earned b.servers.result_received) p
    → IsEarned b
    → IsEarned (server_takes p b)
unfolding server_takes
server_takes-IsEarned none b h k = k
server_takes-IsEarned (some BattleClientPacket.play) b h k =
    answer-IsEarned BattleServerPacket.you_won b tt k
server_takes-IsEarned (some BattleClientPacket.result_received) b h k =
    answer-IsEarned BattleServerPacket.result_confirmed b h k
server_takes-IsEarned (some BattleClientPacket.keep_alive) b h k = k

client_takes-IsEarned :
    (p : Option BattleServerPacket) (b : Battle)
    → IfSome (Confirmed b.servers.result_received) p
    → IsEarned b
    → IsEarned (client_takes p b)
unfolding client_takes
client_takes-IsEarned none b h k = k
client_takes-IsEarned (some BattleServerPacket.broadcast_player_join) b h k = k
client_takes-IsEarned (some BattleServerPacket.battle_start) b h k =
    sends_to_battle-IsEarned BattleClientPacket.play b tt k
client_takes-IsEarned (some BattleServerPacket.you_won) b h k =
    sends_to_battle-IsEarned BattleClientPacket.result_received (with_result b) refl
      (with_result-IsEarned b)
client_takes-IsEarned (some BattleServerPacket.result_confirmed) b h k = record {
  to_server_earned = k.to_server_earned;
  to_client_confirmed = k.to_client_confirmed;
  left_earned = λ _. h;
}
client_takes-IsEarned (some BattleServerPacket.keep_alive) b h k = k

keepalive_to-IsEarned :
    (lobby_peer battle_peer : Option ℕ) (b : Battle)
    → IsEarned b
    → IsEarned (do_actions (keepalive_to lobby_peer battle_peer b.servers.result_received) b)
unfolding do_actions keepalive_to
keepalive_to-IsEarned (some a) none b k = k
keepalive_to-IsEarned none none b k = k
keepalive_to-IsEarned (some a) (some c) b k = k
keepalive_to-IsEarned none (some c) b k =
    if_elim (λ p. IsEarned (record b { to_server = p ∷ b.to_server })) b.servers.result_received
      BattleClientPacket.result_received BattleClientPacket.play
      (λ h. sends_to_battle-IsEarned BattleClientPacket.result_received b h k)
      (λ h. sends_to_battle-IsEarned BattleClientPacket.play b tt k)

battle_step-IsEarned : (step : BattleStep) (b : Battle) → IsEarned b → IsEarned (battle_step step b)
unfolding battle_step send_keepalive
battle_step-IsEarned keeps_alive b k = keepalive_to-IsEarned b.servers.lobby b.servers.battle b k
battle_step-IsEarned greets b k = answer-IsEarned BattleServerPacket.battle_start b tt k
battle_step-IsEarned server_keeps_alive b k = answer-IsEarned BattleServerPacket.keep_alive b tt k
battle_step-IsEarned (server_handles n) b k =
    server_takes-IsEarned (nth n b.to_server) b
      (All-nth (Earned b.servers.result_received) n b.to_server k.to_server_earned) k
battle_step-IsEarned (client_handles n) b k =
    client_takes-IsEarned (nth n b.to_client) b
      (All-nth (Confirmed b.servers.result_received) n b.to_client k.to_client_confirmed) k
battle_step-IsEarned (loses_to_server n) b k = record {
  to_server_earned =
      All-without (Earned b.servers.result_received) n b.to_server k.to_server_earned;
  to_client_confirmed = k.to_client_confirmed;
  left_earned = k.left_earned;
}
battle_step-IsEarned (loses_to_client n) b k = record {
  to_server_earned = k.to_server_earned;
  to_client_confirmed =
      All-without (Confirmed b.servers.result_received) n b.to_client k.to_client_confirmed;
  left_earned = k.left_earned;
}

-- However the network loses, doubles and reorders packets, the client asks for the lobby only when it
-- has received the result, and acknowledges the result only then.
pub run_battle-IsEarned :
    (steps : List BattleStep) (b : Battle) → IsEarned b → IsEarned (run_battle steps b)
unfolding run_battle
run_battle-IsEarned [] b k = k
run_battle-IsEarned (step ∷ rest) b k =
    run_battle-IsEarned rest (battle_step step b) (battle_step-IsEarned step b k)
