-- ===== src/LobbyBattle/Handoff.antt =====
-- The client's battle in examples/lobby_and_battle_servers.rs: one connection with its datagrams in
-- flight, which the network loses, doubles and reorders.
pub mod Earned
pub mod Exchange
use bevy_slinet.Common.{
  ℕ, zero, suc, ◌≡◌, refl, ap, ◌∙◌, sym, Bool, true, false, Option, none, some, List, [], ◌∷◌, ◌++◌,
  All, if_elim,
}
use bevy_slinet.LobbyBattle.{
  BattleClientPacket, BattleServerPacket, ClientAction, sends_to_lobby, sends_to_battle,
  leaves_lobby, leaves_battle, requests_lobby, requests_battle, ActiveServers, keepalive_to,
  send_keepalive, battle_client_packet_handler, battle_server_packet_handler,
}

pub record Battle : Type 0 where
  pub servers : ActiveServers
  pub to_server : List BattleClientPacket
  pub to_client : List BattleServerPacket
  pub has_left : Bool

-- What the network and the apps do: a packet in flight is handled, and stays in flight for a copy of
-- it, or is lost.
pub data BattleStep : Type 0 where
  keeps_alive greets server_keeps_alive : BattleStep
  server_handles client_handles loses_to_server loses_to_client : ℕ → BattleStep

unfoldable pub do_action : ClientAction → Battle → Battle
do_action (sends_to_battle p) b = record b { to_server = p ∷ b.to_server }
do_action (requests_lobby address) b = record b { has_left = true }
do_action (sends_to_lobby p) b = b
do_action leaves_lobby b = b
do_action leaves_battle b = b
do_action (requests_battle address) b = b

unfoldable pub do_actions : List ClientAction → Battle → Battle
unfolding do_action
do_actions [] b = b
do_actions (a ∷ rest) b = do_actions rest (do_action a b)

unfoldable pub nth {ℓ} : {A : Type ℓ} → ℕ → List A → Option A
nth n [] = none
nth zero (a ∷ rest) = some a
nth (suc n) (a ∷ rest) = nth n rest

unfoldable pub without {ℓ} : {A : Type ℓ} → ℕ → List A → List A
without n [] = []
without zero (a ∷ rest) = rest
without (suc n) (a ∷ rest) = a ∷ without n rest

unfoldable pub answer : Option BattleServerPacket → Battle → Battle
answer none b = b
answer (some p) b = record b { to_client = p ∷ b.to_client }

unfoldable pub server_takes : Option BattleClientPacket → Battle → Battle
unfolding answer battle_server_packet_handler
server_takes none b = b
server_takes (some p) b = answer (battle_server_packet_handler p) b

unfoldable pub client_takes : Option BattleServerPacket → Battle → Battle
unfolding do_actions battle_client_packet_handler
client_takes none b = b
client_takes (some p) b =
    let (actions, received) = battle_client_packet_handler p b.servers.result_received in
    do_actions actions (record b { servers = record (b.servers) { result_received = received } })

unfoldable pub battle_step : BattleStep → Battle → Battle
unfolding do_actions send_keepalive server_takes client_takes nth without answer
battle_step keeps_alive b = do_actions (send_keepalive b.servers) b
battle_step greets b = answer (some BattleServerPacket.battle_start) b
battle_step server_keeps_alive b = answer (some BattleServerPacket.keep_alive) b
battle_step (server_handles n) b = server_takes (nth n b.to_server) b
battle_step (client_handles n) b = client_takes (nth n b.to_client) b
battle_step (loses_to_server n) b = record b { to_server = without n b.to_server }
battle_step (loses_to_client n) b = record b { to_client = without n b.to_client }

unfoldable pub run_battle : List BattleStep → Battle → Battle
unfolding battle_step
run_battle [] b = b
run_battle (step ∷ rest) b = run_battle rest (battle_step step b)
