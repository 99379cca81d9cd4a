-- ===== src/LobbyBattle/Examples.antt =====
-- The handoff of examples/lobby_and_battle_servers.rs at fixed inputs.
use bevy_slinet.Common.{◌≡◌, refl, true, false, none, some, List, [], ◌∷◌}
use bevy_slinet.LobbyBattle.{
  BattleClientPacket, lobby_address, battle_address, LobbyServerPacket, leaves_lobby,
  requests_battle, lobby_client_packet_handler, reconnect, leaves_battle,
}
use bevy_slinet.LobbyBattle.Handoff.{
  Battle, BattleStep, keeps_alive, greets, server_handles, loses_to_client, run_battle,
}
use bevy_slinet.LobbyBattle.Handoff.Earned.{IsEarned, run_battle-IsEarned}
use bevy_slinet.LobbyBattle.Handoff.Exchange.{whole_exchange}

abbrev started : Battle
started = record {
  servers = record { lobby = none; battle = some battle_address; result_received = false };
  to_server = BattleClientPacket.keep_alive ∷ [];
  to_client = [];
  has_left = false;
}

started-IsEarned : IsEarned started
started-IsEarned = record {
  to_server_earned = (tt, tt);
  to_client_confirmed = tt;
  left_earned = λ h. absurd (cc h);
}

-- The first result is lost.
abbrev with_loss : List BattleStep
with_loss = greets ∷ keeps_alive ∷ server_handles 0 ∷ loses_to_client 0 ∷ whole_exchange

run_battle-IsEarned_example : IsEarned (run_battle with_loss started)
run_battle-IsEarned_example = run_battle-IsEarned with_loss started started-IsEarned

left_with_loss : (run_battle with_loss started).has_left ≡ true
unfolding run_battle
left_with_loss = refl

reconnects : reconnect started.servers ≡ leaves_battle ∷ requests_battle 3000 ∷ []
unfolding reconnect
reconnects = refl

told_of_battle :
    lobby_client_packet_handler (LobbyServerPacket.battle_server battle_address)
    ≡ leaves_lobby ∷ requests_battle lobby_address ∷ []
unfolding lobby_client_packet_handler
told_of_battle = refl
