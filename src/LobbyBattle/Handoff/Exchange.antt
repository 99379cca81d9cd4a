-- ===== src/LobbyBattle/Handoff/Exchange.antt =====
-- examples/lobby_and_battle_servers.rs: the exchange of a battle's result, when it comes through.
use bevy_slinet.Common.{◌≡◌, refl, ap, ◌∙◌, ℕ, Bool, true, false, Option, none, some, List, [], ◌∷◌}
use bevy_slinet.LobbyBattle.Handoff.{
  Battle, BattleStep, keeps_alive, server_handles, client_handles, run_battle,
}

-- The next keepalive, with its answers and theirs.
abbrev pub whole_exchange : List BattleStep
whole_exchange =
    keeps_alive ∷ server_handles 0 ∷ client_handles 0 ∷ server_handles 0 ∷ client_handles 0 ∷ []

abbrev at_battle : Option ℕ → Option ℕ → Bool → Battle → Battle
at_battle lobby_peer battle_peer received b = record b {
  servers = record { lobby = lobby_peer; battle = battle_peer; result_received = received };
}

whole_exchange_at :
    (address : ℕ) (received : Bool) (b : Battle)
    → (run_battle whole_exchange (at_battle none (some address) received b)).has_left ≡ true
unfolding run_battle
whole_exchange_at address true b = refl
whole_exchange_at address false b = refl

-- On a connection to the battle alone, whatever was lost before, one keepalive with its answers and
-- theirs takes the client back to the lobby.
run_battle_leaves :
    (address : ℕ) (b : Battle)
    → b.servers.lobby ≡ none
    → b.servers.battle ≡ some address
    → (run_battle whole_exchange b).has_left ≡ true
run_battle_leaves address b lobby_peer battle_peer =
    ap
      (λ v.
        (run_battle whole_exchange
          (at_battle v b.servers.battle b.servers.result_received b)).has_left)
      lobby_peer
    ∙ ap (λ v. (run_battle whole_exchange (at_battle none v b.servers.result_received b)).has_left)
        battle_peer
    ∙ whole_exchange_at address b.servers.result_received b
