-- ===== src/LobbyBattle.antt =====
-- examples/lobby_and_battle_servers.rs: the packets, the handlers of both servers and of the client,
-- and the client's state. Bevy's `Timer` is a parameter; a handler's calls on connections and
-- commands are its actions, in order.
mod Examples
pub mod Handoff
pub mod Timeouts
use bevy_slinet.Common.{
  ℕ, Bool, true, false, Option, none, some, List, [], ◌∷◌, ◌++◌, if◌then◌else◌, map,
}

pub data LobbyClientPacket : Type 0 where
  hello battle keep_alive : LobbyClientPacket

pub data LobbyServerPacket : Type 0 where
  hello : LobbyServerPacket
  battle_server : ℕ → LobbyServerPacket
  keep_alive : LobbyServerPacket

pub data BattleClientPacket : Type 0 where
  play result_received keep_alive : BattleClientPacket

pub data BattleServerPacket : Type 0 where
  broadcast_player_join battle_start you_won result_confirmed keep_alive : BattleServerPacket

-- What a client's handler calls on its connections, and the requests that it triggers.
pub data ClientAction : Type 0 where
  sends_to_lobby : LobbyClientPacket → ClientAction
  sends_to_battle : BattleClientPacket → ClientAction
  leaves_lobby leaves_battle : ClientAction
  requests_lobby requests_battle : ℕ → ClientAction

abbrev pub lobby_address : ℕ
lobby_address = 3000

abbrev pub battle_address : ℕ
battle_address = lobby_address

-- What the servers send back, if anything.
unfoldable pub lobby_server_packet_handler : LobbyClientPacket → Option LobbyServerPacket
lobby_server_packet_handler LobbyClientPacket.hello = some LobbyServerPacket.hello
lobby_server_packet_handler LobbyClientPacket.battle =
    some (LobbyServerPacket.battle_server battle_address)
lobby_server_packet_handler LobbyClientPacket.keep_alive = none

unfoldable pub battle_server_packet_handler : BattleClientPacket → Option BattleServerPacket
battle_server_packet_handler BattleClientPacket.play = some BattleServerPacket.you_won
battle_server_packet_handler BattleClientPacket.result_received =
    some BattleServerPacket.result_confirmed
battle_server_packet_handler BattleClientPacket.keep_alive = none

-- What `battle_server_accept_new_connections` sends, by the connections' ids.
unfoldable pub greet_players : ℕ → List ℕ → List (ℕ × BattleServerPacket)
greet_players connection connections =
    map (λ c. (c, BattleServerPacket.broadcast_player_join)) connections
    ++ ((connection, BattleServerPacket.battle_start) ∷ [])

-- `server_send_keepalive`, for the lobby and for the battle.
unfoldable pub server_send_keepalive :
    List ℕ → List ℕ → List (ℕ × LobbyServerPacket) × List (ℕ × BattleServerPacket)
server_send_keepalive lobbies battles = (
  map (λ c. (c, LobbyServerPacket.keep_alive)) lobbies,
  map (λ c. (c, BattleServerPacket.keep_alive)) battles,
)

unfoldable pub lobby_client_packet_handler : LobbyServerPacket → List ClientAction
lobby_client_packet_handler LobbyServerPacket.hello = sends_to_lobby LobbyClientPacket.battle ∷ []
lobby_client_packet_handler (LobbyServerPacket.battle_server address) =
    leaves_lobby ∷ requests_battle address ∷ []
lobby_client_packet_handler LobbyServerPacket.keep_alive = []

-- `battle_client_packet_handler`, with `BattleResultReceived`.
unfoldable pub battle_client_packet_handler : BattleServerPacket → Bool → List ClientAction × Bool
battle_client_packet_handler BattleServerPacket.broadcast_player_join received = ([], received)
battle_client_packet_handler BattleServerPacket.battle_start received =
    (sends_to_battle BattleClientPacket.play ∷ [], received)
battle_client_packet_handler BattleServerPacket.you_won received =
    (sends_to_battle BattleClientPacket.result_received ∷ [], true)
battle_client_packet_handler BattleServerPacket.result_confirmed received =
    (leaves_battle ∷ requests_lobby lobby_address ∷ [], received)
battle_client_packet_handler BattleServerPacket.keep_alive received = ([], received)

-- `ActiveServers`, with the addresses of the peers of the connections that there are.
pub record ActiveServers : Type 0 where
  pub lobby : Option ℕ
  pub battle : Option ℕ
  pub result_received : Bool

unfoldable pub keepalive_to : Option ℕ → Option ℕ → Bool → List ClientAction
keepalive_to (some address) none received = sends_to_lobby LobbyClientPacket.keep_alive ∷ []
keepalive_to none (some address) received =
    sends_to_battle
      (if received then BattleClientPacket.result_received else BattleClientPacket.play)
    ∷ []
keepalive_to none none received = []
keepalive_to (some address) (some other) received = []

-- `ActiveServers::send_keepalive`.
unfoldable pub send_keepalive : ActiveServers → List ClientAction
unfolding keepalive_to
send_keepalive servers = keepalive_to servers.lobby servers.battle servers.result_received

unfoldable pub reconnect_lobby : Option ℕ → List ClientAction
reconnect_lobby none = []
reconnect_lobby (some address) = leaves_lobby ∷ requests_lobby address ∷ []

unfoldable pub reconnect_battle : Option ℕ → List ClientAction
reconnect_battle none = []
reconnect_battle (some address) = leaves_battle ∷ requests_battle address ∷ []

-- `ActiveServers::reconnect`.
unfoldable pub reconnect : ActiveServers → List ClientAction
unfolding reconnect_lobby reconnect_battle
reconnect servers = reconnect_lobby servers.lobby ++ reconnect_battle servers.battle

-- The observers of disconnections, by whether the error is `IntentionalDisconnection`.
unfoldable pub lobby_client_reconnect_if_error : Bool → ℕ → List ClientAction
lobby_client_reconnect_if_error is_intentional address =
    if is_intentional then [] else requests_lobby address ∷ []

unfoldable pub battle_client_reconnect_if_error : Bool → ℕ → List ClientAction
battle_client_reconnect_if_error is_intentional address =
    if is_intentional then [] else requests_battle address ∷ []
