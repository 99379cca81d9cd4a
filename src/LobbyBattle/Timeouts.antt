-- ===== src/LobbyBattle/Timeouts.antt =====
-- The keepalive timers of examples/lobby_and_battle_servers.rs, of the servers' connections and of the
-- client. Bevy's `Timer` is a parameter, with what it documents as laws; times are milliseconds.
use bevy_slinet.Common.{
  ℕ, ◌+◌, ◌-◌, ◌≤◌, ◌<◌, ◌≡◌, refl, ap, ◌∙◌, Bool, true, false, List, [], ◌∷◌, ◌++◌, ◌==◌, if_false,
  if_true, if◌then◌else◌, leb, arith,
}
use bevy_slinet.LobbyBattle.{
  LobbyClientPacket, LobbyServerPacket, BattleClientPacket, BattleServerPacket, ClientAction,
  sends_to_lobby, sends_to_battle, ActiveServers, reconnect,
}

module _ {T : Type 0} (new_timer : ℕ → T) (reset : T → T) (tick : ℕ → T → Bool × T) where
  -- `timers.insert`.
  unfoldable pub insert_timer : ℕ → T → List (ℕ × T) → List (ℕ × T)
  insert_timer c t [] = (c, t) ∷ []
  insert_timer c t ((d, u) ∷ rest) =
      let later = insert_timer c t rest in if c == d then (c, t) ∷ rest else (d, u) ∷ later

  -- `ServerKeepAliveTimers::track`.
  unfoldable pub track : ℕ → List (ℕ × T) → List (ℕ × T)
  unfolding insert_timer
  track c timers = insert_timer c (new_timer 1000) timers

  -- `ServerKeepAliveTimers::refresh`.
  unfoldable pub refresh_timer : ℕ → List (ℕ × T) → List (ℕ × T)
  refresh_timer c [] = []
  refresh_timer c ((d, u) ∷ rest) =
      let later = refresh_timer c rest in if c == d then (d, reset u) ∷ rest else (d, u) ∷ later

  -- `ServerKeepAliveTimers::just_expired`.
  unfoldable pub just_expired : ℕ → ℕ → List (ℕ × T) → Bool × List (ℕ × T)
  just_expired c elapsed [] = (false, [])
  just_expired c elapsed ((d, u) ∷ rest) =
      let later = just_expired c elapsed rest in
      let ticked = tick elapsed u in
      if c == d then (ticked.0, (d, ticked.1) ∷ rest) else (later.0, (d, u) ∷ later.1)

  -- `ServerLiveness::check_timeouts`, with the connections that it disconnects.
  unfoldable pub check_timeouts : List ℕ → ℕ → List (ℕ × T) → List ℕ × List (ℕ × T)
  unfolding just_expired
  check_timeouts [] elapsed timers = ([], timers)
  check_timeouts (c ∷ rest) elapsed timers =
      let checked = just_expired c elapsed timers in
      let later = check_timeouts rest elapsed checked.1 in
      ((if checked.0 then c ∷ later.0 else later.0), later.1)

  -- The observers of the servers' packets.
  unfoldable pub lobby_server_keepalive_handler :
      LobbyClientPacket → ℕ → List (ℕ × T) → List (ℕ × T)
  unfolding refresh_timer
  lobby_server_keepalive_handler LobbyClientPacket.hello c timers = timers
  lobby_server_keepalive_handler LobbyClientPacket.battle c timers = timers
  lobby_server_keepalive_handler LobbyClientPacket.keep_alive c timers = refresh_timer c timers

  unfoldable pub battle_server_keepalive_handler :
      BattleClientPacket → ℕ → List (ℕ × T) → List (ℕ × T)
  unfolding refresh_timer
  battle_server_keepalive_handler packet c timers = refresh_timer c timers

  -- The client's handlers, with `ClientKeepAliveTimeout`.
  unfoldable pub lobby_client_connect_handler : T → List ClientAction × T
  lobby_client_connect_handler timeout =
      (sends_to_lobby LobbyClientPacket.hello ∷ [], reset timeout)

  unfoldable pub battle_client_connect_handler :
      ActiveServers → T → List ClientAction × ActiveServers × T
  battle_client_connect_handler servers timeout = (
    sends_to_battle BattleClientPacket.keep_alive ∷ [],
    record servers { result_received = false },
    reset timeout,
  )

  unfoldable pub lobby_client_keepalive_handler : LobbyServerPacket → T → T
  lobby_client_keepalive_handler LobbyServerPacket.hello timeout = timeout
  lobby_client_keepalive_handler (LobbyServerPacket.battle_server address) timeout = timeout
  lobby_client_keepalive_handler LobbyServerPacket.keep_alive timeout = reset timeout

  unfoldable pub battle_client_keepalive_handler : BattleServerPacket → T → T
  battle_client_keepalive_handler BattleServerPacket.broadcast_player_join timeout = timeout
  battle_client_keepalive_handler BattleServerPacket.battle_start timeout = timeout
  battle_client_keepalive_handler BattleServerPacket.you_won timeout = timeout
  battle_client_keepalive_handler BattleServerPacket.result_confirmed timeout = timeout
  battle_client_keepalive_handler BattleServerPacket.keep_alive timeout = reset timeout

  -- `client_check_timeout`.
  unfoldable pub client_check_timeout : ℕ → ActiveServers → T → List ClientAction × T
  unfolding reconnect
  client_check_timeout elapsed servers timeout =
      let ticked = tick elapsed timeout in ((if ticked.0 then reconnect servers else []), ticked.1)

  -- The time that is left, which a timer that runs once stops at 0 and tells once.
  record IsTimer (left duration : T → ℕ) : Type 0 where
    new_left : (d : ℕ) → left (new_timer d) ≡ d
    new_duration : (d : ℕ) → duration (new_timer d) ≡ d
    reset_left : (t : T) → left (reset t) ≡ duration t
    tick_left : (e : ℕ) (t : T) → left (tick e t).1 ≡ left t - e
    tick_finished : (e : ℕ) (t : T) → 0 < left t → (tick e t).0 ≡ leb (left t) e

  -- The client's frames while no keepalive comes, with what it does in them.
  check_frames : List ℕ → ActiveServers → T → List ClientAction × T
  unfolding client_check_timeout
  check_frames [] servers timeout = ([], timeout)
  check_frames (e ∷ rest) servers timeout =
      let checked = client_check_timeout e servers timeout in
      let later = check_frames rest servers checked.1 in (checked.0 ++ later.0, later.1)

  abbrev total : List ℕ → ℕ
  total [] = 0
  total (e ∷ rest) = e + total rest

  -- The client stays where it is while the frames since the last keepalive are shorter than its timer.
  check_frames_quiet :
      {left duration : T → ℕ}
      → IsTimer left duration
      → (frames : List ℕ) (servers : ActiveServers) (t : T) → total frames < left t
      → (check_frames frames servers t).0 ≡ []
  unfolding check_frames
  check_frames_quiet laws [] servers t short = refl
  check_frames_quiet {left} laws (e ∷ rest) servers t short =
      let step = laws.tick_left e t in
      let running : (tick e t).0 ≡ false =
        laws.tick_finished e t (omega (arith, short)) ∙ grind (arith, short) in
      ap (λ a. a ++ (check_frames rest servers (tick e t).1).0)
        (if_false (tick e t).0 (reconnect servers) [] running)
      ∙ check_frames_quiet laws rest servers (tick e t).1 (omega (arith, step, short))

  -- The frame with which the time since the last keepalive reaches the timer's has the client reconnect
  -- to the servers it is connected to, and no frame before it does.
  check_frames_expired :
      {left duration : T → ℕ}
      → IsTimer left duration
      → (frames : List ℕ) (e : ℕ) (servers : ActiveServers) (t : T) → total frames < left t
      → left t ≤ total frames + e
      → (check_frames (frames ++ (e ∷ [])) servers t).0 ≡ reconnect servers ++ []
  unfolding check_frames
  check_frames_expired laws [] e servers t short long =
      let finished : (tick e t).0 ≡ true =
        laws.tick_finished e t (omega (arith, short)) ∙ grind (arith, long) in
      ap (λ a. a ++ []) (if_true (tick e t).0 (reconnect servers) [] finished)
  check_frames_expired {left} laws (f ∷ rest) e servers t short long =
      let step = laws.tick_left f t in
      let running : (tick f t).0 ≡ false =
        laws.tick_finished f t (omega (arith, short)) ∙ grind (arith, short) in
      ap (λ a. a ++ (check_frames (rest ++ (e ∷ [])) servers (tick f t).1).0)
        (if_false (tick f t).0 (reconnect servers) [] running)
      ∙ check_frames_expired laws rest e servers (tick f t).1 (omega (arith, step, short))
          (omega (arith, step, short, long))
