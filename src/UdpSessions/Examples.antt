-- ===== src/UdpSessions/Examples.antt =====
-- The application sessions of examples/udp_application_sessions.rs at fixed inputs.
use bevy_slinet.Common.{ℕ, ◌≤◌, ◌≡◌, refl, Bool, true, false, none, some, List, [], ◌∷◌, arith, inl}
use bevy_slinet.UdpSessions.Session.{
  hello, close, ping, Packet, Sessions, no_sessions, find_entry, SessionEvent, receives, expires,
  run_sessions, handle,
}
use bevy_slinet.UdpSessions.Session.Replay.{Follows, run_sessions-AllFollow}
use bevy_slinet.UdpSessions.Requests.{Request, initial, done, exchanges}
use bevy_slinet.UdpSessions.Requests.Progress.{Agrees, left, whole_rounds, exchanges_done}
use bevy_slinet.UdpSessions.Peers.{
  ServerSessions, ServerEvent, connects, sends, updates, run_server,
}

abbrev first : Packet
first = record { channel = 1; generation = 1; id = 7 ∷ 8 ∷ []; body = hello }

abbrev second : Packet
second = record { channel = 1; generation = 2; id = 9 ∷ []; body = hello }

abbrev events : List SessionEvent
events =
    receives second 20
    ∷ receives first 21
    ∷ receives (record second { body = ping }) 22
    ∷ receives (record second { body = close }) 23
    ∷ receives second 24
    ∷ expires 900 500
    ∷ []

abbrev one_session : Sessions
one_session = (handle first 10 no_sessions).1

run_sessions-AllFollow_example :
    Follows
      (find_entry 1 one_session.entries)
      (find_entry 1 (run_sessions events one_session).entries)
run_sessions-AllFollow_example = run_sessions-AllFollow events one_session 1

session_of_run :
    find_entry 1 (run_sessions events one_session).entries
    ≡ some (record { generation = 2; id = 9 ∷ []; last_received = 22; active = false })
unfolding run_sessions handle
session_of_run = refl

abbrev request : Request
request = record { old = first; current = second; phase = initial; last_sent = none }

request-Agrees : Agrees request no_sessions
unfolding find_entry
request-Agrees = record {
  is_request = record {
    one_channel = refl;
    newer = omega arith;
    old_id = refl;
    current_id = refl;
    says_hello = refl;
  };
  in_step = inl (refl, refl);
}

-- Rounds with losses on either way between them.
abbrev rounds : List (Bool × Bool × ℕ)
rounds =
    (false, true, 1)
    ∷ (true, false, 2)
    ∷ (true, true, 3)
    ∷ (true, true, 4)
    ∷ (true, false, 5)
    ∷ (true, true, 6)
    ∷ (true, true, 7)
    ∷ []

four_rounds : left request.phase ≤ whole_rounds rounds
four_rounds = omega arith

exchanges_done_example : (exchanges rounds request no_sessions).0.phase ≡ done
exchanges_done_example = exchanges_done rounds request no_sessions request-Agrees four_rounds

abbrev no_peers : ServerSessions
no_peers = record { peers = []; disconnects = []; replies = [] }

abbrev server_events : List ServerEvent
server_events =
    connects 40 1 0
    ∷ sends 40 1 first 5
    ∷ connects 41 2 6
    ∷ connects 40 3 7
    ∷ sends 42 4 second 8
    ∷ updates 600
    ∷ []

disconnects_of_run : (run_server server_events no_peers).disconnects ≡ 2 ∷ 3 ∷ []
unfolding run_server handle
disconnects_of_run = refl
