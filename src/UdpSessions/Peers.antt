-- ===== src/UdpSessions/Peers.antt =====
-- examples/udp_application_sessions.rs: the server's peers, an association list by address, and the
-- end of the demonstration.
pub mod Admission
use bevy_slinet.Common.{
  ℕ, zero, suc, ◌-◌, Bool, true, false, ◌&&◌, not, Option, none, some, List, [], ◌∷◌, ◌++◌, ◌==◌,
  ltb, leb, if◌then◌else◌, length,
}
use bevy_slinet.UdpSessions.Session.{
  Packet, Sessions, no_sessions, handle, expire, active_sessions, has_history,
}
use bevy_slinet.UdpSessions.Requests.{Phase, done, Request}

-- `Peer`, with the identifier of its connection.
pub record SessionPeer : Type 0 where
  pub connection : ℕ
  pub sessions : Sessions
  pub created : ℕ

-- `ServerSessions`, with the connections that were told to disconnect and the replies that were sent,
-- newest first.
pub record ServerSessions : Type 0 where
  pub peers : List (ℕ × SessionPeer)
  pub disconnects : List ℕ
  pub replies : List (ℕ × Packet)

abbrev pub max_session_peers : ℕ
max_session_peers = 64

abbrev pub idle_timeout : ℕ
idle_timeout = 500

unfoldable pub find_peer : ℕ → List (ℕ × SessionPeer) → Option SessionPeer
find_peer a [] = none
find_peer a ((k, p) ∷ rest) = if k == a then some p else find_peer a rest

-- `get_mut` and an assignment to the peer.
unfoldable pub set_peer : ℕ → SessionPeer → List (ℕ × SessionPeer) → List (ℕ × SessionPeer)
set_peer a p [] = []
set_peer a p ((k, q) ∷ rest) = if k == a then (k, p) ∷ rest else (k, q) ∷ set_peer a p rest

-- `new_peer`, on a connection with this peer address.
unfoldable pub admit_session_peer : Option SessionPeer → ℕ → ℕ → ℕ → ServerSessions → ServerSessions
unfolding set_peer
admit_session_peer (some p) address connection now s = record s {
  peers = set_peer address (record p { connection = connection; created = now }) s.peers;
}
admit_session_peer none address connection now s =
    if ltb (length s.peers) max_session_peers
    then record s {
      peers =
          (address, record { connection = connection; sessions = no_sessions; created = now })
          ∷ s.peers;
    }
    else record s { disconnects = connection ∷ s.disconnects }

unfoldable pub new_session_peer : ℕ → ℕ → ℕ → ServerSessions → ServerSessions
unfolding admit_session_peer find_peer
new_session_peer address connection now s =
    admit_session_peer (find_peer address s.peers) address connection now s

-- `server_packet`, where the reply is sent on the connection of the event.
unfoldable pub reply_with :
    ℕ → ℕ → SessionPeer → Option Packet × Sessions → ServerSessions → ServerSessions
unfolding set_peer
reply_with address connection p (none, sessions) s = record s {
  peers = set_peer address (record p { sessions = sessions }) s.peers;
}
reply_with address connection p (some reply, sessions) s = record s {
  peers = set_peer address (record p { sessions = sessions }) s.peers;
  replies = (connection, reply) ∷ s.replies;
}

unfoldable pub receive_for :
    Option SessionPeer → ℕ → ℕ → Packet → ℕ → ServerSessions → ServerSessions
unfolding reply_with handle
receive_for none address connection packet at s = s
receive_for (some p) address connection packet at s =
    reply_with address connection p (handle packet at p.sessions) s

unfoldable pub server_packet : ℕ → ℕ → Packet → ℕ → ServerSessions → ServerSessions
unfolding receive_for find_peer
server_packet address connection packet at s =
    receive_for (find_peer address s.peers) address connection packet at s

-- `expire_peers`: the peer with its sessions expired, whether it is told to disconnect, and whether it
-- is retained.
unfoldable pub expire_peer : ℕ → SessionPeer → SessionPeer
unfolding expire
expire_peer now p = record p { sessions = expire now idle_timeout p.sessions }

unfoldable pub is_idle : ℕ → SessionPeer → Bool
unfolding active_sessions
is_idle now p = (active_sessions p.sessions == 0) && leb idle_timeout (now - p.created)

unfoldable pub is_retained : ℕ → SessionPeer → Bool
unfolding is_idle has_history
is_retained now p = if is_idle now p then has_history p.sessions else true

unfoldable pub retain_peers : ℕ → List (ℕ × SessionPeer) → List (ℕ × SessionPeer)
unfolding is_retained expire_peer
retain_peers now [] = []
retain_peers now ((k, p) ∷ rest) =
    if is_retained now (expire_peer now p)
    then (k, expire_peer now p) ∷ retain_peers now rest
    else retain_peers now rest

unfoldable pub told_to_disconnect : ℕ → List (ℕ × SessionPeer) → List ℕ
unfolding is_idle expire_peer
told_to_disconnect now [] = []
told_to_disconnect now ((k, p) ∷ rest) =
    if is_idle now (expire_peer now p)
    then p.connection ∷ told_to_disconnect now rest
    else told_to_disconnect now rest

unfoldable pub expire_peers : ℕ → ServerSessions → ServerSessions
unfolding retain_peers told_to_disconnect
expire_peers now s = record s {
  peers = retain_peers now s.peers;
  disconnects = told_to_disconnect now s.peers ++ s.disconnects;
}

pub data ServerEvent : Type 0 where
  connects : ℕ → ℕ → ℕ → ServerEvent
  sends : ℕ → ℕ → Packet → ℕ → ServerEvent
  updates : ℕ → ServerEvent

unfoldable pub server_step : ServerEvent → ServerSessions → ServerSessions
unfolding new_session_peer server_packet expire_peers
server_step (connects address connection now) s = new_session_peer address connection now s
server_step (sends address connection packet at) s = server_packet address connection packet at s
server_step (updates now) s = expire_peers now s

unfoldable pub run_server : List ServerEvent → ServerSessions → ServerSessions
unfolding server_step
run_server [] s = s
run_server (event ∷ rest) s = run_server rest (server_step event s)

-- `finish_demo`.
pub data DemoExit : Type 0 where
  goes_on success failure : DemoExit

abbrev is_done : Phase → Bool
is_done done = true
is_done _ = false

unfoldable pub all_done : List Request → Bool
all_done [] = true
all_done (r ∷ rest) = is_done r.phase && all_done rest

unfoldable pub finish_demo : Bool → List Request → ℕ → DemoExit
unfolding all_done
finish_demo is_connected requests elapsed =
    if is_connected && all_done requests
    then success
    else (if leb 5000 elapsed then failure else goes_on)
