-- ===== src/UdpSessions/Requests.antt =====
-- examples/udp_application_sessions.rs: the client's requests, each of which goes through its phases.
-- Sending on the connection is a parameter, by its state; the clock's reading is an argument.
pub mod Answers
pub mod Progress
use bevy_slinet.Common.{
  ℕ, zero, suc, ◌+◌, ◌-◌, Bool, true, false, ◌&&◌, Option, none, some, List, [], ◌∷◌, ◌++◌, ◌==◌,
  ltb, leb, if◌then◌else◌, Result, ok, err,
}
use bevy_slinet.UdpSessions.Session.{
  Body, hello, welcome, ping, close, data_bytes, Packet, same_bytes, Sessions, handle,
}

pub data Phase : Type 0 where
  initial replacement echo closing done : Phase

pub record Request : Type 0 where
  pub old : Packet
  pub current : Packet
  pub phase : Phase
  pub last_sent : Option ℕ

-- `b"application data"`.
abbrev pub application_data : List ℕ
application_data =
    97 ∷ 112 ∷ 112 ∷ 108 ∷ 105 ∷ 99 ∷ 97 ∷ 116 ∷ 105 ∷ 111 ∷ 110 ∷ 32 ∷ 100 ∷ 97 ∷ 116 ∷ 97 ∷ []

abbrev pub expected : Phase → Request → Packet
expected initial r = r.old
expected replacement r = r.current
expected echo r = r.current
expected closing r = r.current
expected done r = r.current

unfoldable pub matches : Request → Packet → Bool
unfolding same_bytes
matches r packet =
    let e = expected r.phase r in
    (packet.channel == e.channel)
    && ((packet.generation == e.generation) && same_bytes packet.id e.id)

unfoldable pub outgoing_in : Phase → Request → Option Packet
outgoing_in initial r = some r.old
outgoing_in replacement r = some (record (r.current) { body = hello })
outgoing_in echo r = some (record (r.current) { body = data_bytes application_data })
outgoing_in closing r = some (record (r.current) { body = close })
outgoing_in done r = none

-- `Request::outgoing`.
unfoldable pub outgoing : Request → Option Packet
unfolding outgoing_in
outgoing r = outgoing_in r.phase r

-- The `match` of `client_packet` on the body and the phase.
unfoldable pub next_phase : Body → Phase → Option Phase
unfolding same_bytes
next_phase welcome initial = some replacement
next_phase welcome replacement = some echo
next_phase (data_bytes bytes) echo =
    if same_bytes bytes application_data then some closing else none
next_phase close closing = some done
next_phase _ _ = none

unfoldable pub after_phase : Option Phase → Request → Request
after_phase none r = r
after_phase (some phase) r = record r { phase = phase; last_sent = none }

unfoldable pub respond : Packet → Request → Request
unfolding matches next_phase after_phase
respond packet r = if matches r packet then after_phase (next_phase packet.body r.phase) r else r

-- `client_packet`: the first request that matches.
unfoldable pub client_packet : Packet → List Request → List Request
unfolding matches next_phase after_phase
client_packet packet [] = []
client_packet packet (r ∷ rest) =
    if matches r packet
    then after_phase (next_phase packet.body r.phase) r ∷ rest
    else r ∷ client_packet packet rest

abbrev pub retry : ℕ
retry = 50

unfoldable pub is_recent : ℕ → Option ℕ → Bool
is_recent now none = false
is_recent now (some last) = ltb (now - last) retry

module _ {W : Type 0} (send : Packet → W → Bool × W) where
  -- `drive_client`: whether it reached the end, the requests, the packets sent, and the connection.
  abbrev pub Driven : Type 0
  Driven = Bool × List Request × ℕ × W

  unfoldable pub after_send : ℕ → Request → List Request → (W → Driven) → Bool × W → Driven
  after_send now r rest later (true, w) =
      let (ended, requests, attempts, w') = later w in
      (ended, record r { last_sent = some now } ∷ requests, suc attempts, w')
  after_send now r rest later (false, w) = (false, r ∷ rest, 0, w)

  abbrev pub skip_request : Request → Driven → Driven
  skip_request r (ended, requests, attempts, w) = (ended, r ∷ requests, attempts, w)

  unfoldable pub send_request :
      ℕ → Request → List Request → (W → Driven) → Option Packet → W → Driven
  unfolding after_send
  send_request now r rest later none w = skip_request r (later w)
  send_request now r rest later (some packet) w = after_send now r rest later (send packet w)

  unfoldable pub drive_requests : ℕ → List Request → W → Driven
  unfolding is_recent send_request outgoing
  drive_requests now [] w = (true, [], 0, w)
  drive_requests now (r ∷ rest) w =
      if is_recent now r.last_sent
      then skip_request r (drive_requests now rest w)
      else send_request now r rest (drive_requests now rest) (outgoing r) w

  -- The attempts count only when every send succeeded.
  unfoldable pub drive_client : Option W → ℕ → List Request → ℕ → Bool × List Request × ℕ × Option W
  unfolding drive_requests
  drive_client none now requests attempts = (true, requests, attempts, none)
  drive_client (some w) now requests attempts =
      let (ended, requests', sent, w') = drive_requests now requests w in
      (ended, requests', if ended then attempts + sent else attempts, some w')

-- A packet of a request on its way to the server's sessions and back; either may be lost.
unfoldable pub answered : Bool → Request → Option Packet × Sessions → Request × Sessions
unfolding respond
answered delivered r (none, s) = (r, s)
answered delivered r (some reply, s) = (if delivered then respond reply r else r, s)

unfoldable pub exchange : Bool → Bool → ℕ → Option Packet → Request → Sessions → Request × Sessions
unfolding answered handle
exchange arrives delivered at none r s = (r, s)
exchange arrives delivered at (some packet) r s =
    if arrives then answered delivered r (handle packet at s) else (r, s)

-- Rounds of such exchanges, by what arrives in each and when.
unfoldable pub exchanges : List (Bool × Bool × ℕ) → Request → Sessions → Request × Sessions
unfolding exchange outgoing
exchanges [] r s = (r, s)
exchanges ((arrives, delivered, at) ∷ rest) r s =
    let (r', s') = exchange arrives delivered at (outgoing r) r s in exchanges rest r' s'
