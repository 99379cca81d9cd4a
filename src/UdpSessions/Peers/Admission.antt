-- ===== src/UdpSessions/Peers/Admission.antt =====
-- The server's peers of examples/udp_application_sessions.rs: a bounded number, each with sound
-- sessions.
use bevy_slinet.Common.{
  ℕ, ◌+◌, ◌≤◌, ◌≡◌, refl, ap, Bool, true, false, Option, none, some, List, [], ◌∷◌, ◌==◌, ltb,
  ltb→lt, if◌then◌else◌, if_elim, length, arith, All, ==_iff, if_true, if_false,
}
use bevy_slinet.UdpSessions.Session.{Packet, Sessions, no_sessions, handle}
use bevy_slinet.UdpSessions.Session.Capacity.{IsBounded, handle-IsBounded, expire-IsBounded}
use bevy_slinet.UdpSessions.Peers.{
  SessionPeer, ServerSessions, max_session_peers, idle_timeout, find_peer, set_peer,
  admit_session_peer, new_session_peer, reply_with, receive_for, server_packet, expire_peer,
  is_retained, retain_peers, expire_peers, ServerEvent, connects, sends, updates, server_step,
  run_server,
}

abbrev pub IsSoundPeer : ℕ × SessionPeer → Type 0
IsSoundPeer peer = IsBounded peer.1.sessions.entries

abbrev pub at_address : ℕ → List (ℕ × SessionPeer) → ℕ
at_address a [] = 0
at_address a ((k, p) ∷ rest) = (if k == a then 1 else 0) + at_address a rest

pub record IsAdmitted (peers : List (ℕ × SessionPeer)) : Type 0 where
  pub few : length peers ≤ max_session_peers
  pub single : (a : ℕ) → at_address a peers ≤ 1
  pub sound : All IsSoundPeer peers

set_peer-length :
    (a : ℕ) (p : SessionPeer) (peers : List (ℕ × SessionPeer))
    → length (set_peer a p peers) ≡ length peers
unfolding set_peer
set_peer-length a p [] = refl
set_peer-length a p ((k, q) ∷ rest) = ground (arith, set_peer-length a p rest)

set_peer-at_address :
    (a b : ℕ) (p : SessionPeer) (peers : List (ℕ × SessionPeer))
    → at_address b (set_peer a p peers) ≡ at_address b peers
unfolding set_peer
set_peer-at_address a b p [] = refl
set_peer-at_address a b p ((k, q) ∷ rest) = ground (arith, set_peer-at_address a b p rest)

set_peer_sound :
    (a : ℕ) (p : SessionPeer) (peers : List (ℕ × SessionPeer))
    → IsBounded p.sessions.entries
    → All IsSoundPeer peers
    → All IsSoundPeer (set_peer a p peers)
unfolding set_peer
set_peer_sound a p [] h all = tt
set_peer_sound a p ((k, q) ∷ rest) h all =
    if_elim (λ l. All IsSoundPeer l) (k == a) ((k, p) ∷ rest) ((k, q) ∷ set_peer a p rest)
      (λ _. (h, all.1)) (λ _. (all.0, set_peer_sound a p rest h all.1))

set_peer-IsAdmitted :
    (a : ℕ) (p : SessionPeer) (peers : List (ℕ × SessionPeer))
    → IsBounded p.sessions.entries
    → IsAdmitted peers
    → IsAdmitted (set_peer a p peers)
set_peer-IsAdmitted a p peers h i = record {
  few = omega (arith, set_peer-length a p peers, i.few);
  single = λ b. omega (arith, set_peer-at_address a b p peers, i.single b);
  sound = set_peer_sound a p peers h i.sound;
}

-- The peer that is found is sound, and one that is not found is not there.
abbrev Found : ℕ → Option SessionPeer → Type 0
Found n none = n ≡ 0
Found n (some p) = IsBounded p.sessions.entries

first_or_later :
    (b : Bool) (n : ℕ) (p : SessionPeer) (o : Option SessionPeer)
    → IsBounded p.sessions.entries
    → Found n o
    → Found ((if b then 1 else 0) + n) (if b then some p else o)
first_or_later true n p o h k = h
first_or_later false n p none h k = omega (arith, k)
first_or_later false n p (some q) h k = k

find_peer-Found :
    (a : ℕ) (peers : List (ℕ × SessionPeer))
    → All IsSoundPeer peers
    → Found (at_address a peers) (find_peer a peers)
unfolding find_peer
find_peer-Found a [] all = refl
find_peer-Found a ((k, p) ∷ rest) all =
    first_or_later (k == a) (at_address a rest) p (find_peer a rest) all.0
      (find_peer-Found a rest all.1)

new_IsBounded : IsBounded no_sessions.entries
new_IsBounded = record { unique = λ c. omega arith; few = omega arith }

admit_session_peer-IsAdmitted :
    (o : Option SessionPeer) (address connection now : ℕ) (s : ServerSessions)
    → Found (at_address address s.peers) o
    → IsAdmitted s.peers
    → IsAdmitted (admit_session_peer o address connection now s).peers
unfolding admit_session_peer
admit_session_peer-IsAdmitted (some p) address connection now s f i =
    set_peer-IsAdmitted address (record p { connection = connection; created = now }) s.peers f i
admit_session_peer-IsAdmitted none address connection now s f i =
    if_elim (λ t. IsAdmitted t.peers) (ltb (length s.peers) max_session_peers) _
      (record s { disconnects = connection ∷ s.disconnects })
      (λ room. record {
        few = ground (arith, ltb→lt (length s.peers) max_session_peers room);
        single = λ b. alone (address == b) b refl;
        sound = (new_IsBounded, i.sound);
      })
      (λ _. i)
  where
    alone :
        (c : Bool) (b : ℕ)
        → (address == b) ≡ c
        → (if address == b then 1 else 0) + at_address b s.peers ≤ 1
    alone true b e =
        let same : address ≡ b = (==_iff address b).0 e in
        omega (arith, if_true {A = ℕ} (address == b) 1 0 e, ap (λ x. at_address x s.peers) same, f)
    alone false b e = omega (arith, if_false {A = ℕ} (address == b) 1 0 e, i.single b)

reply_with-IsAdmitted :
    (address connection : ℕ) (p : SessionPeer) (r : Option Packet × Sessions) (s : ServerSessions)
    → IsBounded r.1.entries
    → IsAdmitted s.peers
    → IsAdmitted (reply_with address connection p r s).peers
unfolding reply_with
reply_with-IsAdmitted address connection p (none, sessions) s h i =
    set_peer-IsAdmitted address (record p { sessions = sessions }) s.peers h i
reply_with-IsAdmitted address connection p (some reply, sessions) s h i =
    set_peer-IsAdmitted address (record p { sessions = sessions }) s.peers h i

receive_for-IsAdmitted :
    (o : Option SessionPeer) (address connection : ℕ) (packet : Packet) (at : ℕ)
    (s : ServerSessions)
    → Found (at_address address s.peers) o
    → IsAdmitted s.peers
    → IsAdmitted (receive_for o address connection packet at s).peers
unfolding receive_for
receive_for-IsAdmitted none address connection packet at s f i = i
receive_for-IsAdmitted (some p) address connection packet at s f i =
    reply_with-IsAdmitted address connection p (handle packet at p.sessions) s
      (handle-IsBounded packet at p.sessions f) i

-- Retaining keeps some of the peers, with their sessions expired.
record Retained (now : ℕ) (peers : List (ℕ × SessionPeer)) : Type 0 where
  fewer : length (retain_peers now peers) ≤ length peers
  not_more : (a : ℕ) → at_address a (retain_peers now peers) ≤ at_address a peers
  still_sound : All IsSoundPeer (retain_peers now peers)

retain_peers-Retained :
    (now : ℕ) (peers : List (ℕ × SessionPeer)) → All IsSoundPeer peers → Retained now peers
unfolding retain_peers expire_peer
retain_peers-Retained now [] all = record {
  fewer = omega arith;
  not_more = λ a. omega arith;
  still_sound = tt;
}
retain_peers-Retained now ((k, p) ∷ rest) all =
    let r = retain_peers-Retained now rest all.1 in
    record {
      fewer = ground (arith, r.fewer);
      not_more = λ a. ground (arith, r.not_more a);
      still_sound =
          if_elim (λ l. All IsSoundPeer l) (is_retained now (expire_peer now p))
            ((k, expire_peer now p) ∷ retain_peers now rest) (retain_peers now rest)
            (λ _. (expire-IsBounded now idle_timeout p.sessions all.0, r.still_sound))
            (λ _. r.still_sound);
    }

server_step-IsAdmitted :
    (event : ServerEvent) (s : ServerSessions)
    → IsAdmitted s.peers
    → IsAdmitted (server_step event s).peers
unfolding server_step new_session_peer server_packet expire_peers
server_step-IsAdmitted (connects address connection now) s i =
    admit_session_peer-IsAdmitted (find_peer address s.peers) address connection now s
      (find_peer-Found address s.peers i.sound) i
server_step-IsAdmitted (sends address connection packet at) s i =
    receive_for-IsAdmitted (find_peer address s.peers) address connection packet at s
      (find_peer-Found address s.peers i.sound) i
server_step-IsAdmitted (updates now) s i =
    let r = retain_peers-Retained now s.peers i.sound in
    record {
      few = omega (arith, r.fewer, i.few);
      single = λ a. omega (arith, r.not_more a, i.single a);
      sound = r.still_sound;
    }

-- Whatever peers connect and send, the server keeps at most 64 of them, one for an address, and the
-- sessions of each stay within their bounds; updates only remove peers.
pub run_server-IsAdmitted :
    (events : List ServerEvent) (s : ServerSessions)
    → IsAdmitted s.peers
    → IsAdmitted (run_server events s).peers
unfolding run_server
run_server-IsAdmitted [] s i = i
run_server-IsAdmitted (event ∷ rest) s i =
    run_server-IsAdmitted rest (server_step event s) (server_step-IsAdmitted event s i)
