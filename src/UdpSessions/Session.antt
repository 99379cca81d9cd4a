-- ===== src/UdpSessions/Session.antt =====
-- examples/udp_application_sessions/session.rs. The map of entries is an association list by channel,
-- instants and durations are numbers, and identifiers are lists of bytes.
pub mod Capacity
pub mod Replay
use bevy_slinet.Common.{
  ℕ, zero, suc, ◌+◌, ◌-◌, max, Bool, true, false, ◌&&◌, ◌||◌, not, Option, none, some, List, [],
  ◌∷◌, ◌++◌, ◌==◌, ltb, leb, if◌then◌else◌, length,
}

pub data Body : Type 0 where
  hello welcome ping close : Body
  data_bytes : List ℕ → Body

pub record Packet : Type 0 where
  pub channel : ℕ
  pub generation : ℕ
  pub id : List ℕ
  pub body : Body

pub record Entry : Type 0 where
  pub generation : ℕ
  pub id : List ℕ
  pub last_received : ℕ
  pub active : Bool

pub record Sessions : Type 0 where
  pub entries : List (ℕ × Entry)

-- `Vec<u8>::eq`, and tests of a body.
unfoldable pub same_bytes : List ℕ → List ℕ → Bool
same_bytes [] [] = true
same_bytes [] (b ∷ bs) = false
same_bytes (a ∷ bs) [] = false
same_bytes (a ∷ xs) (b ∷ ys) = (a == b) && same_bytes xs ys

abbrev pub is_hello : Body → Bool
is_hello hello = true
is_hello _ = false

abbrev pub is_close : Body → Bool
is_close close = true
is_close _ = false

-- `HashMap::get_mut` and `insert`.
unfoldable pub find_entry : ℕ → List (ℕ × Entry) → Option Entry
find_entry c [] = none
find_entry c ((k, e) ∷ rest) = if k == c then some e else find_entry c rest

unfoldable pub insert_entry : ℕ → Entry → List (ℕ × Entry) → List (ℕ × Entry)
insert_entry c e [] = (c, e) ∷ []
insert_entry c e ((k, f) ∷ rest) = if k == c then (c, e) ∷ rest else (k, f) ∷ insert_entry c e rest

-- An entry with a later receive time.
abbrev pub touch : ℕ → Entry → Entry
touch at e = record e { last_received = max e.last_received at }

abbrev pub set_entry : ℕ → Entry → Sessions → Sessions
set_entry c e s = record { entries = insert_entry c e s.entries }

abbrev pub welcomed : Packet → Sessions → Option Packet × Sessions
welcomed packet s = (some (record packet { body = welcome }), s)

abbrev pub new_entry : Packet → ℕ → Entry
new_entry packet at = record {
  generation = packet.generation;
  id = packet.id;
  last_received = at;
  active = true;
}

-- `handle`, on a packet that says hello, by the entry of its channel.
unfoldable pub handle_hello : Packet → ℕ → Sessions → Option Entry → Option Packet × Sessions
unfolding same_bytes insert_entry
handle_hello packet at s none =
    if leb 8 (length s.entries)
    then (none, s)
    else welcomed packet (set_entry packet.channel (new_entry packet at) s)
handle_hello packet at s (some e) =
    if ltb packet.generation e.generation
    then (none, s)
    else (if packet.generation == e.generation
        then (if not (same_bytes e.id packet.id) || not e.active
            then (none, s)
            else welcomed packet (set_entry packet.channel (touch at e) s))
        else welcomed packet (set_entry packet.channel (new_entry packet at) s))

-- The `match` on the body for an active entry.
unfoldable pub handle_body : Body → Packet → ℕ → Sessions → Entry → Option Packet × Sessions
unfolding insert_entry
handle_body (data_bytes bytes) packet at s e =
    (some packet, set_entry packet.channel (touch at e) s)
handle_body ping packet at s e = (some packet, set_entry packet.channel (touch at e) s)
handle_body close packet at s e =
    (some packet, set_entry packet.channel (record e { active = false }) s)
handle_body hello packet at s e = (none, s)
handle_body welcome packet at s e = (none, s)

-- `handle`, on any other packet.
unfoldable pub handle_other : Packet → ℕ → Sessions → Option Entry → Option Packet × Sessions
unfolding same_bytes handle_body
handle_other packet at s none = (none, s)
handle_other packet at s (some e) =
    if not (e.generation == packet.generation) || not (same_bytes e.id packet.id)
    then (none, s)
    else (if e.active
        then handle_body packet.body packet at s e
        else (if is_close packet.body then some packet else none, s))

-- `Sessions::handle`.
unfoldable pub handle : Packet → ℕ → Sessions → Option Packet × Sessions
unfolding handle_hello handle_other find_entry
handle packet at s =
    if (length packet.id == 0) || ltb 128 (length packet.id)
    then (none, s)
    else (if is_hello packet.body
        then handle_hello packet at s (find_entry packet.channel s.entries)
        else handle_other packet at s (find_entry packet.channel s.entries))

-- `Sessions::expire`.
unfoldable pub expire_entry : ℕ → ℕ → Entry → Entry
expire_entry now timeout e =
    if leb timeout (now - e.last_received) then record e { active = false } else e

unfoldable pub expire_entries : ℕ → ℕ → List (ℕ × Entry) → List (ℕ × Entry)
unfolding expire_entry
expire_entries now timeout [] = []
expire_entries now timeout ((k, e) ∷ rest) =
    (k, expire_entry now timeout e) ∷ expire_entries now timeout rest

unfoldable pub expire : ℕ → ℕ → Sessions → Sessions
unfolding expire_entries
expire now timeout s = record { entries = expire_entries now timeout s.entries }

unfoldable pub has_history : Sessions → Bool
has_history s = not (length s.entries == 0)

unfoldable pub count_active : List (ℕ × Entry) → ℕ
count_active [] = 0
count_active ((k, e) ∷ rest) = if e.active then suc (count_active rest) else count_active rest

-- `Sessions::active`.
unfoldable pub active_sessions : Sessions → ℕ
unfolding count_active
active_sessions s = count_active s.entries

-- What the application does with its sessions.
pub data SessionEvent : Type 0 where
  receives : Packet → ℕ → SessionEvent
  expires : ℕ → ℕ → SessionEvent

unfoldable pub session_step : SessionEvent → Sessions → Sessions
unfolding handle expire
session_step (receives packet at) s = (handle packet at s).1
session_step (expires now timeout) s = expire now timeout s

unfoldable pub run_sessions : List SessionEvent → Sessions → Sessions
unfolding session_step
run_sessions [] s = s
run_sessions (event ∷ rest) s = run_sessions rest (session_step event s)

abbrev pub no_sessions : Sessions
no_sessions = record { entries = [] }
