-- ===== src/UdpSessions/Session/Capacity.antt =====
-- The entries of session.rs: one for each channel, and eight at most.
use bevy_slinet.Common.{
  max, ℕ, suc, ◌+◌, ◌≤◌, ◌≡◌, refl, ap, false, ◌||◌, not, Option, none, some, List, [], ◌∷◌, ◌==◌,
  ltb, leb, if◌then◌else◌, if_elim, length, arith,
}
use bevy_slinet.UdpSessions.Session.{
  Body, hello, welcome, ping, close, data_bytes, Packet, Entry, Sessions, find_entry, insert_entry,
  handle_hello, handle_body, handle_other, handle, expire_entries, expire, count_active,
  active_sessions, SessionEvent, receives, expires, session_step, run_sessions, is_hello,
  same_bytes, new_entry, touch,
}

-- How often a channel is a key.
abbrev pub keyed : ℕ → List (ℕ × Entry) → ℕ
keyed c [] = 0
keyed c ((k, e) ∷ rest) = (if k == c then 1 else 0) + keyed c rest

pub record IsBounded (entries : List (ℕ × Entry)) : Type 0 where
  pub unique : (c : ℕ) → keyed c entries ≤ 1
  pub few : length entries ≤ 8

insert_entry-length :
    (c : ℕ) (e : Entry) (entries : List (ℕ × Entry))
    → length (insert_entry c e entries) ≤ suc (length entries)
unfolding insert_entry
insert_entry-length c e [] = omega arith
insert_entry-length c e ((k, f) ∷ rest) = ground (arith, insert_entry-length c e rest)

insert_entry-length_known :
    (c : ℕ) (e f : Entry) (entries : List (ℕ × Entry))
    → find_entry c entries ≡ some f
    → length (insert_entry c e entries) ≡ length entries
unfolding insert_entry find_entry
insert_entry-length_known c e f [] h = absurd (cc h)
insert_entry-length_known c e f ((k, g) ∷ rest) h =
    ground (arith, insert_entry-length_known c e f rest)

insert_entry-keyed :
    (c d : ℕ) (e : Entry) (entries : List (ℕ × Entry))
    → keyed d (insert_entry c e entries) ≤ max (keyed d entries) (if c == d then 1 else 0)
unfolding insert_entry
insert_entry-keyed c d e [] = ground arith
insert_entry-keyed c d e ((k, f) ∷ rest) = ground (arith, insert_entry-keyed c d e rest)

-- A new entry needs room, and one that replaces another does not.
insert_entry-IsBounded :
    (c : ℕ) (e : Entry) (entries : List (ℕ × Entry))
    → length (insert_entry c e entries) ≤ 8
    → IsBounded entries
    → IsBounded (insert_entry c e entries)
insert_entry-IsBounded c e entries room h = record {
  unique = λ d. ground (arith, insert_entry-keyed c d e entries, h.unique d);
  few = room;
}

replace-IsBounded :
    (c : ℕ) (e f : Entry) (entries : List (ℕ × Entry))
    → find_entry c entries ≡ some f
    → IsBounded entries
    → IsBounded (insert_entry c e entries)
replace-IsBounded c e f entries known h =
    insert_entry-IsBounded c e entries
      (omega (arith, insert_entry-length_known c e f entries known, h.few)) h

handle_hello-IsBounded :
    (packet : Packet) (at : ℕ) (s : Sessions) (o : Option Entry)
    → find_entry packet.channel s.entries ≡ o
    → IsBounded s.entries
    → IsBounded (handle_hello packet at s o).1.entries
unfolding handle_hello
handle_hello-IsBounded packet at s none known h =
    if_elim {A = Option Packet × Sessions} (λ r. IsBounded r.1.entries) (leb 8 (length s.entries)) _
      _ (λ _. h)
      (λ room.
        insert_entry-IsBounded packet.channel (new_entry packet at) s.entries
          (ground (arith, insert_entry-length packet.channel (new_entry packet at) s.entries)) h)
handle_hello-IsBounded packet at s (some e) known h =
    if_elim {A = Option Packet × Sessions} (λ r. IsBounded r.1.entries)
      (ltb packet.generation e.generation) _ _ (λ _. h)
      (λ _.
        if_elim {A = Option Packet × Sessions} (λ r. IsBounded r.1.entries)
          (packet.generation == e.generation) _ _
          (λ _.
            if_elim {A = Option Packet × Sessions} (λ r. IsBounded r.1.entries)
              (not (same_bytes e.id packet.id) || not e.active) _ _ (λ _. h)
              (λ _. replace-IsBounded packet.channel (touch at e) e s.entries known h))
          (λ _. replace-IsBounded packet.channel (new_entry packet at) e s.entries known h))

handle_body-IsBounded :
    (body : Body) (packet : Packet) (at : ℕ) (s : Sessions) (e : Entry)
    → find_entry packet.channel s.entries ≡ some e
    → IsBounded s.entries
    → IsBounded (handle_body body packet at s e).1.entries
unfolding handle_body
handle_body-IsBounded hello packet at s e known h = h
handle_body-IsBounded welcome packet at s e known h = h
handle_body-IsBounded ping packet at s e known h =
    replace-IsBounded packet.channel (touch at e) e s.entries known h
handle_body-IsBounded (data_bytes bytes) packet at s e known h =
    replace-IsBounded packet.channel (touch at e) e s.entries known h
handle_body-IsBounded close packet at s e known h =
    replace-IsBounded packet.channel (record e { active = false }) e s.entries known h

handle_other-IsBounded :
    (packet : Packet) (at : ℕ) (s : Sessions) (o : Option Entry)
    → find_entry packet.channel s.entries ≡ o
    → IsBounded s.entries
    → IsBounded (handle_other packet at s o).1.entries
unfolding handle_other
handle_other-IsBounded packet at s none known h = h
handle_other-IsBounded packet at s (some e) known h =
    if_elim {A = Option Packet × Sessions} (λ r. IsBounded r.1.entries)
      (not (e.generation == packet.generation) || not (same_bytes e.id packet.id)) _ _ (λ _. h)
      (λ _.
        if_elim {A = Option Packet × Sessions} (λ r. IsBounded r.1.entries) e.active _ _
          (λ _. handle_body-IsBounded packet.body packet at s e known h) (λ _. h))

pub handle-IsBounded :
    (packet : Packet) (at : ℕ) (s : Sessions)
    → IsBounded s.entries
    → IsBounded (handle packet at s).1.entries
unfolding handle
handle-IsBounded packet at s h =
    if_elim {A = Option Packet × Sessions} (λ r. IsBounded r.1.entries)
      ((length packet.id == 0) || ltb 128 (length packet.id)) _ _ (λ _. h)
      (λ _.
        if_elim {A = Option Packet × Sessions} (λ r. IsBounded r.1.entries) (is_hello packet.body) _
          _ (λ _. handle_hello-IsBounded packet at s (find_entry packet.channel s.entries) refl h)
          (λ _. handle_other-IsBounded packet at s (find_entry packet.channel s.entries) refl h))

expire_entries-length :
    (now timeout : ℕ) (entries : List (ℕ × Entry))
    → length (expire_entries now timeout entries) ≡ length entries
unfolding expire_entries
expire_entries-length now timeout [] = refl
expire_entries-length now timeout ((k, e) ∷ rest) = ap suc (expire_entries-length now timeout rest)

expire_entries-keyed :
    (now timeout c : ℕ) (entries : List (ℕ × Entry))
    → keyed c (expire_entries now timeout entries) ≡ keyed c entries
unfolding expire_entries
expire_entries-keyed now timeout c [] = refl
expire_entries-keyed now timeout c ((k, e) ∷ rest) =
    ap (λ n. (if k == c then 1 else 0) + n) (expire_entries-keyed now timeout c rest)

pub expire-IsBounded :
    (now timeout : ℕ) (s : Sessions)
    → IsBounded s.entries
    → IsBounded (expire now timeout s).entries
unfolding expire
expire-IsBounded now timeout s h = record {
  unique = λ c. omega (arith, expire_entries-keyed now timeout c s.entries, h.unique c);
  few = omega (arith, expire_entries-length now timeout s.entries, h.few);
}

session_step-IsBounded :
    (event : SessionEvent) (s : Sessions)
    → IsBounded s.entries
    → IsBounded (session_step event s).entries
unfolding session_step
session_step-IsBounded (receives packet at) s h = handle-IsBounded packet at s h
session_step-IsBounded (expires now timeout) s h = expire-IsBounded now timeout s h

count_active_le : (entries : List (ℕ × Entry)) → count_active entries ≤ length entries
unfolding count_active
count_active_le [] = omega arith
count_active_le ((k, e) ∷ rest) = ground (arith, count_active_le rest)

-- The bounds of a peer's sessions.
pub record Holds (s : Sessions) : Type 0 where
  pub bounded : IsBounded s.entries
  pub active_few : active_sessions s ≤ 8

-- Whatever packets a peer sends and whenever its sessions expire, there is one entry for a channel at
-- most, there are eight entries at most, and no more active sessions than that.
pub run_sessions-Holds :
    (events : List SessionEvent) (s : Sessions)
    → IsBounded s.entries
    → Holds (run_sessions events s)
unfolding run_sessions active_sessions
run_sessions-Holds [] s h = record {
  bounded = h;
  active_few = omega (arith, count_active_le s.entries, h.few);
}
run_sessions-Holds (event ∷ rest) s h =
    run_sessions-Holds rest (session_step event s) (session_step-IsBounded event s h)
