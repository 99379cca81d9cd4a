-- ===== src/UdpSessions/Session/Replay.antt =====
-- Old packets and the entries of session.rs: generations only grow, and a closed session stays so.
use bevy_slinet.Common.{
  ℕ, ◌-◌, ◌≤◌, ◌<◌, ◌≡◌, ◌⊎◌, inl, inr, refl, sym, ◌∙◌, Bool, true, false, ◌||◌, not, Option, none,
  some, List, [], ◌∷◌, ◌==◌, ltb, leb, if◌then◌else◌, if_elim, length, arith, subst, ==_iff,
}
use bevy_slinet.UdpSessions.Session.{
  Body, hello, welcome, ping, close, data_bytes, Packet, Entry, Sessions, find_entry, insert_entry,
  handle_hello, handle_body, handle_other, handle, expire_entry, expire_entries, expire,
  SessionEvent, receives, expires, session_step, run_sessions, set_entry, is_hello, same_bytes,
  new_entry, touch,
}

-- An entry goes on as another: of a later generation, or the same session, which is not active again
-- once it is not, and whose receive time does not go back.
pub record SameSession (e f : Entry) : Type 0 where
  pub same_generation : f.generation ≡ e.generation
  pub same_id : f.id ≡ e.id
  pub not_revived : (not e.active || not f.active) ≡ (not f.active)
  pub later : e.last_received ≤ f.last_received

abbrev pub GoesOn : Entry → Entry → Type 0
GoesOn e f = (e.generation < f.generation) ⊎ SameSession e f

-- What a channel has before and after.
abbrev pub Follows : Option Entry → Option Entry → Type 0
Follows none o = Unit
Follows (some e) none = ⊥
Follows (some e) (some f) = GoesOn e f

same-GoesOn : (e : Entry) → GoesOn e e
same-GoesOn e = inr (record {
  same_generation = refl;
  same_id = refl;
  not_revived = ground arith;
  later = omega arith;
})

same-Follows : (o : Option Entry) → Follows o o
same-Follows none = tt
same-Follows (some e) = same-GoesOn e

GoesOn-trans : (e f g : Entry) → GoesOn e f → GoesOn f g → GoesOn e g
GoesOn-trans e f g (inl a) (inl b) = inl (omega arith)
GoesOn-trans e f g (inl a) (inr b) = inl (omega (arith, b.same_generation))
GoesOn-trans e f g (inr a) (inl b) = inl (omega (arith, a.same_generation))
GoesOn-trans e f g (inr a) (inr b) = inr (record {
  same_generation = b.same_generation ∙ a.same_generation;
  same_id = b.same_id ∙ a.same_id;
  not_revived = ground (arith, a.not_revived, b.not_revived);
  later = omega (arith, a.later, b.later);
})

Follows-trans : (a b c : Option Entry) → Follows a b → Follows b c → Follows a c
Follows-trans none b c h k = tt
Follows-trans (some e) none c h k = absurd h
Follows-trans (some e) (some f) none h k = absurd k
Follows-trans (some e) (some f) (some g) h k = GoesOn-trans e f g h k

pub find_entry-insert_entry :
    (c d : ℕ) (e : Entry) (entries : List (ℕ × Entry))
    → find_entry d (insert_entry c e entries) ≡ (if c == d then some e else find_entry d entries)
unfolding find_entry insert_entry
find_entry-insert_entry c d e [] = refl
find_entry-insert_entry c d e ((k, f) ∷ rest) = ground (arith, find_entry-insert_entry c d e rest)

insert_entry-Follows :
    (c d : ℕ) (e : Entry) (entries : List (ℕ × Entry))
    → Follows (find_entry c entries) (some e)
    → Follows (find_entry d entries) (find_entry d (insert_entry c e entries))
insert_entry-Follows c d e entries h =
    subst (Follows (find_entry d entries)) (sym (find_entry-insert_entry c d e entries)) (
      if_elim (Follows (find_entry d entries)) (c == d) _ _
        (λ k. subst (λ x. Follows (find_entry x entries) (some e)) ((==_iff c d).0 k) h)
        (λ _. same-Follows (find_entry d entries)))

-- Every channel of some sessions goes on in others.
abbrev pub AllFollow : Sessions → Sessions → Type 0
AllFollow s t = (c : ℕ) → Follows (find_entry c s.entries) (find_entry c t.entries)

keeps_all : (s : Sessions) → AllFollow s s
keeps_all s c = same-Follows (find_entry c s.entries)

sets_entry :
    (packet : Packet) (s : Sessions) (e f : Entry)
    → find_entry packet.channel s.entries ≡ some e
    → GoesOn e f
    → AllFollow s (set_entry packet.channel f s)
sets_entry packet s e f known h c = insert_entry-Follows packet.channel c f s.entries (rw known h)

touch-GoesOn : (at : ℕ) (e : Entry) → GoesOn e (touch at e)
touch-GoesOn at e = inr (record {
  same_generation = refl;
  same_id = refl;
  not_revived = ground arith;
  later = omega arith;
})

newer-GoesOn :
    (packet : Packet) (at : ℕ) (e : Entry)
    → ltb packet.generation e.generation ≡ false
    → (packet.generation == e.generation) ≡ false
    → GoesOn e (new_entry packet at)
newer-GoesOn packet at e not_older not_equal = inl (ground arith)

abbrev Handled : Sessions → Option Packet × Sessions → Type 0
Handled s r = AllFollow s r.1

handle_hello-Handled :
    (packet : Packet) (at : ℕ) (s : Sessions) (o : Option Entry)
    → find_entry packet.channel s.entries ≡ o
    → Handled s (handle_hello packet at s o)
unfolding handle_hello
handle_hello-Handled packet at s none known =
    if_elim {A = Option Packet × Sessions} (Handled s) (leb 8 (length s.entries)) _ _
      (λ _. keeps_all s)
      (λ _ c. insert_entry-Follows packet.channel c (new_entry packet at) s.entries (rw known tt))
handle_hello-Handled packet at s (some e) known =
    if_elim {A = Option Packet × Sessions} (Handled s) (ltb packet.generation e.generation) _ _
      (λ _. keeps_all s)
      (λ not_older.
        if_elim {A = Option Packet × Sessions} (Handled s) (packet.generation == e.generation) _ _
          (λ _.
            if_elim {A = Option Packet × Sessions} (Handled s)
              (not (same_bytes e.id packet.id) || not e.active) _ _ (λ _. keeps_all s)
              (λ _. sets_entry packet s e (touch at e) known (touch-GoesOn at e)))
          (λ not_equal.
            sets_entry packet s e (new_entry packet at) known
              (newer-GoesOn packet at e not_older not_equal)))

closed-GoesOn : (e : Entry) → GoesOn e (record e { active = false })
closed-GoesOn e = inr (record {
  same_generation = refl;
  same_id = refl;
  not_revived = ground arith;
  later = omega arith;
})

handle_body-Handled :
    (body : Body) (packet : Packet) (at : ℕ) (s : Sessions) (e : Entry)
    → find_entry packet.channel s.entries ≡ some e
    → Handled s (handle_body body packet at s e)
unfolding handle_body
handle_body-Handled hello packet at s e known = keeps_all s
handle_body-Handled welcome packet at s e known = keeps_all s
handle_body-Handled ping packet at s e known =
    sets_entry packet s e (touch at e) known (touch-GoesOn at e)
handle_body-Handled (data_bytes bytes) packet at s e known =
    sets_entry packet s e (touch at e) known (touch-GoesOn at e)
handle_body-Handled close packet at s e known =
    sets_entry packet s e (record e { active = false }) known (closed-GoesOn e)

handle_other-Handled :
    (packet : Packet) (at : ℕ) (s : Sessions) (o : Option Entry)
    → find_entry packet.channel s.entries ≡ o
    → Handled s (handle_other packet at s o)
unfolding handle_other
handle_other-Handled packet at s none known = keeps_all s
handle_other-Handled packet at s (some e) known =
    if_elim {A = Option Packet × Sessions} (Handled s)
      (not (e.generation == packet.generation) || not (same_bytes e.id packet.id)) _ _
      (λ _. keeps_all s)
      (λ _.
        if_elim {A = Option Packet × Sessions} (Handled s) e.active _ _
          (λ _. handle_body-Handled packet.body packet at s e known) (λ _. keeps_all s))

handle-Handled : (packet : Packet) (at : ℕ) (s : Sessions) → Handled s (handle packet at s)
unfolding handle
handle-Handled packet at s =
    if_elim {A = Option Packet × Sessions} (Handled s)
      ((length packet.id == 0) || ltb 128 (length packet.id)) _ _ (λ _. keeps_all s)
      (λ _.
        if_elim {A = Option Packet × Sessions} (Handled s) (is_hello packet.body) _ _
          (λ _. handle_hello-Handled packet at s (find_entry packet.channel s.entries) refl)
          (λ _. handle_other-Handled packet at s (find_entry packet.channel s.entries) refl))

expire_entry-GoesOn : (now timeout : ℕ) (e : Entry) → GoesOn e (expire_entry now timeout e)
unfolding expire_entry
expire_entry-GoesOn now timeout e =
    if_elim (GoesOn e) (leb timeout (now - e.last_received)) _ _ (λ _. closed-GoesOn e)
      (λ _. same-GoesOn e)

expire_entries-Follows :
    (now timeout c : ℕ) (entries : List (ℕ × Entry))
    → Follows (find_entry c entries) (find_entry c (expire_entries now timeout entries))
unfolding expire_entries find_entry
expire_entries-Follows now timeout c [] = tt
expire_entries-Follows now timeout c ((k, e) ∷ rest) =
    go (k == c) (expire_entries-Follows now timeout c rest)
  where
    go :
        (b : Bool)
        → Follows (find_entry c rest) (find_entry c (expire_entries now timeout rest))
        → Follows (if b then some e else find_entry c rest) (
            if b
            then some (expire_entry now timeout e)
            else find_entry c (expire_entries now timeout rest))
    go true h = expire_entry-GoesOn now timeout e
    go false h = h

session_step-AllFollow : (event : SessionEvent) (s : Sessions) → AllFollow s (session_step event s)
unfolding session_step expire
session_step-AllFollow (receives packet at) s = handle-Handled packet at s
session_step-AllFollow (expires now timeout) s = λ c. expire_entries-Follows now timeout c s.entries

-- A channel that once had a session keeps a record of it for good, whatever is received later: its
-- generation never decreases, and as long as it is the same the identifier stays too, the receive
-- time does not go back, and a session that was closed or has expired is not active again.
pub run_sessions-AllFollow :
    (events : List SessionEvent) (s : Sessions) (c : ℕ)
    → Follows (find_entry c s.entries) (find_entry c (run_sessions events s).entries)
unfolding run_sessions
run_sessions-AllFollow [] s c = same-Follows (find_entry c s.entries)
run_sessions-AllFollow (event ∷ rest) s c =
    Follows-trans (find_entry c s.entries) (find_entry c (session_step event s).entries)
      (find_entry c (run_sessions rest (session_step event s)).entries)
      (session_step-AllFollow event s c) (run_sessions-AllFollow rest (session_step event s) c)
