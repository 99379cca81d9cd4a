-- ===== src/UdpSessions/Requests/Answers.antt =====
-- What the sessions of examples/udp_application_sessions.rs answer to the packets of a request.
use bevy_slinet.Common.{
  ℕ, ◌<◌, ◌≡◌, refl, sym, ap, subst, ◌∙◌, Bool, true, false, ◌||◌, not, Option, none, some, List,
  [], ◌∷◌, ◌==◌, ltb, leb, if◌then◌else◌, if_elim, if_true, if_false, length, arith,
}
use bevy_slinet.UdpSessions.Session.{
  Body, hello, welcome, close, data_bytes, Packet, Entry, Sessions, find_entry, handle_hello,
  handle_body, handle_other, handle, is_hello, is_close, same_bytes, set_entry, touch, new_entry,
}
use bevy_slinet.UdpSessions.Session.Replay.{find_entry-insert_entry}

pub same_bytes_refl : (bs : List ℕ) → same_bytes bs bs ≡ true
unfolding same_bytes
same_bytes_refl [] = refl
same_bytes_refl (b ∷ bs) = ground (arith, same_bytes_refl bs)

-- An identifier that the server accepts.
abbrev pub HasId : Packet → Type 0
HasId p = ((length p.id == 0) || ltb 128 (length p.id)) ≡ false

-- An entry of the session of a packet.
pub record IsFor (p : Packet) (e : Entry) : Type 0 where
  pub generation : e.generation ≡ p.generation
  pub id : e.id ≡ p.id

found : (s : Sessions) (c : ℕ) (e : Entry) → find_entry c (set_entry c e s).entries ≡ some e
found s c e =
    find_entry-insert_entry c c e s.entries
    ∙ if_true (c == c) (some e) (find_entry c s.entries) (ground arith)

-- What the server makes of a packet: it answers it with a body, and has an entry of its session.
pub record Answers (p : Packet) (reply : Body) (live : Bool) (r : Option Packet × Sessions)
    : Type 0 where
  pub replies : r.0 ≡ some (record p { body = reply })
  pub entry : Entry
  pub has : find_entry p.channel r.1.entries ≡ some entry
  pub is_for : IsFor p entry
  pub is_live : entry.active ≡ live

hello_new :
    (p : Packet) (at : ℕ) (s : Sessions)
    → leb 8 (length s.entries) ≡ false
    → Answers p welcome true (handle_hello p at s none)
unfolding handle_hello
hello_new p at s room =
    if_elim {A = Option Packet × Sessions} (Answers p welcome true) (leb 8 (length s.entries)) _ _
      (λ e. absurd (cc (e, room)))
      (λ _. record {
        replies = refl;
        entry = new_entry p at;
        has = found s p.channel (new_entry p at);
        is_for = record { generation = refl; id = refl };
        is_live = refl;
      })

hello_newer :
    (p : Packet) (at : ℕ) (s : Sessions) (e : Entry)
    → e.generation < p.generation
    → Answers p welcome true (handle_hello p at s (some e))
unfolding handle_hello
hello_newer p at s e newer =
    if_elim {A = Option Packet × Sessions} (Answers p welcome true) (ltb p.generation e.generation)
      _ _ (λ h. absurd (ground arith))
      (λ _.
        if_elim {A = Option Packet × Sessions} (Answers p welcome true)
          (p.generation == e.generation) _ _ (λ h. absurd (ground arith))
          (λ _. record {
            replies = refl;
            entry = new_entry p at;
            has = found s p.channel (new_entry p at);
            is_for = record { generation = refl; id = refl };
            is_live = refl;
          }))

same_id : (p : Packet) (e : Entry) → IsFor p e → same_bytes e.id p.id ≡ true
same_id p e f = subst (λ i. same_bytes i p.id ≡ true) (sym f.id) (same_bytes_refl p.id)

touched :
    (p : Packet) (at : ℕ) (s : Sessions) (e : Entry) (reply : Body)
    → IsFor p e
    → e.active ≡ true
    → Answers p reply true (some (record p { body = reply }), set_entry p.channel (touch at e) s)
touched p at s e reply f live = record {
  replies = refl;
  entry = touch at e;
  has = found s p.channel (touch at e);
  is_for = record { generation = f.generation; id = f.id };
  is_live = live;
}

hello_again :
    (p : Packet) (at : ℕ) (s : Sessions) (e : Entry)
    → IsFor p e
    → e.active ≡ true
    → Answers p welcome true (handle_hello p at s (some e))
unfolding handle_hello
hello_again p at s e f live =
    if_elim {A = Option Packet × Sessions} (Answers p welcome true) (ltb p.generation e.generation)
      _ _ (λ h. absurd (ground (arith, f.generation)))
      (λ _.
        if_elim {A = Option Packet × Sessions} (Answers p welcome true)
          (p.generation == e.generation) _ _
          (λ _.
            if_elim {A = Option Packet × Sessions} (Answers p welcome true)
              (not (same_bytes e.id p.id) || not e.active) _ _
              (λ h. absurd (ground (arith, same_id p e f))) (λ _. touched p at s e welcome f live))
          (λ h. absurd (ground (arith, f.generation))))

-- A packet of the session that is no hello.
other_for :
    (body : Body) (p : Packet) (at : ℕ) (s : Sessions) (e : Entry) (live : Bool)
    → IsFor p e
    → (e.active ≡ true → Answers p body live (handle_body p.body p at s e))
    → (e.active ≡ false → Answers p body live (if is_close p.body then some p else none, s))
    → Answers p body live (handle_other p at s (some e))
unfolding handle_other
other_for body p at s e live f when_live when_closed =
    if_elim {A = Option Packet × Sessions} (Answers p body live)
      (not (e.generation == p.generation) || not (same_bytes e.id p.id)) _ _
      (λ h. absurd (ground (arith, f.generation, same_id p e f)))
      (λ _.
        if_elim {A = Option Packet × Sessions} (Answers p body live) e.active _ _ when_live
          when_closed)

-- `handle` on a packet with a good identifier.
handled_hello :
    (p : Packet) (at : ℕ) (s : Sessions)
    → HasId p
    → is_hello p.body ≡ true
    → handle p at s ≡ handle_hello p at s (find_entry p.channel s.entries)
unfolding handle
handled_hello p at s good is =
    if_false ((length p.id == 0) || ltb 128 (length p.id)) _ _ good
    ∙ if_true (is_hello p.body) _ _ is

handled_other :
    (p : Packet) (at : ℕ) (s : Sessions)
    → HasId p
    → is_hello p.body ≡ false
    → handle p at s ≡ handle_other p at s (find_entry p.channel s.entries)
unfolding handle
handled_other p at s good is =
    if_false ((length p.id == 0) || ltb 128 (length p.id)) _ _ good
    ∙ if_false (is_hello p.body) _ _ is

-- The session of a packet does not depend on its body.
of_session :
    (p : Packet) (b reply : Body) (live : Bool) {r : Option Packet × Sessions}
    → Answers (record p { body = b }) reply live r
    → Answers p reply live r
of_session p b reply live a = record {
  replies = a.replies;
  entry = a.entry;
  has = a.has;
  is_for = record { generation = a.is_for.generation; id = a.is_for.id };
  is_live = a.is_live;
}

with_body : (p : Packet) (b : Body) (e : Entry) → IsFor p e → IsFor (record p { body = b }) e
with_body p b e f = record { generation = f.generation; id = f.id }

-- The handled packet of a known session.
known_hello :
    (p : Packet) (at : ℕ) (s : Sessions) (o : Option Entry)
    → HasId p
    → find_entry p.channel s.entries ≡ o
    → Answers
        (record p { body = hello })
        welcome
        true
        (handle_hello (record p { body = hello }) at s o)
    → Answers p welcome true (handle (record p { body = hello }) at s)
known_hello p at s o good known a = of_session p hello welcome true (
    subst (Answers (record p { body = hello }) welcome true)
      (sym (
        handled_hello (record p { body = hello }) at s good refl
        ∙ ap (handle_hello (record p { body = hello }) at s) known))
      a)

known_other :
    (p : Packet) (at : ℕ) (s : Sessions) (e : Entry) (b : Body) (live : Bool)
    → HasId p
    → is_hello b ≡ false
    → find_entry p.channel s.entries ≡ some e
    → Answers (record p { body = b }) b live (handle_other (record p { body = b }) at s (some e))
    → Answers p b live (handle (record p { body = b }) at s)
known_other p at s e b live good other known a = of_session p b b live (
    subst (Answers (record p { body = b }) b live)
      (sym (
        handled_other (record p { body = b }) at s good other
        ∙ ap (handle_other (record p { body = b }) at s) known))
      a)

pub new_answer :
    (p : Packet) (at : ℕ) (s : Sessions)
    → HasId p
    → find_entry p.channel s.entries ≡ none
    → leb 8 (length s.entries) ≡ false
    → Answers p welcome true (handle (record p { body = hello }) at s)
new_answer p at s good unknown room =
    known_hello p at s none good unknown (hello_new (record p { body = hello }) at s room)

pub newer_answer :
    (p : Packet) (at : ℕ) (s : Sessions) (e : Entry)
    → HasId p
    → find_entry p.channel s.entries ≡ some e
    → e.generation < p.generation
    → Answers p welcome true (handle (record p { body = hello }) at s)
newer_answer p at s e good known newer =
    known_hello p at s (some e) good known (hello_newer (record p { body = hello }) at s e newer)

pub again_answer :
    (p : Packet) (at : ℕ) (s : Sessions) (e : Entry)
    → HasId p
    → find_entry p.channel s.entries ≡ some e
    → IsFor p e
    → e.active ≡ true
    → Answers p welcome true (handle (record p { body = hello }) at s)
again_answer p at s e good known f live =
    known_hello p at s (some e) good known
      (hello_again (record p { body = hello }) at s e (with_body p hello e f) live)

pub echo_answer :
    (p : Packet) (at : ℕ) (s : Sessions) (e : Entry) (bytes : List ℕ)
    → HasId p
    → find_entry p.channel s.entries ≡ some e
    → IsFor p e
    → e.active ≡ true
    → Answers p (data_bytes bytes) true (handle (record p { body = data_bytes bytes }) at s)
unfolding handle_body
echo_answer p at s e bytes good known f live =
    known_other p at s e (data_bytes bytes) true good refl known (
      other_for (data_bytes bytes) (record p { body = data_bytes bytes }) at s e true
        (with_body p (data_bytes bytes) e f)
        (λ _.
          touched (record p { body = data_bytes bytes }) at s e (data_bytes bytes)
            (with_body p (data_bytes bytes) e f) live)
        (λ h. absurd (cc (h, live))))

pub close_answer :
    (p : Packet) (at : ℕ) (s : Sessions) (e : Entry)
    → HasId p
    → find_entry p.channel s.entries ≡ some e
    → IsFor p e
    → Answers p close false (handle (record p { body = close }) at s)
unfolding handle_body
close_answer p at s e good known f = known_other p at s e close false good refl known (
    other_for close (record p { body = close }) at s e false (with_body p close e f)
      (λ _. record {
        replies = refl;
        entry = record e { active = false };
        has = found s p.channel (record e { active = false });
        is_for = record { generation = f.generation; id = f.id };
        is_live = refl;
      })
      (λ h. record {
        replies = refl;
        entry = e;
        has = known;
        is_for = record { generation = f.generation; id = f.id };
        is_live = h;
      }))
