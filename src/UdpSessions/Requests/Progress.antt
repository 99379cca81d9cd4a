-- ===== src/UdpSessions/Requests/Progress.antt =====
-- A request of examples/udp_application_sessions.rs against the sessions of a server: losses delay it,
-- and nothing else does.
use bevy_slinet.Common.{
  ℕ, suc, ◌+◌, ◌-◌, ◌≤◌, ◌<◌, ◌≡◌, ◌⊎◌, inl, inr, refl, sym, ap, subst, ◌∙◌, Bool, true, false,
  Option, none, some, List, [], ◌∷◌, leb, if◌then◌else◌, if_true, length, arith,
}
use bevy_slinet.UdpSessions.Session.{
  Body, hello, welcome, close, data_bytes, Packet, Entry, Sessions, find_entry, handle, same_bytes,
}
use bevy_slinet.UdpSessions.Requests.{
  Phase, initial, replacement, echo, closing, done, Request, application_data, expected, matches,
  outgoing_in, outgoing, next_phase, after_phase, respond, answered, exchange, exchanges,
}
use bevy_slinet.UdpSessions.Requests.Answers.{
  same_bytes_refl, HasId, IsFor, Answers, new_answer, newer_answer, again_answer, echo_answer,
  close_answer,
}

-- A request as the client makes it: two sessions of a channel, the second newer.
pub record IsRequest (r : Request) : Type 0 where
  pub one_channel : r.old.channel ≡ r.current.channel
  pub newer : r.old.generation < r.current.generation
  pub old_id : HasId r.old
  pub current_id : HasId r.current
  pub says_hello : r.old.body ≡ hello

-- The server has an active session of a packet.
pub record HasSession (p : Packet) (s : Sessions) : Type 0 where
  pub entry : Entry
  pub known : find_entry p.channel s.entries ≡ some entry
  pub is_for : IsFor p entry
  pub live : entry.active ≡ true

-- What the server may have in each phase: it may be one step ahead, where an answer was lost.
abbrev pub InStep : Phase → Request → Sessions → Type 0
InStep initial r s =
    ((find_entry r.old.channel s.entries ≡ none) × (leb 8 (length s.entries) ≡ false))
    ⊎ HasSession r.old s
InStep replacement r s = HasSession r.old s ⊎ HasSession r.current s
InStep echo r s = HasSession r.current s
InStep closing r s =
    (e : Entry) × (find_entry r.current.channel s.entries ≡ some e) × IsFor r.current e
InStep done r s = Unit

abbrev pub left : Phase → ℕ
left initial = 4
left replacement = 3
left echo = 2
left closing = 1
left done = 0

pub record Agrees (r : Request) (s : Sessions) : Type 0 where
  pub is_request : IsRequest r
  pub in_step : InStep r.phase r s

session_of :
    (p : Packet) (reply : Body) (r : Option Packet × Sessions)
    → Answers p reply true r
    → HasSession p r.1
session_of p reply r a = record {
  entry = a.entry;
  known = a.has;
  is_for = a.is_for;
  live = a.is_live;
}

-- What a round of a request makes of it.
record Advances (n : ℕ) (r : Request) (t : Request × Sessions) : Type 0 where
  agrees : Agrees t.0 t.1
  nearer : left t.0.phase ≤ left r.phase - n

-- The reply matches the request, and its body takes it to the next phase.
respond_to :
    (r : Request) (reply : Packet) (phase : Phase)
    → matches r reply ≡ true
    → next_phase reply.body r.phase ≡ some phase
    → respond reply r ≡ record r { phase = phase; last_sent = none }
unfolding respond after_phase
respond_to r reply phase m n = if_true (matches r reply) _ r m ∙ ap (λ o. after_phase o r) n

matches_own : (r : Request) (b : Body) → matches r (record (expected r.phase r) { body = b }) ≡ true
unfolding matches
matches_own r b = ground (arith, same_bytes_refl (expected r.phase r).id)

answered_eq :
    (d : Bool) (r : Request) (reply : Packet) (h : Option Packet × Sessions)
    → h.0 ≡ some reply
    → answered d r h ≡ (if d then respond reply r else r, h.1)
unfolding answered
answered_eq d r reply (none, s) e = absurd (cc e)
answered_eq d r reply (some x, s) e = ap (λ o. answered d r (o, s)) e

moved : Request → Phase → Request
moved r phase = record r { phase = phase; last_sent = none }

moved-Agrees :
    (r : Request) (phase : Phase) (s : Sessions)
    → IsRequest r
    → InStep phase (moved r phase) s
    → Agrees (moved r phase) s
unfolding moved
moved-Agrees r phase s q i = record {
  is_request = record {
    one_channel = q.one_channel;
    newer = q.newer;
    old_id = q.old_id;
    current_id = q.current_id;
    says_hello = q.says_hello;
  };
  in_step = i;
}

-- A round in which the server answers: the request moves on, unless the answer is lost.
round_answered :
    (r : Request) (phase next : Phase) (p : Packet) (reply : Body) (live d : Bool)
    (h : Option Packet × Sessions)
    → IsRequest r
    → r.phase ≡ phase
    → p ≡ expected phase r
    → Answers p reply live h
    → next_phase reply phase ≡ some next
    → left phase ≡ suc (left next)
    → InStep phase r h.1
    → InStep next (moved r next) h.1
    → Advances (if d then 1 else 0) r (answered d r h)
unfolding moved
round_answered r phase next p reply live d h q e is a n l stay go =
    subst (Advances (if d then 1 else 0) r)
      (sym (answered_eq d r (record p { body = reply }) h a.replies)) (by_delivery d)
  where
    own : matches r (record p { body = reply }) ≡ true
    own =
        subst (λ x. matches r (record x { body = reply }) ≡ true)
          (ap (λ x. expected x r) e ∙ sym is) (matches_own r reply)

    by_delivery :
        (b : Bool)
        → Advances
            (if b then 1 else 0)
            r
            (if b then respond (record p { body = reply }) r else r, h.1)
    by_delivery true =
        subst (λ t. Advances 1 r (t, h.1))
          (sym (respond_to r (record p { body = reply }) next own (ap (next_phase reply) e ∙ n)))
          (record { agrees = moved-Agrees r next h.1 q go; nearer = omega (arith, ap left e, l) })
    by_delivery false = record {
      agrees = record { is_request = q; in_step = subst (λ x. InStep x r h.1) (sym e) stay };
      nearer = omega arith;
    }

round_initial :
    (r : Request) (s : Sessions) (at : ℕ) (d : Bool)
    → IsRequest r
    → r.phase ≡ initial
    → InStep initial r s
    → Advances (if d then 1 else 0) r (answered d r (handle r.old at s))
unfolding moved next_phase
round_initial r s at d q e i =
    let a = answer i in
    round_answered r initial replacement r.old welcome true d (handle r.old at s) q e refl a refl
      refl (inr (session_of r.old welcome (handle r.old at s) a))
      (inl (session_of r.old welcome (handle r.old at s) a))
  where
    own : record (r.old) { body = hello } ≡ r.old
    own = ap (λ b. record (r.old) { body = b }) (sym q.says_hello)

    answer : InStep initial r s → Answers r.old welcome true (handle r.old at s)
    answer (inl (unknown, room)) =
        subst (λ p. Answers r.old welcome true (handle p at s)) own
          (new_answer r.old at s q.old_id unknown room)
    answer (inr known) =
        subst (λ p. Answers r.old welcome true (handle p at s)) own
          (again_answer r.old at s known.entry q.old_id known.known known.is_for known.live)

round_replacement :
    (r : Request) (s : Sessions) (at : ℕ) (d : Bool)
    → IsRequest r
    → r.phase ≡ replacement
    → InStep replacement r s
    → Advances
        (if d then 1 else 0)
        r
        (answered d r (handle (record (r.current) { body = hello }) at s))
unfolding moved next_phase
round_replacement r s at d q e i =
    let a = answer i in
    let after = handle (record (r.current) { body = hello }) at s in
    round_answered r replacement echo r.current welcome true d after q e refl a refl refl
      (inr (session_of r.current welcome after a)) (session_of r.current welcome after a)
  where
    answer :
        InStep replacement r s
        → Answers r.current welcome true (handle (record (r.current) { body = hello }) at s)
    answer (inl known) =
        newer_answer r.current at s known.entry q.current_id
          (ap (λ c. find_entry c s.entries) (sym q.one_channel) ∙ known.known)
          (omega (arith, known.is_for.generation, q.newer))
    answer (inr known) =
        again_answer r.current at s known.entry q.current_id known.known known.is_for known.live

round_echo :
    (r : Request) (s : Sessions) (at : ℕ) (d : Bool)
    → IsRequest r
    → r.phase ≡ echo
    → InStep echo r s
    → Advances
        (if d then 1 else 0)
        r
        (answered d r (handle (record (r.current) { body = data_bytes application_data }) at s))
unfolding moved next_phase
round_echo r s at d q e i =
    let after = handle (record (r.current) { body = data_bytes application_data }) at s in
    let a =
      echo_answer r.current at s i.entry application_data q.current_id i.known i.is_for i.live in
    round_answered r echo closing r.current (data_bytes application_data) true d after q e refl a
      (if_true (same_bytes application_data application_data) (some closing) none
        (same_bytes_refl application_data))
      refl (session_of r.current (data_bytes application_data) after a) (a.entry, a.has, a.is_for)

round_closing :
    (r : Request) (s : Sessions) (at : ℕ) (d : Bool)
    → IsRequest r
    → r.phase ≡ closing
    → InStep closing r s
    → Advances
        (if d then 1 else 0)
        r
        (answered d r (handle (record (r.current) { body = close }) at s))
unfolding moved next_phase
round_closing r s at d q e (entry, known, is_for) =
    let after = handle (record (r.current) { body = close }) at s in
    let a = close_answer r.current at s entry q.current_id known is_for in
    round_answered r closing done r.current close false d after q e refl a refl refl
      (a.entry, a.has, a.is_for) tt

-- A round counts when neither packet is lost.
abbrev pub is_whole : Bool × Bool × ℕ → ℕ
is_whole (arrives, delivered, at) = if arrives then (if delivered then 1 else 0) else 0

abbrev pub whole_rounds : List (Bool × Bool × ℕ) → ℕ
whole_rounds [] = 0
whole_rounds (round ∷ rest) = is_whole round + whole_rounds rest

rests : (r : Request) (s : Sessions) → Agrees r s → Advances 0 r (r, s)
rests r s a = record { agrees = a; nearer = omega arith }

done-Advances :
    (r : Request) (s : Sessions) (n : ℕ) → r.phase ≡ done → Agrees r s → Advances n r (r, s)
done-Advances r s n e a = record { agrees = a; nearer = omega (arith, ap left e) }

exchange-Advances :
    (arrives delivered : Bool) (at : ℕ) (phase : Phase) (r : Request) (s : Sessions)
    → r.phase ≡ phase
    → Agrees r s
    → Advances
        (is_whole (arrives, delivered, at))
        r
        (exchange arrives delivered at (outgoing_in phase r) r s)
unfolding exchange outgoing_in
exchange-Advances true d at initial r s e a =
    round_initial r s at d a.is_request e (subst (λ x. InStep x r s) e a.in_step)
exchange-Advances true d at replacement r s e a =
    round_replacement r s at d a.is_request e (subst (λ x. InStep x r s) e a.in_step)
exchange-Advances true d at echo r s e a =
    round_echo r s at d a.is_request e (subst (λ x. InStep x r s) e a.in_step)
exchange-Advances true d at closing r s e a =
    round_closing r s at d a.is_request e (subst (λ x. InStep x r s) e a.in_step)
exchange-Advances true d at done r s e a = done-Advances r s (is_whole (true, d, at)) e a
exchange-Advances false d at initial r s e a = rests r s a
exchange-Advances false d at replacement r s e a = rests r s a
exchange-Advances false d at echo r s e a = rests r s a
exchange-Advances false d at closing r s e a = rests r s a
exchange-Advances false d at done r s e a = rests r s a

exchanges-Advances :
    (rounds : List (Bool × Bool × ℕ)) (r : Request) (s : Sessions)
    → Agrees r s
    → Advances (whole_rounds rounds) r (exchanges rounds r s)
unfolding exchanges outgoing
exchanges-Advances [] r s a = rests r s a
exchanges-Advances ((arrives, delivered, at) ∷ rest) r s a =
    let k = exchange-Advances arrives delivered at r.phase r s refl a in
    let t = exchange arrives delivered at (outgoing r) r s in
    let l = exchanges-Advances rest t.0 t.1 k.agrees in
    record { agrees = l.agrees; nearer = omega (arith, k.nearer, l.nearer) }

none_left : (phase : Phase) → left phase ≤ 0 → phase ≡ done
none_left initial h = absurd (omega arith)
none_left replacement h = absurd (omega arith)
none_left echo h = absurd (omega arith)
none_left closing h = absurd (omega arith)
none_left done h = refl

-- A request completes once four rounds come through, or fewer where it has begun, whatever rounds are
-- lost before, between or after them, on the way there or back, as long as the session does not expire
-- and no other client uses its channel: each round that comes through takes
-- it to its next phase, and a lost answer leaves the server where the same packet is answered again.
pub exchanges_done :
    (rounds : List (Bool × Bool × ℕ)) (r : Request) (s : Sessions)
    → Agrees r s
    → left r.phase ≤ whole_rounds rounds
    → (exchanges rounds r s).0.phase ≡ done
exchanges_done rounds r s a enough =
    none_left (exchanges rounds r s).0.phase
      (omega (arith, (exchanges-Advances rounds r s a).nearer))
