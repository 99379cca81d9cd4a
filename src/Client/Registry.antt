-- ===== src/Client/Registry.antt =====
-- The registry of client.rs: its connections by their identifiers, and the resource that names the
-- current one. The commands of a frame run after the system, in the order in which it queues them.
use bevy_slinet.Common.{
  ℕ, zero, suc, ◌≡◌, refl, Option, none, some, List, [], ◌∷◌, ◌++◌, ◌==◌, if◌then◌else◌, arith, sym,
  ap, ◌∙◌, ◌≤◌, ◌⊎◌, inl, inr, length, append-nil, append_assoc, Bool, true, not, ◌&&◌, Bool-cases,
  if_elim,
}

pub data IncomingMessage (P : Type 0) : Type 0 where
  established : ℕ → IncomingMessage P
  stream_packet : P → IncomingMessage P
  closed : Option ℕ → IncomingMessage P

-- `events` are the messages whose event was triggered, oldest first.
pub record World (P : Type 0) : Type 0 where
  pub connections : List ℕ
  pub current : Option ℕ
  pub published : List ℕ
  pub events : List (IncomingMessage P)

-- `Vec::retain` of the other connections, and `Vec::last`.
unfoldable pub without : ℕ → List ℕ → List ℕ
without id [] = []
without id (c ∷ rest) = if c == id then without id rest else c ∷ without id rest

unfoldable pub last : List ℕ → Option ℕ
last [] = none
last (c ∷ []) = some c
last (c ∷ d ∷ rest) = last (d ∷ rest)

unfoldable pub register : ℕ → List ℕ → List ℕ
register id connections = connections ++ (id ∷ [])

unfoldable pub remove_connection : ℕ → List ℕ → Option ℕ × List ℕ
unfolding without last
remove_connection id connections = (last (without id connections), without id connections)

last-append : (cs : List ℕ) (id : ℕ) → last (cs ++ (id ∷ [])) ≡ some id
unfolding last
last-append [] id = refl
last-append (c ∷ []) id = refl
last-append (c ∷ d ∷ rest) id = last-append (d ∷ rest) id

-- The elements that pass a test.
abbrev pub keep_if : (ℕ → Bool) → List ℕ → List ℕ
keep_if test [] = []
keep_if test (c ∷ rest) = if test c then c ∷ keep_if test rest else keep_if test rest

keep_if-append :
    (test : ℕ → Bool) (cs ds : List ℕ)
    → keep_if test (cs ++ ds) ≡ keep_if test cs ++ keep_if test ds
keep_if-append test [] ds = refl
keep_if-append test (c ∷ cs) ds = elim (Bool-cases (test c)) [
  | inl passes ↦ rw passes (ap (◌∷◌ c) (keep_if-append test cs ds))
  | inr fails ↦ rw fails (keep_if-append test cs ds)
]

keep_if-without :
    (test : ℕ → Bool) (id : ℕ) (cs : List ℕ)
    → keep_if test (without id cs) ≡ keep_if (λ c. not (c == id) && test c) cs
unfolding without
keep_if-without test id [] = refl
keep_if-without test id (c ∷ cs) = elim (Bool-cases (c == id)) [
  | inl same ↦ rw same (keep_if-without test id cs)
  | inr other ↦ rw other (
      if_elim
        (λ l. l ≡ (
          if test c
          then c ∷ keep_if (λ d. not (d == id) && test d) cs
          else keep_if (λ d. not (d == id) && test d) cs))
        (test c) _ _ (λ passes. rw passes (ap (◌∷◌ c) (keep_if-without test id cs)))
        (λ fails. rw fails (keep_if-without test id cs)))
]

keep_if-all : (cs : List ℕ) → keep_if (λ c. true) cs ≡ cs
keep_if-all [] = refl
keep_if-all (c ∷ cs) = ap (◌∷◌ c) (keep_if-all cs)

module _ {P : Type 0} where
  abbrev pub trigger : IncomingMessage P → World P → World P
  trigger m w = record w { events = w.events ++ (m ∷ []) }

  -- The command of a message.
  unfoldable pub handle_message : IncomingMessage P → World P → World P
  unfolding register remove_connection
  handle_message (established id) w = trigger (established id) (record w {
    current = some id;
    connections = register id w.connections;
    published = id ∷ w.published;
  })
  handle_message (stream_packet p) w = trigger (stream_packet p) w
  handle_message (closed (some id)) w =
      let (fallback, rest) = remove_connection id w.connections in
      trigger (closed (some id)) (record w { current = fallback; connections = rest })
  handle_message (closed none) w = trigger (closed none) w

  -- `incoming_system` with a budget, on the messages that are queued: those left, and the world after
  -- the commands.
  unfoldable pub incoming_system :
      ℕ → List (IncomingMessage P) → World P → List (IncomingMessage P) × World P
  unfolding handle_message
  incoming_system zero messages w = (messages, w)
  incoming_system (suc budget) [] w = ([], w)
  incoming_system (suc budget) (m ∷ messages) w =
      incoming_system budget messages (handle_message m w)

  -- The current connection is the one registered last.
  abbrev pub IsCurrent : World P → Type 0
  IsCurrent w = w.current ≡ last w.connections

  handle_message-IsCurrent :
      (m : IncomingMessage P) (w : World P) → IsCurrent w → IsCurrent (handle_message m w)
  unfolding handle_message register remove_connection
  handle_message-IsCurrent (established id) w h = sym (last-append w.connections id)
  handle_message-IsCurrent (stream_packet p) w h = h
  handle_message-IsCurrent (closed (some id)) w h = refl
  handle_message-IsCurrent (closed none) w h = h

  -- Whether no message closes the connection.
  abbrev pub stays : List (IncomingMessage P) → ℕ → Bool
  stays [] c = true
  stays (established id ∷ rest) c = stays rest c
  stays (stream_packet p ∷ rest) c = stays rest c
  stays (closed (some id) ∷ rest) c = not (c == id) && stays rest c
  stays (closed none ∷ rest) c = stays rest c

  -- The connections that the messages establish and no later one closes, in order.
  abbrev pub opened : List (IncomingMessage P) → List ℕ
  opened [] = []
  opened (established id ∷ rest) = keep_if (stays rest) (id ∷ []) ++ opened rest
  opened (stream_packet p ∷ rest) = opened rest
  opened (closed id ∷ rest) = opened rest

  -- The open connections after some messages: those that were open, then the new ones.
  abbrev pub open_after : List (IncomingMessage P) → List ℕ → List ℕ
  open_after messages cs = keep_if (stays messages) cs ++ opened messages

  handle_message-opens :
      (m : IncomingMessage P) (rest : List (IncomingMessage P)) (w : World P)
      → open_after rest (handle_message m w).connections ≡ open_after (m ∷ rest) w.connections
  unfolding handle_message register remove_connection
  handle_message-opens (established id) rest w =
      ap (λ l. l ++ opened rest) (keep_if-append (stays rest) w.connections (id ∷ []))
      ∙ append_assoc (keep_if (stays rest) w.connections) (keep_if (stays rest) (id ∷ []))
          (opened rest)
  handle_message-opens (stream_packet p) rest w = refl
  handle_message-opens (closed (some id)) rest w =
      ap (λ l. l ++ opened rest) (keep_if-without (stays rest) id w.connections)
  handle_message-opens (closed none) rest w = refl

  -- What a frame does with the queued messages.
  pub record Frame (budget : ℕ) (messages : List (IncomingMessage P)) (w : World P)
      (r : List (IncomingMessage P) × World P) : Type 0 where
    pub handled : List (IncomingMessage P)
    pub split : messages ≡ handled ++ r.0
    pub within : length handled ≤ budget
    pub spent : (length handled ≡ budget) ⊎ (r.0 ≡ [])
    pub triggered : r.1.events ≡ w.events ++ handled
    pub registered : r.1.connections ≡ open_after handled w.connections
    pub is_current : IsCurrent r.1

  handle_message-events :
      (m : IncomingMessage P) (w : World P) → (handle_message m w).events ≡ w.events ++ (m ∷ [])
  unfolding handle_message
  handle_message-events (established id) w = refl
  handle_message-events (stream_packet p) w = refl
  handle_message-events (closed (some id)) w = refl
  handle_message-events (closed none) w = refl

  -- A frame handles the oldest messages, at most as many as its budget and all if it is large enough,
  -- and triggers their events in order. It leaves registered, in order, the connections that were and
  -- those that the messages establish, without those that a later message closes, and as the current
  -- connection the last of these.
  pub incoming_system-Frame :
      (budget : ℕ) (messages : List (IncomingMessage P)) (w : World P)
      → IsCurrent w
      → Frame budget messages w (incoming_system budget messages w)
  unfolding incoming_system
  incoming_system-Frame zero messages w h = record {
    handled = [];
    split = refl;
    within = omega arith;
    spent = inl refl;
    triggered = sym (append-nil w.events);
    registered = sym (append-nil (keep_if (stays []) w.connections) ∙ keep_if-all w.connections);
    is_current = h;
  }
  incoming_system-Frame (suc budget) [] w h = record {
    handled = [];
    split = refl;
    within = omega arith;
    spent = inr refl;
    triggered = sym (append-nil w.events);
    registered = sym (append-nil (keep_if (stays []) w.connections) ∙ keep_if-all w.connections);
    is_current = h;
  }
  incoming_system-Frame (suc budget) (m ∷ messages) w h =
      let f =
        incoming_system-Frame budget messages (handle_message m w)
          (handle_message-IsCurrent m w h) in
      record {
        handled = m ∷ f.handled;
        split = ap (◌∷◌ m) f.split;
        within = omega (arith, f.within);
        spent = ground (arith, f.spent);
        triggered =
            f.triggered
            ∙ ap (λ l. l ++ f.handled) (handle_message-events m w)
            ∙ append_assoc w.events (m ∷ []) f.handled;
        registered = f.registered ∙ handle_message-opens m f.handled w;
        is_current = f.is_current;
      }
