-- ===== src/Server/Registry/Sessions.antt =====
-- The registry of server.rs as a set of open connections.
use bevy_slinet.Common.{
  ℕ, zero, suc, ◌≤◌, ◌≡◌, ◌⊎◌, inl, inr, refl, sym, ap, ◌∙◌, Bool, false, ◌||◌, Option, List, [],
  ◌∷◌, ◌++◌, ◌==◌, if◌then◌else◌, length, arith, append-nil, append_assoc,
}
use bevy_slinet.Queue.Outgoing.{NetworkQueueSettings}
use bevy_slinet.Connection.Settings.{NetworkSettings, resolve_queues}
use bevy_slinet.Server.Registry.{
  ServerMessage, established, stream_packet, closed, ServerWorld, retain_others,
  register_connection, unregister_connection, publish_connection, run_command, receive_messages,
  server_incoming_system,
}

abbrev pub is_among : ℕ → List ℕ → Bool
is_among id [] = false
is_among id (c ∷ rest) = (c == id) || is_among id rest

among-append :
    (id c : ℕ) (cs : List ℕ) → is_among id (cs ++ (c ∷ [])) ≡ (is_among id cs || (c == id))
among-append id c [] = ground arith
among-append id c (d ∷ cs) = ground (arith, among-append id c cs)

among-retain_others :
    (id c : ℕ) (cs : List ℕ)
    → is_among id (retain_others c cs) ≡ (if c == id then false else is_among id cs)
unfolding retain_others
among-retain_others id c [] = ground arith
among-retain_others id c (d ∷ cs) = ground (arith, among-retain_others id c cs)

module _ {P : Type 0} where
  -- Whether a connection is open after a message.
  abbrev pub open_after : ℕ → ServerMessage P → Bool → Bool
  open_after id (established c) was = was || (c == id)
  open_after id (stream_packet event) was = was
  open_after id (closed c) was = if c == id then false else was

  abbrev pub is_open : ℕ → List (ServerMessage P) → Bool → Bool
  is_open id [] was = was
  is_open id (m ∷ rest) was = is_open id rest (open_after id m was)

  -- Whether it has been established.
  abbrev pub was_established : ℕ → List (ServerMessage P) → Bool
  was_established id [] = false
  was_established id (established c ∷ rest) = (c == id) || was_established id rest
  was_established id (stream_packet event ∷ rest) = was_established id rest
  was_established id (closed c ∷ rest) = was_established id rest

  run_command_opens :
      (id : ℕ) (m : ServerMessage P) (w : ServerWorld P)
      → is_among id (run_command m w).connections ≡ open_after id m (is_among id w.connections)
  unfolding run_command
  run_command_opens id (established c) w = among-append id c w.connections
  run_command_opens id (stream_packet event) w = refl
  run_command_opens id (closed c) w = among-retain_others id c w.connections

  run_command_triggers :
      (m : ServerMessage P) (w : ServerWorld P) → (run_command m w).events ≡ w.events ++ (m ∷ [])
  unfolding run_command
  run_command_triggers (established c) w = refl
  run_command_triggers (stream_packet event) w = refl
  run_command_triggers (closed c) w = refl

  run_command_publishes :
      (id : ℕ) (m : ServerMessage P) (w : ServerWorld P)
      → is_among id (run_command m w).published
        ≡ (was_established id (m ∷ []) || is_among id w.published)
  unfolding run_command publish_connection register_connection unregister_connection
  run_command_publishes id (established c) w = ground arith
  run_command_publishes id (stream_packet event) w = refl
  run_command_publishes id (closed c) w = refl

  -- What a frame makes of the registry, in terms of the messages alone.
  pub record Refines (budget : ℕ) (messages : List (ServerMessage P)) (w : ServerWorld P)
      (r : List (ServerMessage P) × ServerWorld P) : Type 0 where
    pub handled : List (ServerMessage P)
    pub split : messages ≡ handled ++ r.0
    pub within : length handled ≤ budget
    pub spent : (length handled ≡ budget) ⊎ (r.0 ≡ [])
    pub triggered : r.1.events ≡ w.events ++ handled
    pub opened :
        (id : ℕ) → is_among id r.1.connections ≡ is_open id handled (is_among id w.connections)
    pub published :
        (id : ℕ)
        → is_among id r.1.published ≡ (was_established id handled || is_among id w.published)

  established_first :
      (id : ℕ) (m : ServerMessage P) (rest : List (ServerMessage P)) (b : Bool)
      → (was_established id rest || (was_established id (m ∷ []) || b))
        ≡ (was_established id (m ∷ rest) || b)
  established_first id (established c) rest b = ground arith
  established_first id (stream_packet event) rest b = refl
  established_first id (closed c) rest b = refl

  idle :
      (budget : ℕ) (messages : List (ServerMessage P)) (w : ServerWorld P)
      → (0 ≡ budget) ⊎ (messages ≡ [])
      → Refines budget messages w (messages, w)
  idle budget messages w spent = record {
    handled = [];
    split = refl;
    within = omega arith;
    spent = spent;
    triggered = sym (append-nil w.events);
    opened = λ id. refl;
    published = λ id. refl;
  }

  pub receive_messages-Refines :
      (budget : ℕ) (messages : List (ServerMessage P)) (w : ServerWorld P)
      → Refines budget messages w (receive_messages budget messages w)
  unfolding receive_messages
  receive_messages-Refines zero messages w = idle zero messages w (inl refl)
  receive_messages-Refines (suc budget) [] w = idle (suc budget) [] w (inr refl)
  receive_messages-Refines (suc budget) (m ∷ messages) w =
      let f = receive_messages-Refines budget messages (run_command m w) in
      record {
        handled = m ∷ f.handled;
        split = ap (◌∷◌ m) f.split;
        within = omega (arith, f.within);
        spent = ground (arith, f.spent);
        triggered =
            f.triggered
            ∙ ap (λ l. l ++ f.handled) (run_command_triggers m w)
            ∙ append_assoc w.events (m ∷ []) f.handled;
        opened = λ id. f.opened id ∙ ap (is_open id f.handled) (run_command_opens id m w);
        published = λ id.
            f.published id
            ∙ ap (λ b. was_established id f.handled || b) (run_command_publishes id m w)
            ∙ established_first id m f.handled (is_among id w.published);
      }

  -- A frame of the server handles the oldest messages within the budget of the settings in force,
  -- triggers their events in order, and leaves a registry that holds exactly the connections that are
  -- open by these messages: those that were registered or established, unless a closing message came
  -- later. A connection is marked as published exactly when it has been established.
  pub server_incoming_system-Refines :
      (settings : Option NetworkSettings) (queues : Option NetworkQueueSettings)
      (messages : List (ServerMessage P)) (w : ServerWorld P)
      → Refines
          (resolve_queues settings queues).events_per_frame
          messages
          w
          (server_incoming_system settings queues messages w)
  unfolding server_incoming_system
  server_incoming_system-Refines settings queues messages w =
      receive_messages-Refines (resolve_queues settings queues).events_per_frame messages w
