-- ===== src/Connection/Writer/Losses.antt =====
-- What becomes of the packets that the writing task of connection/tasks.rs takes.
use bevy_slinet.Common.{
  ℕ, ◌≤◌, ◌≡◌, refl, Bool, true, false, none, List, [], ◌∷◌, ◌++◌, Result, ok, err, if◌then◌else◌,
  arith, ap, sym, ◌∙◌, length, Option, some, All, subst,
}
use bevy_slinet.Protocols.Framing.{
  IoError, invalid_data, invalid_input, connection_aborted, connection_reset, connection_refused,
  interrupted, write_zero, would_block, broken_pipe, other,
}
use bevy_slinet.Protocols.Transport.{closed_before_delivery, TransportHandle, record_drops}
use bevy_slinet.Connection.Writer.{
  WriterEvent, idle_cancelled, queue_ended, takes, is_aborted, finish_pending, Writing, ended,
  after_write, send_packets,
}

module _ {P : Type 0} where
  -- The packets that the queue gives, in order.
  abbrev pub packets : List (WriterEvent P) → List P
  packets [] = []
  packets (idle_cancelled ∷ events) = packets events
  packets (queue_ended ∷ events) = packets events
  packets (takes packet cancelled cut_short ∷ events) = packet ∷ packets events

module _ {W P H : Type 0} (handle : TransportHandle H)
    (write : P → W → Result (Unit {0}) IoError × W) where
  -- The writer after it is given packets one after the other.
  abbrev pub write_each : List P → W → W
  write_each [] w = w
  write_each (packet ∷ rest) w = write_each rest (write packet w).1

  -- What the writer answers to each.
  abbrev pub answers_of : List P → W → List (Result (Unit {0}) IoError)
  answers_of [] w = []
  answers_of (packet ∷ rest) w = (write packet w).0 ∷ answers_of rest (write packet w).1

  -- The reports that an error of the writer calls for: an aborted write is one, and other errors are
  -- counted elsewhere.
  abbrev pub losses_by : IoError → ℕ
  losses_by connection_aborted = 1
  losses_by _ = 0

  -- The answers, the packets skipped and the reports, by the error with which the task ends. Without
  -- one all writes succeeded and a skipped packet is reported; with one the last write failed so, and
  -- it is reported exactly if it was aborted.
  abbrev pub EndsWith : Option IoError → List (Result (Unit {0}) IoError) → List P → ℕ → Type 0
  EndsWith none answers skipped lost =
      All (λ r. r ≡ ok tt) answers × (length skipped ≤ 1) × (lost ≡ length skipped)
  EndsWith (some e) answers skipped lost =
      ((front : List (Result (Unit {0}) IoError)) × All (λ r. r ≡ ok tt) front
        × (answers ≡ front ++ (err e ∷ [])))
      × (skipped ≡ [])
      × (lost ≡ losses_by e)

  -- The packets given by the queue are those handed to the writer, in order, then those skipped, and
  -- then those to come; the transport has `lost` reports.
  pub record Accounted (events : List (WriterEvent P)) (w : W) (h : H) (t : Writing handle write)
      : Type 0 where
    pub handed : List P
    pub skipped : List P
    pub lost : ℕ
    pub order : packets events ≡ handed ++ (skipped ++ packets t.left)
    pub written : t.writer ≡ write_each handed w
    pub ends : EndsWith t.send_error (answers_of handed w) skipped lost
    pub reported : t.transport ≡ record_drops handle closed_before_delivery lost h

  one_more_answer :
      (e : Option IoError) (answers : List (Result (Unit {0}) IoError))
      (a : Result (Unit {0}) IoError) (skipped : List P) (lost : ℕ)
      → a ≡ ok tt
      → EndsWith e answers skipped lost
      → EndsWith e (a ∷ answers) skipped lost
  one_more_answer none answers a skipped lost h (all, few, told) = ((h, all), few, told)
  one_more_answer (some e) answers a skipped lost h ((front, all, split), none_skipped, told) =
      ((a ∷ front, (h, all), ap (◌∷◌ a) split), none_skipped, told)

  lost_by : Result (Unit {0}) IoError → ℕ
  lost_by r = if is_aborted r then 1 else 0

  lost_by_lem : (e : IoError) → lost_by (err e) ≡ losses_by e
  unfolding lost_by is_aborted
  lost_by_lem invalid_data = refl
  lost_by_lem invalid_input = refl
  lost_by_lem connection_aborted = refl
  lost_by_lem connection_reset = refl
  lost_by_lem connection_refused = refl
  lost_by_lem interrupted = refl
  lost_by_lem write_zero = refl
  lost_by_lem would_block = refl
  lost_by_lem broken_pipe = refl
  lost_by_lem (other n) = refl

  reported_if :
      (b : Bool) (h : H)
      → (if b then handle.record_drop closed_before_delivery h else h)
        ≡ record_drops handle closed_before_delivery (if b then 1 else 0) h
  unfolding record_drops
  reported_if true h = refl
  reported_if false h = refl

  finish_pending_lem :
      (r : Result (Unit {0}) IoError) (h : H)
      → finish_pending handle write r h ≡ record_drops handle closed_before_delivery (lost_by r) h
  unfolding finish_pending lost_by
  finish_pending_lem r h = reported_if (is_aborted r) h

  after_write-Accounted :
      (rest : W → H → Writing handle write) (events : List (WriterEvent P)) (packet : P) (w : W)
      (h : H) (r : Result (Unit {0}) IoError × W)
      → write packet w ≡ r
      → ((w₁ : W) → Accounted events w₁ h (rest w₁ h))
      → Accounted (takes packet false false ∷ events) w h (after_write handle write rest events h r)
  unfolding after_write
  after_write-Accounted rest events packet w h (ok u, w₁) e later = record {
    handed = packet ∷ (later w₁).handed;
    skipped = (later w₁).skipped;
    lost = (later w₁).lost;
    order = ap (◌∷◌ packet) (later w₁).order;
    written = (later w₁).written ∙ ap (write_each (later w₁).handed) (sym (ap (λ r. r.1) e));
    ends =
        one_more_answer (rest w₁ h).send_error _ (write packet w).0 (later w₁).skipped
          (later w₁).lost (ap (λ r. r.0) e)
          (subst
            (λ v.
              EndsWith (rest w₁ h).send_error (answers_of (later w₁).handed v) (later w₁).skipped
                (later w₁).lost)
            (sym (ap (λ r. r.1) e)) (later w₁).ends);
    reported = (later w₁).reported;
  }
  after_write-Accounted rest events packet w h (err error, w₁) e later = record {
    handed = packet ∷ [];
    skipped = [];
    lost = lost_by (err error);
    order = refl;
    written = sym (ap (λ r. r.1) e);
    ends = (([], tt, ap (λ r. r.0 ∷ []) e), refl, lost_by_lem error);
    reported = finish_pending_lem (err error) h;
  }

  at_rest :
      (events : List (WriterEvent P)) (w : W) (h : H) (t : Writing handle write)
      → packets events ≡ packets t.left
      → t.writer ≡ w
      → t.transport ≡ h
      → t.send_error ≡ none
      → Accounted events w h t
  unfolding record_drops
  at_rest events w h t to_come same_writer same_transport no_error = record {
    handed = [];
    skipped = [];
    lost = 0;
    order = to_come;
    written = same_writer;
    ends = subst (λ e. EndsWith e [] [] 0) (sym no_error) (tt, omega arith, refl);
    reported = same_transport;
  }

  skips :
      (events : List (WriterEvent P)) (packet : P) (cancelled cut_short : Bool) (w : W) (h : H)
      → Accounted
          (takes packet cancelled cut_short ∷ events)
          w
          h
          (ended handle write none w (handle.record_drop closed_before_delivery h) events)
  unfolding record_drops
  skips events packet cancelled cut_short w h = record {
    handed = [];
    skipped = packet ∷ [];
    lost = 1;
    order = refl;
    written = refl;
    ends = (tt, omega arith, refl);
    reported = refl;
  }

  -- The packets that a connection's queue gives are handed to the writer one by one and in order, up
  -- to the end of the task. Without an error every write succeeded, and a packet that is taken but
  -- not handed over, of which there is one at most, is reported as lost before delivery. With an error
  -- the last write failed with it, and is reported so exactly if it was aborted.
  pub send_packets-Accounted :
      (events : List (WriterEvent P)) (w : W) (h : H)
      → Accounted events w h (send_packets handle write events w h)
  unfolding send_packets
  send_packets-Accounted [] w h = at_rest [] w h _ refl refl refl refl
  send_packets-Accounted (idle_cancelled ∷ events) w h =
      at_rest (idle_cancelled ∷ events) w h _ refl refl refl refl
  send_packets-Accounted (queue_ended ∷ events) w h =
      at_rest (queue_ended ∷ events) w h _ refl refl refl refl
  send_packets-Accounted (takes packet true cut_short ∷ events) w h =
      skips events packet true cut_short w h
  send_packets-Accounted (takes packet false true ∷ events) w h = skips events packet false true w h
  send_packets-Accounted (takes packet false false ∷ events) w h =
      after_write-Accounted (send_packets handle write events) events packet w h (write packet w)
        refl (λ w₁. send_packets-Accounted events w₁ h)
