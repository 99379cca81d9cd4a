-- ===== src/Protocols/Udp/Stream/Tally.antt =====
-- The read half of protocols/udp/stream.rs delivers or counts every datagram that it takes.
use bevy_slinet.Common.{
  ℕ, suc, ap, ◌+◌, ◌%◌, ◌^◌, ◌<◌, ◌≡◌, refl, Bool, ◌&&◌, ◌||◌, Option, none, some, List, [], ◌∷◌,
  Result, ok, err, if◌then◌else◌, if_elim, ltb, length, arith,
}
use bevy_slinet.Protocols.Framing.{IoError, ReceiveError}
use bevy_slinet.Protocols.Udp.Settings.{max_datagram_size_limit}
use bevy_slinet.Protocols.Udp.Diagnostics.{
  receive_limit, malformed_payload, count_drop, received, dropped,
}
use bevy_slinet.Protocols.Udp.Peer.{Peer, close, received_datagram, on_counters}
use bevy_slinet.Protocols.Udp.Stream.{
  Event, cancelled, datagram, failed, is_retried, Outcome, after_decoding, take_payload, take_error,
  count_received, receive_events, receive_datagram,
}

-- The datagrams among the events.
abbrev pub arrivals : List Event → ℕ
arrivals [] = 0
arrivals (datagram payload received_at limit ∷ events) = suc (arrivals events)
arrivals (e ∷ events) = arrivals events

module _ {P C D : Type 0} (L : Type 0) (from_socket : Bool)
    (deserialize : List ℕ → C → Result P D × C) where
  abbrev pub delivered : Option (Result (P × ℕ) (ReceiveError D L)) → ℕ
  delivered (some (ok packet)) = 1
  delivered (some (err e)) = 0
  delivered none = 0

  -- The counters hold words.
  pub record IsCounted (p : Peer) : Type 0 where
    pub limit_word : dropped receive_limit p.counters < 2 ^ 64
    pub malformed_word : dropped malformed_payload p.counters < 2 ^ 64
    pub received_word : p.counters.received_data_packets < 2 ^ 64

  -- Of the datagrams that a call takes from `events`, `limited` were above a limit, `malformed` could
  -- not be decoded, and one more is delivered if the call gives a packet.
  pub record Tallied (waiting : ℕ) (p : Peer) (result : Outcome L from_socket deserialize)
      : Type 0 where
    pub limited : ℕ
    pub malformed : ℕ
    pub taken : waiting ≡ delivered result.0 + limited + malformed + arrivals result.3
    pub limit_count :
        dropped receive_limit result.1.counters
        ≡ (dropped receive_limit p.counters + limited) % 2 ^ 64
    pub malformed_count :
        dropped malformed_payload result.1.counters
        ≡ (dropped malformed_payload p.counters + malformed) % 2 ^ 64
    pub received_count :
        result.1.counters.received_data_packets
        ≡ (p.counters.received_data_packets
            + (if from_socket then delivered result.0 + limited + malformed else 0))
          % 2 ^ 64

  -- A datagram that the call counts, as limited or as malformed, and then the rest of the call.
  Tallied-suc :
      (waiting a b : ℕ) (p p₁ : Peer) (result : Outcome L from_socket deserialize)
      → a + b ≡ 1
      → dropped receive_limit p₁.counters ≡ (dropped receive_limit p.counters + a) % 2 ^ 64
      → dropped malformed_payload p₁.counters ≡ (dropped malformed_payload p.counters + b) % 2 ^ 64
      → p₁.counters.received_data_packets
        ≡ (p.counters.received_data_packets + (if from_socket then 1 else 0)) % 2 ^ 64
      → Tallied waiting p₁ result
      → Tallied (suc waiting) p result
  Tallied-suc waiting a b p p₁ result one l m r t = record {
    limited = t.limited + a;
    malformed = t.malformed + b;
    taken = omega (arith, t.taken);
    limit_count = omega (arith, t.limit_count);
    malformed_count = omega (arith, t.malformed_count);
    received_count = ground (arith, t.received_count);
  }

  -- The call ends without a packet, and with the counters as they were.
  Tallied-end :
      (p p' : Peer) (r : Option (Result (P × ℕ) (ReceiveError D L))) (c : C) (events : List Event)
      → IsCounted p
      → p'.counters ≡ p.counters
      → delivered r ≡ 0
      → Tallied (arrivals events) p (r, p', c, events)
  Tallied-end p p' r c events v same nothing = record {
    limited = 0;
    malformed = 0;
    taken = omega (arith, nothing);
    limit_count = omega (arith, ap (dropped receive_limit) same, v.limit_word);
    malformed_count = omega (arith, ap (dropped malformed_payload) same, v.malformed_word);
    received_count = ground (arith, ap (λ k. k.received_data_packets) same, v.received_word);
  }

  abbrev after_limit : ℕ → Peer → Peer
  after_limit bytes p = on_counters (count_drop receive_limit) (count_received from_socket bytes p)

  abbrev after_malformed : ℕ → Peer → Peer
  after_malformed bytes p =
      on_counters (count_drop malformed_payload) (count_received from_socket bytes p)

  after_limit-IsCounted : (bytes : ℕ) (p : Peer) → IsCounted p → IsCounted (after_limit bytes p)
  unfolding count_received received_datagram received count_drop
  after_limit-IsCounted bytes p v = record {
    limit_word = omega arith;
    malformed_word = ground (arith, v.malformed_word);
    received_word = ground (arith, v.received_word);
  }

  after_malformed-IsCounted :
      (bytes : ℕ) (p : Peer) → IsCounted p → IsCounted (after_malformed bytes p)
  unfolding count_received received_datagram received count_drop
  after_malformed-IsCounted bytes p v = record {
    limit_word = ground (arith, v.limit_word);
    malformed_word = omega arith;
    received_word = ground (arith, v.received_word);
  }

  limit-Tallied :
      (waiting bytes : ℕ) (p : Peer) (result : Outcome L from_socket deserialize)
      → IsCounted p
      → Tallied waiting (after_limit bytes p) result
      → Tallied (suc waiting) p result
  unfolding count_received received_datagram received count_drop
  limit-Tallied waiting bytes p result v t =
      Tallied-suc waiting 1 0 p (after_limit bytes p) result refl (ground arith)
        (ground (arith, v.malformed_word)) (ground (arith, v.received_word)) t

  malformed-Tallied :
      (waiting bytes : ℕ) (p : Peer) (result : Outcome L from_socket deserialize)
      → IsCounted p
      → Tallied waiting (after_malformed bytes p) result
      → Tallied (suc waiting) p result
  unfolding count_received received_datagram received count_drop
  malformed-Tallied waiting bytes p result v t =
      Tallied-suc waiting 0 1 p (after_malformed bytes p) result refl (ground (arith, v.limit_word))
        (ground arith) (ground (arith, v.received_word)) t

  delivery-Tallied :
      (p : Peer) (payload : List ℕ) (packet : P × ℕ) (c : C) (events : List Event)
      → IsCounted p
      → Tallied
          (suc (arrivals events))
          p
          (some (ok packet), count_received from_socket (length payload) p, c, events)
  unfolding count_received received_datagram received
  delivery-Tallied p payload packet c events v = record {
    limited = 0;
    malformed = 0;
    taken = omega arith;
    limit_count = ground (arith, v.limit_word);
    malformed_count = ground (arith, v.malformed_word);
    received_count = ground (arith, v.received_word);
  }

  module _ (rest : Peer → C → Outcome L from_socket deserialize) (events : List Event)
      (tally : (p : Peer) (c : C) → IsCounted p → Tallied (arrivals events) p (rest p c)) where
    after_decoding-Tallied :
        (p : Peer) (payload : List ℕ) (received_at : ℕ) (d : Result P D × C)
        → IsCounted p
        → Tallied (suc (arrivals events)) p (
            after_decoding L from_socket deserialize rest
              (count_received from_socket (length payload) p)
              received_at
              events
              d)
    unfolding after_decoding
    after_decoding-Tallied p payload received_at (ok packet, c) v =
        delivery-Tallied p payload (packet, received_at) c events v
    after_decoding-Tallied p payload received_at (err e, c) v =
        malformed-Tallied (arrivals events) (length payload) p _ v (
          tally (after_malformed (length payload) p) c
            (after_malformed-IsCounted (length payload) p v))

    take_payload-Tallied :
        (p : Peer) (c : C) (payload : List ℕ) (received_at limit : ℕ)
        → IsCounted p
        → Tallied (suc (arrivals events)) p (
            take_payload L from_socket deserialize rest
              (count_received from_socket (length payload) p)
              c
              payload
              received_at
              limit
              events)
    unfolding take_payload
    take_payload-Tallied p c payload received_at limit v =
        if_elim (Tallied (suc (arrivals events)) p)
          (ltb max_datagram_size_limit (length payload) || ltb limit (length payload)) _ _
          (λ _.
            limit-Tallied (arrivals events) (length payload) p _ v (
              tally (after_limit (length payload) p) c
                (after_limit-IsCounted (length payload) p v)))
          (λ _. after_decoding-Tallied p payload received_at (deserialize payload c) v)

    take_error-Tallied :
        (p : Peer) (c : C) (e : IoError)
        → IsCounted p
        → Tallied (arrivals events) p (take_error L from_socket deserialize rest p c e events)
    unfolding take_error close
    take_error-Tallied p c e v =
        if_elim (Tallied (arrivals events) p) (from_socket && is_retried e) _ _ (λ _. tally p c v)
          (λ _. Tallied-end p (close p) _ c events v refl refl)

  receive_events-Tallied :
      (events : List Event) (p : Peer) (c : C)
      → IsCounted p
      → Tallied (arrivals events) p (receive_events L from_socket deserialize events p c)
  unfolding receive_events close
  receive_events-Tallied [] p c v = Tallied-end p p none c [] v refl refl
  receive_events-Tallied (cancelled ∷ events) p c v = Tallied-end p (close p) _ c events v refl refl
  receive_events-Tallied (failed e ∷ events) p c v =
      take_error-Tallied (receive_events L from_socket deserialize events) events
        (receive_events-Tallied events) p c e v
  receive_events-Tallied (datagram payload received_at limit ∷ events) p c v =
      take_payload-Tallied (receive_events L from_socket deserialize events) events
        (receive_events-Tallied events) p c payload received_at limit v

  -- Of the datagrams that a call of the read half takes, each is delivered, or counted once as above
  -- a limit or as malformed; and a client counts each of them as received. Counters are 64-bit words.
  pub receive_datagram-Tallied :
      (events : List Event) (p : Peer) (c : C)
      → IsCounted p
      → Tallied (arrivals events) p (receive_datagram L from_socket deserialize events p c)
  unfolding receive_datagram
  receive_datagram-Tallied events p c v =
      if_elim (Tallied (arrivals events) p) p.is_closed _ _
        (λ _. Tallied-end p p _ c events v refl refl) (λ _. receive_events-Tallied events p c v)
