-- ===== src/Protocols/Udp/Stream/Delivery.antt =====
-- What the write half of protocols/udp/stream.rs reports of a packet, and which errors end it.
use bevy_slinet.Common.{
  ℕ, ◌<◌, ◌≤◌, arith, ◌≢◌, false, ap, ◌≡◌, ◌⊎◌, inl, inr, refl, true, not, ◌||◌, none, some, List,
  Result, ok, err, if_elim, ltb, ◌==◌, length,
}
use bevy_slinet.Protocols.Framing.{IoError, other, codec_failed}
use bevy_slinet.Protocols.Udp.Diagnostics.{
  oversized_payload, socket_send_error, count_drop, data_sent,
}
use bevy_slinet.Protocols.Udp.Peer.{Peer, close}
use bevy_slinet.Protocols.Udp.Pacing.{Waited, go_at, aborted, still_waiting, DataPacer, wait}
use bevy_slinet.Protocols.Udp.Stream.{
  SocketSend, cancelled_sending, socket_result, after_socket, send_datagram, after_send_datagram,
  Surroundings, Sending, after_wait, after_encoding, send_packet,
}

-- The socket did not take the datagram whole.
abbrev pub IsLost : List ℕ → SocketSend → Type 0
IsLost payload cancelled_sending = ⊥
IsLost payload (socket_result (err e)) = Unit
IsLost payload (socket_result (ok n)) = n ≢ length payload

-- A datagram that the socket took whole is counted by its bytes, and otherwise nothing is.
abbrev Attempted : List ℕ → SocketSend → Peer → Result (Unit {0}) IoError × Peer → Type 0
Attempted payload outcome p (ok u, p') =
    (p'.counters ≡ data_sent (length payload) p.counters)
    × (outcome ≡ socket_result (ok (length payload)))
Attempted payload outcome p (err e, p') =
    (p'.counters ≡ p.counters) × ((p'.is_closed ≡ true) ⊎ IsLost payload outcome)

after_socket-Attempted :
    (payload : List ℕ) (p : Peer) (outcome : SocketSend)
    → Attempted payload outcome p (after_socket payload p outcome)
unfolding after_socket close
after_socket-Attempted payload p cancelled_sending = (refl, inl refl)
after_socket-Attempted payload p (socket_result (err e)) = (refl, inr tt)
after_socket-Attempted payload p (socket_result (ok n)) =
    if_elim (Attempted payload (socket_result (ok n)) p) (not (n == length payload)) _ _
      (λ part. (refl, inr (ground (arith, part))))
      (λ whole. (refl, ap (λ k. socket_result (ok k)) (ground (arith, whole))))

send_datagram-Attempted :
    (payload : List ℕ) (p : Peer) (outcome : SocketSend)
    → Attempted payload outcome p (send_datagram payload outcome p)
unfolding send_datagram
send_datagram-Attempted payload p outcome =
    if_elim (Attempted payload outcome p) p.is_closed _ _ (λ shut. (refl, inl shut))
      (λ _. after_socket-Attempted payload p outcome)

module _ {P C E : Type 0} (serialize : P → C → Result (List ℕ) E × C) (max_payload : ℕ) where
  -- The counters after a payload was sent, by what became of it: it is above the limit, or the socket
  -- took it whole, or the socket did not and no one closed the peer.
  abbrev pub CountedFor : List ℕ → Surroundings → Peer → Peer → Type 0
  CountedFor payload s p p' =
      ((max_payload < length payload) × (p'.counters ≡ count_drop oversized_payload p.counters))
      ⊎ ((length payload ≤ max_payload)
          × (s.outcome ≡ socket_result (ok (length payload)))
          × (p'.counters ≡ data_sent (length payload) p.counters))
      ⊎ ((length payload ≤ max_payload)
          × IsLost payload s.outcome
          × (s.closes ≡ false)
          × (p'.counters ≡ count_drop socket_send_error p.counters))

  -- What is reported, by what the codec makes of the packet. An error is counted nowhere, and comes
  -- from the codec or leaves a closed peer.
  abbrev pub Reported :
      Result (List ℕ) E → Surroundings → Peer → Sending serialize max_payload → Type 0
  Reported r s p (none, p', pacer, c) =
      (p' ≡ p) × (payload : List ℕ) × (r ≡ ok payload) × (length payload ≤ max_payload)
  Reported r s p (some (ok u), p', pacer, c) =
      (payload : List ℕ) × (r ≡ ok payload) × CountedFor payload s p p'
  Reported r s p (some (err e), p', pacer, c) =
      (p'.counters ≡ p.counters)
      × ((p'.is_closed ≡ true) ⊎ ((e ≡ other codec_failed) × (error : E) × (r ≡ err error)))

  attempt-Reported :
      (payload : List ℕ) (s : Surroundings) (p : Peer) (pacer : DataPacer) (c : C)
      (r : Result (Unit {0}) IoError × Peer)
      → length payload ≤ max_payload
      → Attempted payload s.outcome p r
      → Reported
          (ok payload)
          s
          p
          (some (after_send_datagram s.closes r).0, (after_send_datagram s.closes r).1, pacer, c)
  unfolding after_send_datagram close count_drop
  attempt-Reported payload s p pacer c (ok u, p') small (counted, whole) =
      (payload, refl, inr (inl (small, whole, counted)))
  attempt-Reported payload s p pacer c (err e, p') small (kept, cause) =
      if_elim
        (λ (t : Result (Unit {0}) IoError × Peer).
          Reported (ok payload) s p (some t.0, t.1, pacer, c))
        (p'.is_closed || s.closes) (err e, close p') _ (λ _. (kept, inl refl))
        (λ stays. (
          payload,
          refl,
          inr (
              inr (
                small,
                lost stays cause,
                ground (arith, stays),
                ap (count_drop socket_send_error) kept,
              )),
        ))
    where
      lost :
          (p'.is_closed || s.closes) ≡ false
          → (p'.is_closed ≡ true) ⊎ IsLost payload s.outcome
          → IsLost payload s.outcome
      lost stays (inl shut) = absurd (ground (arith, stays, shut))
      lost stays (inr l) = l

  after_wait-Reported :
      (payload : List ℕ) (s : Surroundings) (p : Peer) (pacer : DataPacer) (c : C) (w : Waited)
      → length payload ≤ max_payload
      → Reported (ok payload) s p (after_wait serialize max_payload payload s p pacer c w)
  unfolding after_wait close
  after_wait-Reported payload s p pacer c still_waiting small = (refl, payload, refl, small)
  after_wait-Reported payload s p pacer c aborted small = (refl, inl refl)
  after_wait-Reported payload s p pacer c (go_at t) small =
      attempt-Reported payload s p _ c (send_datagram payload s.outcome p) small
        (send_datagram-Attempted payload p s.outcome)

  after_encoding-Reported :
      (s : Surroundings) (p : Peer) (pacer : DataPacer) (r : Result (List ℕ) E × C)
      → Reported r.0 s p (after_encoding serialize max_payload s p pacer r)
  unfolding after_encoding
  after_encoding-Reported s p pacer (err e, c) = (refl, inr (refl, e, refl))
  after_encoding-Reported s p pacer (ok payload, c) =
      if_elim (Reported (ok payload) s p) (ltb max_payload (length payload)) _ _
        (λ large. (payload, refl, inl (ground (arith, large), refl)))
        (λ small.
          after_wait-Reported payload s p pacer c (wait pacer.previous s.rate s.now s.wakeups)
            (ground (arith, small)))

  -- Sending a packet on a UDP stream, on every branch. If it returns without an error, the packet was
  -- encoded and is counted once: as oversized if it is above the limit, as sent with its bytes if the
  -- socket took all of them, and as a socket error otherwise. If it fails, nothing is counted, and the
  -- codec failed or the peer is closed; while the pacer waits nothing has changed.
  pub send_packet-Reported :
      (packet : P) (s : Surroundings) (p : Peer) (pacer : DataPacer) (c : C)
      → Reported (serialize packet c).0 s p (send_packet serialize max_payload packet s p pacer c)
  unfolding send_packet
  send_packet-Reported packet s p pacer c = after_encoding-Reported s p pacer (serialize packet c)
