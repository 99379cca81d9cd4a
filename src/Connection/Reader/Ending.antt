-- ===== src/Connection/Reader/Ending.antt =====
-- How the reading task of client.rs and server.rs ends: what it tells the ECS and the listener, and
-- that it does end.
use bevy_slinet.Common.{
  ℕ, ◌≤◌, ◌≡◌, ◌⊎◌, inl, inr, refl, ap, Bool, true, List, [], ◌∷◌, ◌++◌, Result, ok, err,
  if◌then◌else◌, if_elim, Bool-cases, length, arith, All,
}
use bevy_slinet.Queue.Lossy.{Shared, Poll, pending, ready}
use bevy_slinet.Protocols.Framing.{ReceiveError, io, intentional_disconnection}
use bevy_slinet.Protocols.Transport.{TransportHandle}
use bevy_slinet.Connection.Reader.{
  PacketReceiveEvent, ReaderMessage, stream_packet, closed, SendErrorCell, waiting, arrived, taken,
  ReaderPhase, selecting, forwarding, closing, reporting, finished, Reading, Happening,
  writer_failed, token_cancelled, others_leave, stopped, polled, ReaderTask, end_loop,
  keep_forwarded, after_queueing, poll_forward, handle_packet, after_receive, poll_select,
  poll_closing, poll_reporting, poll_reader, reader_step, receive_packets,
}

module _ {P D L H : Type 0} (transport : TransportHandle H) (task : ReaderTask) where
  abbrev pub IsPacket : ReaderMessage P D L → Type 0
  IsPacket (stream_packet e) = Unit
  IsPacket (closed error id) = ⊥

  -- Packets, and perhaps the connection's closing message after them.
  abbrev pub IsTranscript : List (ReaderMessage P D L) → Type 0
  IsTranscript sent =
      All IsPacket sent
      ⊎ ((front : List (ReaderMessage P D L)) × (error : ReceiveError D L) × (sent
            ≡ front ++ (closed error task.id ∷ []))
          × All IsPacket front)

  -- The read half is closed once the closing message is sent or the listener is told.
  abbrev pub ShutOnceTold : List (ReaderMessage P D L) → Bool → List ℕ → Type 0
  ShutOnceTold sent shut addresses = (All IsPacket sent × (addresses ≡ [])) ⊎ (shut ≡ true)

  -- What holds in a phase of the messages, the token, the read half and the listener's addresses.
  abbrev pub InPhase :
      ReaderPhase P D L → List (ReaderMessage P D L) → Bool → Bool → List ℕ → Type 0
  InPhase selecting sent cancelled shut addresses = All IsPacket sent × (addresses ≡ [])
  InPhase (forwarding event) sent cancelled shut addresses = All IsPacket sent × (addresses ≡ [])
  InPhase (closing error) sent cancelled shut addresses =
      All IsPacket sent × (cancelled ≡ true) × (shut ≡ true) × (addresses ≡ [])
  InPhase reporting sent cancelled shut addresses =
      IsTranscript sent × (cancelled ≡ true) × (shut ≡ true) × (addresses ≡ [])
  InPhase finished sent cancelled shut addresses =
      IsTranscript sent
      × (cancelled ≡ true)
      × (length addresses ≤ 1)
      × ShutOnceTold sent shut addresses

  abbrev pub IsValid : Reading P D L H → Type 0
  IsValid s = InPhase s.phase s.sent s.is_cancelled s.is_closed s.disconnects

  All-append :
      (sent : List (ReaderMessage P D L)) (e : PacketReceiveEvent P)
      → All IsPacket sent
      → All IsPacket (sent ++ (stream_packet e ∷ []))
  All-append [] e h = (tt, tt)
  All-append (m ∷ sent) e (h, rest) = (h, All-append sent e rest)

  -- A task that is still in its loop.
  abbrev pub InLoop : Reading P D L H → Type 0
  InLoop s = All IsPacket s.sent × (s.disconnects ≡ [])

  end_loop-IsValid :
      (error : ReceiveError D L) (s : Reading P D L H)
      → InLoop s
      → IsValid (end_loop transport task error s)
  unfolding end_loop
  end_loop-IsValid error s (packets, none_told) = (packets, refl, refl, none_told)

  poll_forward-IsValid :
      (event : PacketReceiveEvent P) (channel : Poll Bool) (s : Reading P D L H)
      → InLoop s
      → IsValid (poll_forward transport task event channel s)
  unfolding poll_forward
  poll_forward-IsValid event pending s h =
      if_elim (λ r. IsValid r) s.is_cancelled _ _
        (λ _. end_loop-IsValid intentional_disconnection s h) (λ _. h)
  poll_forward-IsValid event (ready accepted) s h =
      if_elim (λ r. IsValid r) s.is_cancelled _ _
        (λ _. end_loop-IsValid intentional_disconnection s h)
        (λ _.
          if_elim (λ r. IsValid r) accepted _ _ (λ _. (All-append s.sent event h.0, h.1))
            (λ _. end_loop-IsValid intentional_disconnection s h))

  after_queueing-IsValid :
      (s : Reading P D L H)
      (r : Bool × List (PacketReceiveEvent P) × Shared (PacketReceiveEvent P) × H)
      → InLoop s
      → IsValid (after_queueing transport task s r)
  unfolding after_queueing
  after_queueing-IsValid s (go, evicted, q, h) l =
      if_elim (λ r. IsValid r) go _ _ (λ _. l)
        (λ _.
          end_loop-IsValid intentional_disconnection (keep_forwarded transport task evicted q h s)
            l)

  after_receive-IsValid :
      (received : Poll (Result (P × ℕ) (ReceiveError D L))) (channel : Poll Bool)
      (s : Reading P D L H)
      → InLoop s
      → IsValid s
      → IsValid (after_receive transport task received channel s)
  unfolding after_receive handle_packet
  after_receive-IsValid pending channel s l h = h
  after_receive-IsValid (ready (ok (packet, at))) channel s l h =
      if_elim (λ r. IsValid r) task.datagram _ _ (λ _. after_queueing-IsValid s _ l)
        (λ _. poll_forward-IsValid _ channel s l)
  after_receive-IsValid (ready (err error)) channel s l h = end_loop-IsValid error s l

  poll_select-IsValid :
      (cell : SendErrorCell) (received : Poll (Result (P × ℕ) (ReceiveError D L)))
      (channel : Poll Bool) (s : Reading P D L H)
      → InLoop s
      → IsValid s
      → IsValid (poll_select transport task cell received channel s)
  unfolding poll_select
  poll_select-IsValid (arrived e) received channel s l h =
      end_loop-IsValid (io e) (record s { send_error = taken }) l
  poll_select-IsValid waiting received channel s l h =
      if_elim (λ r. IsValid r) s.is_cancelled _ _
        (λ _. end_loop-IsValid intentional_disconnection s l)
        (λ _. after_receive-IsValid received channel s l h)
  poll_select-IsValid taken received channel s l h =
      if_elim (λ r. IsValid r) s.is_cancelled _ _
        (λ _. end_loop-IsValid intentional_disconnection s l)
        (λ _. after_receive-IsValid received channel s l h)

  -- A closing message at the end of the packets.
  poll_closing-IsValid :
      (error : ReceiveError D L) (channel : Poll Bool) (s : Reading P D L H)
      → InPhase (closing error) s.sent s.is_cancelled s.is_closed s.disconnects
      → IsValid s
      → IsValid (poll_closing transport task error channel s)
  unfolding poll_closing
  poll_closing-IsValid error pending s c h = h
  poll_closing-IsValid error (ready accepted) s (packets, cancelled, shut, none_told) h =
      elim (Bool-cases task.is_server) [
        | inl server ↦ rw server (ending, cancelled, shut, none_told)
        | inr client ↦ rw client (ending, cancelled, omega (arith, ap length none_told), inr shut)
      ]
    where
      ending : IsTranscript (if accepted then s.sent ++ (closed error task.id ∷ []) else s.sent)
      ending =
          if_elim (λ l. IsTranscript l) accepted _ _ (λ _. inr (s.sent, error, refl, packets))
            (λ _. inl packets)

  poll_reporting-IsValid :
      (channel : Poll Bool) (s : Reading P D L H)
      → InPhase reporting s.sent s.is_cancelled s.is_closed s.disconnects
      → IsValid s
      → IsValid (poll_reporting transport task channel s)
  unfolding poll_reporting
  poll_reporting-IsValid pending s r h = h
  poll_reporting-IsValid (ready accepted) s (sent, cancelled, shut, none_told) h = (
    sent,
    cancelled,
    if_elim (λ l. length l ≤ 1) accepted (task.peer_addr ∷ s.disconnects) s.disconnects
        (λ _. omega (arith, ap length none_told)) (λ _. omega (arith, ap length none_told)),
    inr shut,
  )

  poll_reader-IsValid :
      (phase : ReaderPhase P D L) (received : Poll (Result (P × ℕ) (ReceiveError D L)))
      (channel : Poll Bool) (s : Reading P D L H)
      → InPhase phase s.sent s.is_cancelled s.is_closed s.disconnects
      → IsValid s
      → IsValid (poll_reader transport task phase received channel s)
  unfolding poll_reader
  poll_reader-IsValid selecting received channel s p h =
      poll_select-IsValid s.send_error received channel s p h
  poll_reader-IsValid (forwarding event) received channel s p h =
      poll_forward-IsValid event channel s p
  poll_reader-IsValid (closing error) received channel s p h =
      poll_closing-IsValid error channel s p h
  poll_reader-IsValid reporting received channel s p h = poll_reporting-IsValid channel s p h
  poll_reader-IsValid finished received channel s p h = h

  cancelled_InPhase :
      (phase : ReaderPhase P D L) (sent : List (ReaderMessage P D L)) (cancelled shut : Bool)
      (addresses : List ℕ)
      → InPhase phase sent cancelled shut addresses
      → InPhase phase sent true shut addresses
  cancelled_InPhase selecting sent cancelled shut addresses h = h
  cancelled_InPhase (forwarding event) sent cancelled shut addresses h = h
  cancelled_InPhase (closing error) sent cancelled shut addresses h = (h.0, refl, h.2, h.3)
  cancelled_InPhase reporting sent cancelled shut addresses h = (h.0, refl, h.2, h.3)
  cancelled_InPhase finished sent cancelled shut addresses h = (h.0, refl, h.2, h.3)

  stopped_InPhase :
      (phase : ReaderPhase P D L) (sent : List (ReaderMessage P D L)) (cancelled shut : Bool)
      (addresses : List ℕ)
      → InPhase phase sent cancelled shut addresses
      → InPhase finished sent true shut addresses
  stopped_InPhase selecting sent cancelled shut addresses h =
      (inl h.0, refl, omega (arith, ap length h.1), inl (h.0, h.1))
  stopped_InPhase (forwarding event) sent cancelled shut addresses h =
      (inl h.0, refl, omega (arith, ap length h.1), inl (h.0, h.1))
  stopped_InPhase (closing error) sent cancelled shut addresses h =
      (inl h.0, refl, omega (arith, ap length h.3), inr h.2)
  stopped_InPhase reporting sent cancelled shut addresses h =
      (h.0, refl, omega (arith, ap length h.3), inr h.2)
  stopped_InPhase finished sent cancelled shut addresses h = (h.0, refl, h.2, h.3)

  reader_step-IsValid :
      (happening : Happening P D L) (s : Reading P D L H)
      → IsValid s
      → IsValid (reader_step transport task happening s)
  unfolding reader_step
  reader_step-IsValid (writer_failed e) s h = h
  reader_step-IsValid token_cancelled s h =
      cancelled_InPhase s.phase s.sent s.is_cancelled s.is_closed s.disconnects h
  reader_step-IsValid (others_leave q) s h = h
  reader_step-IsValid stopped s h =
      stopped_InPhase s.phase s.sent s.is_cancelled s.is_closed s.disconnects h
  reader_step-IsValid (polled received channel) s h =
      poll_reader-IsValid s.phase received channel s h h

  -- Whatever happens, a reading task tells the ECS of packets and, once at most and after every
  -- packet, that the connection is closed. From the end of its loop on the connection's token is
  -- cancelled. Its read half is closed from then until the task ends, and at the end too if the
  -- closing message was sent or the listener told. The listener is told of the peer once at most,
  -- after the closing message was sent or refused.
  pub receive_packets-IsValid :
      (happenings : List (Happening P D L)) (s : Reading P D L H)
      → IsValid s
      → IsValid (receive_packets transport task happenings s)
  unfolding receive_packets
  receive_packets-IsValid [] s h = h
  receive_packets-IsValid (happening ∷ rest) s h =
      receive_packets-IsValid rest (reader_step transport task happening s)
        (reader_step-IsValid happening s h)

  pub IsValid-IsTranscript : (s : Reading P D L H) → IsValid s → IsTranscript s.sent
  IsValid-IsTranscript s h = go s.phase s.sent s.is_cancelled s.is_closed s.disconnects h
    where
      go :
          (phase : ReaderPhase P D L) (sent : List (ReaderMessage P D L)) (cancelled shut : Bool)
          (addresses : List ℕ)
          → InPhase phase sent cancelled shut addresses
          → IsTranscript sent
      go selecting sent cancelled shut addresses p = inl p.0
      go (forwarding event) sent cancelled shut addresses p = inl p.0
      go (closing error) sent cancelled shut addresses p = inl p.0
      go reporting sent cancelled shut addresses p = p.0
      go finished sent cancelled shut addresses p = p.0
