-- ===== src/Connection/Reader/Order.antt =====
-- The packets of a stream between the transport and the ECS in the reading task of client.rs and
-- server.rs.
use bevy_slinet.Common.{
  ℕ, ◌≤◌, ◌≡◌, refl, sym, ap, subst, ◌∙◌, Bool, true, false, List, [], ◌∷◌, ◌++◌, Result, ok, err,
  if◌then◌else◌, if_elim, length, arith, append-nil, append_assoc,
}
use bevy_slinet.Queue.Lossy.{Poll, pending, ready}
use bevy_slinet.Protocols.Framing.{ReceiveError, io, intentional_disconnection}
use bevy_slinet.Protocols.Transport.{TransportHandle}
use bevy_slinet.Connection.Reader.{
  PacketReceiveEvent, ReaderMessage, stream_packet, closed, SendErrorCell, waiting, arrived, taken,
  ReaderPhase, selecting, forwarding, closing, reporting, finished, Reading, Happening,
  writer_failed, token_cancelled, others_leave, stopped, polled, ReaderTask, end_loop, poll_forward,
  handle_packet, after_receive, poll_select, poll_closing, poll_reporting, poll_reader, reader_step,
  receive_packets,
}

none_lost : {A : Type 0} (lost : List A) → length lost ≤ 0 → lost ≡ []
none_lost [] h = refl
none_lost (e ∷ lost) h = absurd (omega arith)

module _ {P D L H : Type 0} (transport : TransportHandle H) (task : ReaderTask) where
  -- The packets among the messages, and the one that waits for the ECS.
  abbrev pub packets_in : List (ReaderMessage P D L) → List (PacketReceiveEvent P)
  packets_in [] = []
  packets_in (stream_packet e ∷ rest) = e ∷ packets_in rest
  packets_in (closed error id ∷ rest) = packets_in rest

  abbrev pub held : ReaderPhase P D L → List (PacketReceiveEvent P)
  held selecting = []
  held (forwarding event) = event ∷ []
  held (closing error) = []
  held reporting = []
  held finished = []

  -- The packet that the transport gives at a poll in the loop, unless the task ends there.
  abbrev pub given : Poll (Result (P × ℕ) (ReceiveError D L)) → Bool → List (PacketReceiveEvent P)
  given (ready (ok (packet, at))) false =
      record { connection = task.id; packet = packet; received_at = at } ∷ []
  given _ _ = []

  abbrev pub given_to :
      ReaderPhase P D L
      → SendErrorCell
      → Poll (Result (P × ℕ) (ReceiveError D L))
      → Bool
      → List (PacketReceiveEvent P)
  given_to selecting waiting received cancelled = given received cancelled
  given_to selecting taken received cancelled = given received cancelled
  given_to _ _ _ _ = []

  abbrev pub given_at : Happening P D L → Reading P D L H → List (PacketReceiveEvent P)
  given_at (polled received channel) s = given_to s.phase s.send_error received s.is_cancelled
  given_at _ s = []

  -- Every packet that the transport gives, in order.
  abbrev pub given_in : List (Happening P D L) → Reading P D L H → List (PacketReceiveEvent P)
  given_in [] s = []
  given_in (happening ∷ rest) s =
      given_at happening s ++ given_in rest (reader_step transport task happening s)

  abbrev pub may_lose : ReaderPhase P D L → ℕ
  may_lose selecting = 0
  may_lose (forwarding event) = 0
  may_lose (closing error) = 1
  may_lose reporting = 1
  may_lose finished = 1

  -- The packets that were given are those sent to the ECS, then the one that waits, then those lost.
  pub record Ordered (packets : List (PacketReceiveEvent P)) (s : Reading P D L H) : Type 0 where
    pub lost : List (PacketReceiveEvent P)
    pub order : packets ≡ packets_in s.sent ++ (held s.phase ++ lost)
    pub few : length lost ≤ may_lose s.phase

  packets_in-append :
      (sent : List (ReaderMessage P D L)) (m : ReaderMessage P D L)
      → packets_in (sent ++ (m ∷ [])) ≡ packets_in sent ++ packets_in (m ∷ [])
  packets_in-append [] m = sym refl
  packets_in-append (stream_packet e ∷ sent) m = ap (◌∷◌ e) (packets_in-append sent m)
  packets_in-append (closed error id ∷ sent) m = packets_in-append sent m

  poll_forward-Ordered :
      (packets : List (PacketReceiveEvent P)) (event : PacketReceiveEvent P) (channel : Poll Bool)
      (s : Reading P D L H)
      → packets ≡ packets_in s.sent ++ (event ∷ [])
      → Ordered packets (poll_forward transport task event channel s)
  unfolding poll_forward end_loop
  poll_forward-Ordered packets event pending s h =
      if_elim (Ordered packets) s.is_cancelled _ _
        (λ _. record { lost = event ∷ []; order = h; few = omega arith })
        (λ _. record { lost = []; order = h; few = omega arith })
  poll_forward-Ordered packets event (ready accepted) s h =
      if_elim (Ordered packets) s.is_cancelled _ _
        (λ _. record { lost = event ∷ []; order = h; few = omega arith })
        (λ _.
          if_elim (Ordered packets) accepted _ _
            (λ _. record {
              lost = [];
              order =
                  h
                  ∙ sym (packets_in-append s.sent (stream_packet event))
                  ∙ sym (append-nil (packets_in (s.sent ++ (stream_packet event ∷ []))));
              few = omega arith;
            })
            (λ _. record { lost = event ∷ []; order = h; few = omega arith }))

  -- In the loop nothing is lost.
  all_sent :
      (packets : List (PacketReceiveEvent P)) (s : Reading P D L H) (phase : ReaderPhase P D L)
      → s.phase ≡ phase
      → may_lose phase ≡ 0
      → Ordered packets s
      → packets ≡ packets_in s.sent ++ held phase
  all_sent packets s phase e z o =
      let few : length o.lost ≤ 0 = omega (arith, o.few, ap may_lose e, z) in
      o.order
      ∙ ap (λ l. packets_in s.sent ++ (held s.phase ++ l)) (none_lost o.lost few)
      ∙ ap (λ l. packets_in s.sent ++ l) (append-nil (held s.phase) ∙ ap held e)

  end_loop-Ordered :
      (packets : List (PacketReceiveEvent P)) (error : ReceiveError D L) (s : Reading P D L H)
      → packets ≡ packets_in s.sent
      → Ordered (packets ++ []) (end_loop transport task error s)
  unfolding end_loop
  end_loop-Ordered packets error s h = record {
    lost = [];
    order = append-nil packets ∙ h ∙ sym (append-nil (packets_in s.sent));
    few = omega arith;
  }

  after_receive-Ordered :
      (packets : List (PacketReceiveEvent P)) (received : Poll (Result (P × ℕ) (ReceiveError D L)))
      (channel : Poll Bool) (s : Reading P D L H)
      → task.datagram ≡ false
      → packets ≡ packets_in s.sent
      → Ordered packets s
      → Ordered (packets ++ given received false) (after_receive transport task received channel s)
  unfolding after_receive handle_packet
  after_receive-Ordered packets pending channel s d h o =
      subst (λ l. Ordered l s) (sym (append-nil packets)) o
  after_receive-Ordered packets (ready (ok (packet, at))) channel s d h o =
      let e : PacketReceiveEvent P = record {
        connection = task.id;
        packet = packet;
        received_at = at;
      } in
      if_elim (Ordered (packets ++ (e ∷ []))) task.datagram _ _ (λ t. absurd (cc (t, d)))
        (λ _. poll_forward-Ordered (packets ++ (e ∷ [])) e channel s (ap (λ l. l ++ (e ∷ [])) h))
  after_receive-Ordered packets (ready (err error)) channel s d h o =
      end_loop-Ordered packets error s h

  -- A poll in the loop whose error cell is empty.
  select-Ordered :
      (packets : List (PacketReceiveEvent P)) (received : Poll (Result (P × ℕ) (ReceiveError D L)))
      (channel : Poll Bool) (s : Reading P D L H) (error : ReceiveError D L)
      → task.datagram ≡ false
      → packets ≡ packets_in s.sent
      → Ordered packets s
      → Ordered (packets ++ given received s.is_cancelled) (
          if s.is_cancelled
          then end_loop transport task error s
          else after_receive transport task received channel s)
  select-Ordered packets received channel s error d h o =
      if_elim (Ordered (packets ++ given received s.is_cancelled)) s.is_cancelled _ _
        (λ c.
          subst (λ l. Ordered (packets ++ l) (end_loop transport task error s))
            (nothing received ∙ ap (given received) (sym c)) (end_loop-Ordered packets error s h))
        (λ c.
          subst
            (λ b.
              Ordered (packets ++ given received b)
                (after_receive transport task received channel s))
            (sym c) (after_receive-Ordered packets received channel s d h o))
    where
      nothing : (r : Poll (Result (P × ℕ) (ReceiveError D L))) → [] ≡ given r true
      nothing pending = refl
      nothing (ready (ok p)) = refl
      nothing (ready (err e)) = refl

  poll_select-Ordered :
      (packets : List (PacketReceiveEvent P)) (cell : SendErrorCell)
      (received : Poll (Result (P × ℕ) (ReceiveError D L))) (channel : Poll Bool)
      (s : Reading P D L H)
      → task.datagram ≡ false
      → packets ≡ packets_in s.sent
      → Ordered packets s
      → Ordered
          (packets ++ given_to selecting cell received s.is_cancelled)
          (poll_select transport task cell received channel s)
  unfolding poll_select
  poll_select-Ordered packets (arrived e) received channel s d h o =
      end_loop-Ordered packets (io e) (record s { send_error = taken }) h
  poll_select-Ordered packets waiting received channel s d h o =
      select-Ordered packets received channel s intentional_disconnection d h o
  poll_select-Ordered packets taken received channel s d h o =
      select-Ordered packets received channel s intentional_disconnection d h o

  -- A step that gives no packet and keeps those sent, held and lost together.
  settled :
      (packets lost : List (PacketReceiveEvent P)) (s : Reading P D L H)
      → packets ≡ packets_in s.sent ++ (held s.phase ++ lost)
      → length lost ≤ may_lose s.phase
      → Ordered (packets ++ []) s
  settled packets lost s h few = record { lost = lost; order = append-nil packets ∙ h; few = few }

  poll_closing-Ordered :
      (packets : List (PacketReceiveEvent P)) (error : ReceiveError D L) (channel : Poll Bool)
      (s : Reading P D L H)
      → s.phase ≡ closing error
      → Ordered packets s
      → Ordered (packets ++ []) (poll_closing transport task error channel s)
  unfolding poll_closing
  poll_closing-Ordered packets error pending s p o = settled packets o.lost s o.order o.few
  poll_closing-Ordered packets error (ready accepted) s p o =
      settled packets o.lost _
        (by_now
          ∙ sent_more
          ∙ ap (λ l. packets_in sent_now ++ (l ++ o.lost))
              (sym (
                if_elim (λ q. held q ≡ []) task.is_server reporting finished (λ _. refl)
                  (λ _. refl))))
        (omega (
          arith,
          o.few,
          ap may_lose p,
          if_elim (λ q. may_lose q ≡ 1) task.is_server reporting finished (λ _. refl) (λ _. refl),
        ))
    where
      sent_now : List (ReaderMessage P D L)
      sent_now = if accepted then s.sent ++ (closed error task.id ∷ []) else s.sent

      by_now : packets ≡ packets_in s.sent ++ o.lost
      by_now = o.order ∙ ap (λ q. packets_in s.sent ++ (held q ++ o.lost)) p

      sent_more : packets_in s.sent ++ o.lost ≡ packets_in sent_now ++ o.lost
      sent_more =
          if_elim (λ l. packets_in s.sent ++ o.lost ≡ packets_in l ++ o.lost) accepted
            (s.sent ++ (closed error task.id ∷ [])) s.sent
            (λ _.
              ap (λ l. l ++ o.lost)
                (sym (
                  packets_in-append s.sent (closed error task.id)
                  ∙ append-nil (packets_in s.sent))))
            (λ _. refl)

  poll_reporting-Ordered :
      (packets : List (PacketReceiveEvent P)) (channel : Poll Bool) (s : Reading P D L H)
      → s.phase ≡ reporting
      → Ordered packets s
      → Ordered (packets ++ []) (poll_reporting transport task channel s)
  unfolding poll_reporting
  poll_reporting-Ordered packets pending s p o = settled packets o.lost s o.order o.few
  poll_reporting-Ordered packets (ready accepted) s p o =
      settled packets o.lost _ (o.order ∙ ap (λ q. packets_in s.sent ++ (held q ++ o.lost)) p)
        (omega (arith, o.few, ap may_lose p))

  poll_reader-Ordered :
      (packets : List (PacketReceiveEvent P)) (phase : ReaderPhase P D L)
      (received : Poll (Result (P × ℕ) (ReceiveError D L))) (channel : Poll Bool)
      (s : Reading P D L H)
      → task.datagram ≡ false
      → s.phase ≡ phase
      → Ordered packets s
      → Ordered
          (packets ++ given_to phase s.send_error received s.is_cancelled)
          (poll_reader transport task phase received channel s)
  unfolding poll_reader
  poll_reader-Ordered packets selecting received channel s d p o =
      poll_select-Ordered packets s.send_error received channel s d
        (all_sent packets s selecting p refl o ∙ append-nil (packets_in s.sent)) o
  poll_reader-Ordered packets (forwarding event) received channel s d p o =
      poll_forward-Ordered (packets ++ []) event channel s
        (append-nil packets ∙ all_sent packets s (forwarding event) p refl o)
  poll_reader-Ordered packets (closing error) received channel s d p o =
      poll_closing-Ordered packets error channel s p o
  poll_reader-Ordered packets reporting received channel s d p o =
      poll_reporting-Ordered packets channel s p o
  poll_reader-Ordered packets finished received channel s d p o =
      settled packets o.lost s o.order o.few

  -- The runtime may drop the task with a packet in hand.
  stop-Ordered :
      (packets : List (PacketReceiveEvent P)) (phase : ReaderPhase P D L) (s : Reading P D L H)
      → s.phase ≡ phase
      → Ordered packets s
      → Ordered (packets ++ []) (record s { phase = finished; is_cancelled = true })
  stop-Ordered packets (forwarding event) s p o =
      settled packets (event ∷ []) _ (all_sent packets s (forwarding event) p refl o) (omega arith)
  stop-Ordered packets selecting s p o =
      settled packets o.lost _ (o.order ∙ ap (λ q. packets_in s.sent ++ (held q ++ o.lost)) p)
        (omega (arith, o.few, ap may_lose p))
  stop-Ordered packets (closing error) s p o =
      settled packets o.lost _ (o.order ∙ ap (λ q. packets_in s.sent ++ (held q ++ o.lost)) p)
        (omega (arith, o.few, ap may_lose p))
  stop-Ordered packets reporting s p o =
      settled packets o.lost _ (o.order ∙ ap (λ q. packets_in s.sent ++ (held q ++ o.lost)) p)
        (omega (arith, o.few, ap may_lose p))
  stop-Ordered packets finished s p o =
      settled packets o.lost _ (o.order ∙ ap (λ q. packets_in s.sent ++ (held q ++ o.lost)) p)
        (omega (arith, o.few, ap may_lose p))

  reader_step-Ordered :
      (packets : List (PacketReceiveEvent P)) (happening : Happening P D L) (s : Reading P D L H)
      → task.datagram ≡ false
      → Ordered packets s
      → Ordered (packets ++ given_at happening s) (reader_step transport task happening s)
  unfolding reader_step
  reader_step-Ordered packets (writer_failed e) s d o = settled packets o.lost _ o.order o.few
  reader_step-Ordered packets token_cancelled s d o = settled packets o.lost _ o.order o.few
  reader_step-Ordered packets (others_leave q) s d o = settled packets o.lost _ o.order o.few
  reader_step-Ordered packets stopped s d o = stop-Ordered packets s.phase s refl o
  reader_step-Ordered packets (polled received channel) s d o =
      poll_reader-Ordered packets s.phase received channel s d refl o

  -- On a stream every packet that the transport gives is sent to the ECS, in order and once, but for
  -- one at most: the packet in hand when the loop ends. In the loop nothing is lost: at most one
  -- packet waits, and it is the last that was given.
  pub receive_packets-Ordered :
      (happenings : List (Happening P D L)) (packets : List (PacketReceiveEvent P))
      (s : Reading P D L H)
      → task.datagram ≡ false
      → Ordered packets s
      → Ordered (packets ++ given_in happenings s) (receive_packets transport task happenings s)
  unfolding receive_packets
  receive_packets-Ordered [] packets s d o = settled packets o.lost s o.order o.few
  receive_packets-Ordered (happening ∷ rest) packets s d o =
      subst (λ l. Ordered l (receive_packets transport task (happening ∷ rest) s))
        (append_assoc packets (given_at happening s)
          (given_in rest (reader_step transport task happening s)))
        (receive_packets-Ordered rest (packets ++ given_at happening s)
          (reader_step transport task happening s) d (reader_step-Ordered packets happening s d o))
