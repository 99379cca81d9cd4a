-- ===== src/Connection/Reader/Cause.antt =====
-- The error that the reading task of client.rs and server.rs reports when the writing task failed.
use bevy_slinet.Common.{
  ℕ, ◌≡◌, refl, Bool, List, [], ◌∷◌, ◌++◌, Result, if◌then◌else◌, if_elim, Bool-cases, inl, inr,
  All,
}
use bevy_slinet.Queue.Lossy.{Poll, pending, ready}
use bevy_slinet.Protocols.Framing.{IoError, ReceiveError, io}
use bevy_slinet.Protocols.Transport.{TransportHandle}
use bevy_slinet.Connection.Reader.{
  PacketReceiveEvent, ReaderMessage, stream_packet, closed, SendErrorCell, arrived, ReaderPhase,
  selecting, forwarding, closing, reporting, finished, Reading, Happening, writer_failed,
  token_cancelled, others_leave, stopped, polled, ReaderTask, report_error, end_loop, poll_forward,
  poll_select, poll_closing, poll_reporting, poll_reader, reader_step, receive_packets,
}

module _ {P D L H : Type 0} (transport : TransportHandle H) (task : ReaderTask) where
  -- A closing message, if it is one, has the writer's error.
  abbrev pub IsCause : IoError → ReaderMessage P D L → Type 0
  IsCause e (stream_packet event) = Unit
  IsCause e (closed error id) = error ≡ io e

  -- What a phase knows of the writer's error.
  abbrev pub Knows : IoError → ReaderPhase P D L → SendErrorCell → Type 0
  Knows e selecting cell = cell ≡ arrived e
  Knows e (forwarding event) cell = cell ≡ arrived e
  Knows e (closing error) cell = error ≡ io e
  Knows e reporting cell = Unit
  Knows e finished cell = Unit

  abbrev pub Retains : IoError → Reading P D L H → Type 0
  Retains e s = Knows e s.phase s.send_error × All (IsCause e) s.sent

  causes-append :
      (e : IoError) (sent : List (ReaderMessage P D L)) (m : ReaderMessage P D L)
      → All (IsCause e) sent
      → IsCause e m
      → All (IsCause e) (sent ++ (m ∷ []))
  causes-append e [] m h c = (c, tt)
  causes-append e (n ∷ sent) m (h, rest) c = (h, causes-append e sent m rest c)

  end_loop-Retains :
      (e : IoError) (error : ReceiveError D L) (s : Reading P D L H)
      → s.send_error ≡ arrived e
      → All (IsCause e) s.sent
      → Retains e (end_loop transport task error s)
  unfolding end_loop
  end_loop-Retains e error s h c = rw h (refl, c)

  poll_forward-Retains :
      (e : IoError) (event : PacketReceiveEvent P) (channel : Poll Bool) (s : Reading P D L H)
      → s.send_error ≡ arrived e
      → All (IsCause e) s.sent
      → Retains e (poll_forward transport task event channel s)
  unfolding poll_forward
  poll_forward-Retains e event pending s h c =
      if_elim (λ r. Retains e r) s.is_cancelled _ _ (λ _. end_loop-Retains e _ s h c) (λ _. (h, c))
  poll_forward-Retains e event (ready accepted) s h c =
      if_elim (λ r. Retains e r) s.is_cancelled _ _ (λ _. end_loop-Retains e _ s h c)
        (λ _.
          if_elim (λ r. Retains e r) accepted _ _
            (λ _. (h, causes-append e s.sent (stream_packet event) c tt))
            (λ _. end_loop-Retains e _ s h c))

  poll_select-Retains :
      (e : IoError) (received : Poll (Result (P × ℕ) (ReceiveError D L))) (channel : Poll Bool)
      (s : Reading P D L H)
      → All (IsCause e) s.sent
      → Retains e (poll_select transport task (arrived e) received channel s)
  unfolding poll_select end_loop
  poll_select-Retains e received channel s c = (refl, c)

  poll_closing-Retains :
      (e : IoError) (error : ReceiveError D L) (channel : Poll Bool) (s : Reading P D L H)
      → error ≡ io e
      → Retains e s
      → Retains e (poll_closing transport task error channel s)
  unfolding poll_closing
  poll_closing-Retains e error pending s h r = r
  poll_closing-Retains e error (ready accepted) s h r = elim (Bool-cases task.is_server) [
    | inl server ↦ rw server (tt, causes)
    | inr client ↦ rw client (tt, causes)
  ]
    where
      causes : All (IsCause e) (if accepted then s.sent ++ (closed error task.id ∷ []) else s.sent)
      causes =
          if_elim (λ l. All (IsCause e) l) accepted (s.sent ++ (closed error task.id ∷ [])) s.sent
            (λ _. causes-append e s.sent (closed error task.id) r.1 h) (λ _. r.1)

  poll_reader-Retains :
      (e : IoError) (phase : ReaderPhase P D L)
      (received : Poll (Result (P × ℕ) (ReceiveError D L))) (channel : Poll Bool)
      (s : Reading P D L H)
      → Knows e phase s.send_error
      → Retains e s
      → Retains e (poll_reader transport task phase received channel s)
  unfolding poll_reader poll_reporting
  poll_reader-Retains e selecting received channel s k r =
      rw k (poll_select-Retains e received channel s r.1)
  poll_reader-Retains e (forwarding event) received channel s k r =
      poll_forward-Retains e event channel s k r.1
  poll_reader-Retains e (closing error) received channel s k r =
      poll_closing-Retains e error channel s k r
  poll_reader-Retains e reporting received pending s k r = r
  poll_reader-Retains e reporting received (ready accepted) s k r = (tt, r.1)
  poll_reader-Retains e finished received channel s k r = r

  still_known :
      (e later : IoError) (phase : ReaderPhase P D L) (cell : SendErrorCell)
      → Knows e phase cell
      → Knows e phase (report_error later cell)
  unfolding report_error
  still_known e later selecting cell k = rw k refl
  still_known e later (forwarding event) cell k = rw k refl
  still_known e later (closing error) cell k = k
  still_known e later reporting cell k = tt
  still_known e later finished cell k = tt

  reader_step-Retains :
      (e : IoError) (happening : Happening P D L) (s : Reading P D L H)
      → Retains e s
      → Retains e (reader_step transport task happening s)
  unfolding reader_step
  reader_step-Retains e (writer_failed later) s (k, c) =
      (still_known e later s.phase s.send_error k, c)
  reader_step-Retains e token_cancelled s r = r
  reader_step-Retains e (others_leave q) s r = r
  reader_step-Retains e stopped s (k, c) = (tt, c)
  reader_step-Retains e (polled received channel) s r =
      poll_reader-Retains e s.phase received channel s r.0 r

  -- Once the writing task's error has arrived in the loop of the reading task, it is the cause that
  -- the closing message has, whichever way the loop ends: by the error itself, by the cancellation
  -- that comes with it while a packet waits for the ECS, or by an error of the transport.
  pub receive_packets-Retains :
      (e : IoError) (happenings : List (Happening P D L)) (s : Reading P D L H)
      → Retains e s
      → Retains e (receive_packets transport task happenings s)
  unfolding receive_packets
  receive_packets-Retains e [] s r = r
  receive_packets-Retains e (happening ∷ rest) s r =
      receive_packets-Retains e rest (reader_step transport task happening s)
        (reader_step-Retains e happening s r)
