-- ===== src/Queue/Outgoing/Examples.antt =====
-- The queues of connection/queue/mod.rs with a list as the reliable channel and, as the transport's
-- handle, the reasons reported so far.
use bevy_slinet.Common.{
  ℕ, ◌-◌, ◌≡◌, refl, ap, true, some, List, [], ◌∷◌, ◌++◌, Result, ok, err, length, arith, inl,
}
use bevy_slinet.Queue.Lossy.{Shared, drop_oldest, TryRecvError, disconnected}
use bevy_slinet.Queue.Lossy.Invariant.{IsValid}
use bevy_slinet.Queue.Outgoing.{
  Outgoing, reliable, lossy, Channel, outgoing_try_send, drop_outgoing, forward_datagram,
}
use bevy_slinet.Queue.Outgoing.Accounting.{
  Reported, Forwarded, IsDrained, outgoing_try_send-Reported, drop_outgoing-Reported,
  forward_datagram-Forwarded,
}
use bevy_slinet.Protocols.Transport.{
  QueueDropReason, closed_before_delivery, TransportHandle, record_drops,
}

abbrev log_handle : TransportHandle (List QueueDropReason)
log_handle = record { record_drop = λ reason log. reason ∷ log }

abbrev recv_list : List ℕ → Result ℕ TryRecvError × List ℕ
recv_list [] = (err disconnected, [])
recv_list (packet ∷ rest) = (ok packet, rest)

abbrev list_channel : Channel (List ℕ) ℕ
list_channel = record {
  new_channel = λ n. [];
  channel_try_send = λ packet queued. (ok tt, queued ++ (packet ∷ []));
  max_capacity = λ queued. 8;
  free_capacity = λ queued. 8 - length queued;
  close_channel = λ queued. queued;
  channel_try_recv = recv_list;
  drop_receiver = λ queued. [];
}

list_channel-IsDrained : IsDrained list_channel log_handle (λ queued. queued)
list_channel-IsDrained = record {
  closes = λ queued. refl;
  takes = λ queued packet rest e. (rest, ap recv_list e, refl);
  ends = λ queued e. (disconnected, [], ap recv_list e);
}

drop_outgoing-Reported_example :
    (o' : Outgoing (List ℕ) ℕ) × (drop_outgoing list_channel log_handle 3 true
        (reliable (5 ∷ 6 ∷ []))
        []
      ≡ some (o', record_drops log_handle closed_before_delivery 2 []))
drop_outgoing-Reported_example =
    drop_outgoing-Reported list_channel log_handle (λ queued. queued) list_channel-IsDrained 3
      (reliable (5 ∷ 6 ∷ [])) [] (omega arith)

abbrev full_queue : Shared ℕ
full_queue = record {
  state = record { items = (10, 1) ∷ []; bytes = 1; senders = 1; receiver_open = true };
  max_items = 1;
  max_bytes = 8;
  policy = drop_oldest;
  signals = [];
}

full_queue-IsValid : IsValid full_queue
full_queue-IsValid = record {
  counted = refl;
  few = omega arith;
  light = omega arith;
  items_word = omega arith;
  bytes_word = omega arith;
  drained = inl refl;
}

outgoing_try_send-Reported_example :
    Reported list_channel log_handle full_queue 20 []
      (outgoing_try_send list_channel log_handle 20 (lossy full_queue) [])
outgoing_try_send-Reported_example =
    outgoing_try_send-Reported list_channel log_handle full_queue 20 [] full_queue-IsValid

forward_datagram-Forwarded_example :
    Forwarded log_handle full_queue 20 [] (forward_datagram log_handle 20 full_queue [])
forward_datagram-Forwarded_example =
    forward_datagram-Forwarded log_handle full_queue 20 [] full_queue-IsValid
