-- ===== src/Protocols/Udp/Stream/Connect.antt =====
-- protocols/udp/stream.rs: a client's stream from its options and its socket, and what `Incoming` takes
-- from a queue or a socket. What the socket's calls answer is an argument.
use bevy_slinet.Common.{
  ℕ, ◌≡◌, ap, ◌∙◌, Option, none, some, List, [], ◌∷◌, Result, ok, err, if◌then◌else◌, ltb, length,
}
use bevy_slinet.Queue.Lossy.{
  Shared, Poll, pending, ready, TryRecvError, empty, disconnected, try_recv,
}
use bevy_slinet.Protocols.Framing.{IoError, invalid_data, connection_aborted}
use bevy_slinet.Protocols.Udp.Settings.{UdpOptions, buffer_size, validate}
use bevy_slinet.Protocols.Udp.Peer.{QueuedDatagram, Peer, new_peer}
use bevy_slinet.Protocols.Udp.Stream.{is_retried}

-- `ConfiguredUdpClientStream`.
pub record UdpClientStream : Type 0 where
  pub peer_addr : ℕ
  pub local_addr : ℕ
  pub state : Peer

-- The answers of a socket's calls.
pub record SocketAnswers : Type 0 where
  pub bind : Result (Unit {0}) IoError
  pub connect : Result (Unit {0}) IoError
  pub peer_addr : Result ℕ IoError
  pub local_addr : Result ℕ IoError

unfoldable pub with_addresses :
    UdpOptions → Result ℕ IoError → Result ℕ IoError → Result UdpClientStream IoError
unfolding new_peer
with_addresses o (err e) local_addr = err e
with_addresses o (ok peer) (err e) = err e
with_addresses o (ok peer) (ok local) =
    ok (record { peer_addr = peer; local_addr = local; state = new_peer o })

unfoldable pub stream_of_valid :
    Result UdpOptions IoError → SocketAnswers → Result UdpClientStream IoError
unfolding with_addresses
stream_of_valid (err e) socket = err e
stream_of_valid (ok o) socket = with_addresses o socket.peer_addr socket.local_addr

-- `from_socket`.
unfoldable pub stream_from_socket : ℕ → SocketAnswers → UdpOptions → Result UdpClientStream IoError
unfolding stream_of_valid validate
stream_from_socket max_permits socket o = stream_of_valid (validate max_permits o) socket

-- The calls of `connect_with_options` in order, each with `?`.
unfoldable pub connect_calls :
    ℕ
    → UdpOptions
    → SocketAnswers
    → Result UdpOptions IoError
    → Result (Unit {0}) IoError
    → Result (Unit {0}) IoError
    → Result UdpClientStream IoError
unfolding stream_from_socket
connect_calls max_permits o socket (err e) bound connected = err e
connect_calls max_permits o socket (ok valid) (err e) connected = err e
connect_calls max_permits o socket (ok valid) (ok u) (err e) = err e
connect_calls max_permits o socket (ok valid) (ok u) (ok v) =
    stream_from_socket max_permits socket o

unfoldable pub connect_with_options :
    ℕ → UdpOptions → SocketAnswers → Result UdpClientStream IoError
unfolding connect_calls validate
connect_with_options max_permits o socket =
    connect_calls max_permits o socket (validate max_permits o) socket.bind socket.connect

-- `Incoming::next` on a queue, when it is polled: a datagram, the error of a closed peer, or a wait.
unfoldable pub from_queue :
    Result QueuedDatagram TryRecvError × Shared QueuedDatagram
    → Poll (Result QueuedDatagram IoError) × Shared QueuedDatagram
from_queue (ok d, q) = (ready (ok d), q)
from_queue (err disconnected, q) = (ready (err connection_aborted), q)
from_queue (err empty, q) = (pending, q)

unfoldable pub next_in_queue :
    Shared QueuedDatagram → Poll (Result QueuedDatagram IoError) × Shared QueuedDatagram
unfolding from_queue try_recv
next_in_queue q = from_queue (try_recv q)

-- `Incoming::next` on a socket, by what `recv` gives: datagrams with the clock's reading, and errors.
unfoldable pub next_in_socket :
    List (Result QueuedDatagram IoError)
    → Option (Result QueuedDatagram IoError) × List (Result QueuedDatagram IoError)
unfolding is_retried
next_in_socket [] = (none, [])
next_in_socket (ok d ∷ rest) =
    if ltb buffer_size (length d.bytes)
    then (some (err invalid_data), rest)
    else (some (ok d), rest)
next_in_socket (err e ∷ rest) =
    let later = next_in_socket rest in if is_retried e then later else (some (err e), rest)

-- The answers of a socket whose calls all succeed.
abbrev pub all_well : ℕ → ℕ → SocketAnswers
all_well peer local = record {
  bind = ok tt;
  connect = ok tt;
  peer_addr = ok peer;
  local_addr = ok local;
}

-- With valid options and a socket whose calls all succeed, a client's stream has the socket's
-- addresses and a fresh peer; its options are validated twice, with the same result.
pub connect_with_options_lem :
    (max_permits : ℕ) (o : UdpOptions) (peer local : ℕ)
    → validate max_permits o ≡ ok o
    → connect_with_options max_permits o (all_well peer local)
      ≡ ok (record { peer_addr = peer; local_addr = local; state = new_peer o })
unfolding connect_with_options
connect_with_options_lem max_permits o peer local h =
    ap (λ v. connect_calls max_permits o (all_well peer local) v (ok tt) (ok tt)) h
    ∙ ap (λ v. stream_of_valid v (all_well peer local)) h
