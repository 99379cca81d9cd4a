-- ===== src/Protocols/Tcp.antt =====
-- protocols/tcp.rs: listeners and streams over TCP sockets. A socket is its state, whose options the
-- wrappers set; what its calls answer is an argument.
use bevy_slinet.Common.{◌≡◌, ap, ◌∙◌, ℕ, Bool, Option, none, some, Result, ok, err}
use bevy_slinet.Protocols.Framing.{IoError}

-- A connected socket: its `TCP_NODELAY`, what setting it answers, and its addresses.
pub record TcpSocket : Type 0 where
  pub nodelay : Bool
  pub set_nodelay : Result (Unit {0}) IoError
  pub peer : Result ℕ IoError
  pub local : Result ℕ IoError

pub record TcpNetworkListener : Type 0 where
  pub address : ℕ
  pub override : Option Bool

pub record TcpNetworkStream : Type 0 where
  pub socket : TcpSocket
  pub peer_addr : ℕ
  pub local_addr : ℕ

unfoldable pub with_local : TcpSocket → ℕ → Result ℕ IoError → Result TcpNetworkStream IoError
with_local socket peer (ok local) =
    ok (record { socket = socket; peer_addr = peer; local_addr = local })
with_local socket peer (err e) = err e

unfoldable pub with_peer : TcpSocket → Result ℕ IoError → Result TcpNetworkStream IoError
unfolding with_local
with_peer socket (ok peer) = with_local socket peer socket.local
with_peer socket (err e) = err e

-- `TcpNetworkStream::from_stream`.
unfoldable pub tcp_from_stream : TcpSocket → Result TcpNetworkStream IoError
unfolding with_peer
tcp_from_stream socket = with_peer socket socket.peer

-- `TcpNetworkListener::from_listener`, with what `local_addr` answers, and `bind` before it.
unfoldable pub tcp_from_listener : Result ℕ IoError → Result TcpNetworkListener IoError
tcp_from_listener (ok address) = ok (record { address = address; override = none })
tcp_from_listener (err e) = err e

unfoldable pub tcp_bind :
    Result (Unit {0}) IoError → Result ℕ IoError → Result TcpNetworkListener IoError
unfolding tcp_from_listener
tcp_bind (ok u) local_addr = tcp_from_listener local_addr
tcp_bind (err e) local_addr = err e

unfoldable pub with_nodelay : Bool → TcpNetworkListener → TcpNetworkListener
with_nodelay nodelay l = record l { override = some nodelay }

unfoldable pub after_nodelay :
    Bool → TcpSocket → Result (Unit {0}) IoError → Result TcpNetworkStream IoError
unfolding tcp_from_stream
after_nodelay nodelay socket (ok u) = tcp_from_stream (record socket { nodelay = nodelay })
after_nodelay nodelay socket (err e) = err e

unfoldable pub wrap_accepted : Option Bool → TcpSocket → Result TcpNetworkStream IoError
unfolding after_nodelay tcp_from_stream
wrap_accepted none socket = tcp_from_stream socket
wrap_accepted (some nodelay) socket = after_nodelay nodelay socket socket.set_nodelay

-- `TcpNetworkListener::accept`, with what the socket's `accept` gives.
unfoldable pub tcp_accept :
    TcpNetworkListener → Result TcpSocket IoError → Result TcpNetworkStream IoError
unfolding wrap_accepted
tcp_accept l (ok socket) = wrap_accepted l.override socket
tcp_accept l (err e) = err e

-- `ClientStream::connect`.
unfoldable pub tcp_connect : Result TcpSocket IoError → Result TcpNetworkStream IoError
unfolding tcp_from_stream
tcp_connect (ok socket) = tcp_from_stream socket
tcp_connect (err e) = err e

-- An accepted stream has the listener's `TCP_NODELAY`, whatever the socket inherited.
pub tcp_accept-with_nodelay :
    (l : TcpNetworkListener) (nodelay : Bool) (socket : TcpSocket) (peer local : ℕ)
    → socket.set_nodelay ≡ ok tt
    → socket.peer ≡ ok peer
    → socket.local ≡ ok local
    → tcp_accept (with_nodelay nodelay l) (ok socket)
      ≡ ok (record {
        socket = record socket { nodelay = nodelay };
        peer_addr = peer;
        local_addr = local;
      })
unfolding tcp_accept with_nodelay
tcp_accept-with_nodelay l nodelay socket peer local set p q =
    ap (after_nodelay nodelay socket) set
    ∙ ap (with_peer (record socket { nodelay = nodelay })) p
    ∙ ap (with_local (record socket { nodelay = nodelay }) peer) q
