-- ===== src/Protocols/Udp/Listener/Accept.antt =====
-- protocols/udp/listener.rs: the listener's socket, from `bind` to the loop of `accept`. What the
-- socket gives is a list of events, and what its calls answer is an argument.
use bevy_slinet.Common.{
  ℕ, ◌≡◌, refl, sym, ap, ◌∙◌, Bool, false, Option, none, some, List, [], ◌∷◌, ◌++◌, Result, ok, err,
  if◌then◌else◌, if_elim, ltb, length,
}
use bevy_slinet.Protocols.Framing.{IoError, invalid_data, invalid_input}
use bevy_slinet.Protocols.Udp.Settings.{UdpOptions, buffer_size, validate}
use bevy_slinet.Protocols.Udp.Listener.{Listener, new_listener, dispatch}
use bevy_slinet.Protocols.Udp.Stream.{is_retried}

-- A datagram with its address and the clock's reading, or an error of `recv_from`.
pub data SocketEvent : Type 0 where
  arrives : List ℕ → ℕ → ℕ → SocketEvent
  fails : IoError → SocketEvent

-- What the socket answers: whether it is connected, and its address.
pub record SocketState : Type 0 where
  pub is_connected : Bool
  pub address : Result ℕ IoError

unfoldable pub after_address : UdpOptions → Result ℕ IoError → Result (Listener × ℕ) IoError
unfolding new_listener
after_address o (ok local_addr) = ok (new_listener o, local_addr)
after_address o (err e) = err e

-- `from_socket`.
unfoldable pub wrap_valid : SocketState → Result UdpOptions IoError → Result (Listener × ℕ) IoError
unfolding after_address
wrap_valid socket (err e) = err e
wrap_valid socket (ok o) =
    if socket.is_connected then err invalid_input else after_address o socket.address

unfoldable pub listener_from_socket : ℕ → SocketState → UdpOptions → Result (Listener × ℕ) IoError
unfolding wrap_valid validate
listener_from_socket max_permits socket o = wrap_valid socket (validate max_permits o)

-- `bind`, with what the socket's `bind` gives.
unfoldable pub after_bind :
    ℕ → UdpOptions → Result SocketState IoError → Result (Listener × ℕ) IoError
unfolding listener_from_socket
after_bind max_permits o (ok socket) = listener_from_socket max_permits socket o
after_bind max_permits o (err e) = err e

unfoldable pub bind_valid :
    ℕ
    → Result UdpOptions IoError
    → UdpOptions
    → Result SocketState IoError
    → Result (Listener × ℕ) IoError
unfolding after_bind
bind_valid max_permits (ok valid) o bound = after_bind max_permits o bound
bind_valid max_permits (err e) o bound = err e

unfoldable pub bind_listener :
    ℕ → UdpOptions → Result SocketState IoError → Result (Listener × ℕ) IoError
unfolding bind_valid validate
bind_listener max_permits o bound = bind_valid max_permits (validate max_permits o) o bound

-- What `accept` gives, if it ends, with what it leaves and the events to come.
abbrev pub Accepted : Type 0
Accepted = Option (Result ℕ IoError) × Listener × List SocketEvent

unfoldable pub after_dispatch :
    (Listener → Accepted) → List SocketEvent → Option ℕ × Listener → Accepted
after_dispatch rest events (some id, l) = (some (ok id), l, events)
after_dispatch rest events (none, l) = rest l

-- `accept`, by the number of the peer whose stream it returns.
unfoldable pub accept : List SocketEvent → Listener → Accepted
unfolding after_dispatch dispatch is_retried
accept [] l = (none, l, [])
accept (fails e ∷ events) l =
    let later = accept events l in if is_retried e then later else (some (err e), l, events)
accept (arrives bytes address at ∷ events) l =
    let later = after_dispatch (accept events) events (dispatch bytes address at l) in
    if ltb buffer_size (length bytes) then (some (err invalid_data), l, events) else later

-- The listener after every datagram of some events is dispatched.
abbrev pub dispatch_all : List SocketEvent → Listener → Listener
dispatch_all [] l = l
dispatch_all (fails e ∷ events) l = dispatch_all events l
dispatch_all (arrives bytes address at ∷ events) l =
    if ltb buffer_size (length bytes)
    then dispatch_all events l
    else dispatch_all events (dispatch bytes address at l).1

-- The streams that the dispatching of events makes, by the numbers of their peers.
abbrev pub made : Option ℕ → List ℕ
made none = []
made (some id) = id ∷ []

abbrev pub made_by : List SocketEvent → Listener → List ℕ
made_by [] l = []
made_by (fails e ∷ events) l = made_by events l
made_by (arrives bytes address at ∷ events) l =
    if ltb buffer_size (length bytes)
    then made_by events l
    else made (dispatch bytes address at l).0 ++ made_by events (dispatch bytes address at l).1

-- The streams that `accept` gives.
abbrev pub given : Option (Result ℕ IoError) → List ℕ
given none = []
given (some (ok id)) = id ∷ []
given (some (err e)) = []

-- What `accept` took from the socket.
pub record Handled (events : List SocketEvent) (l : Listener) (r : Accepted) : Type 0 where
  pub taken : List SocketEvent
  pub split : events ≡ taken ++ r.2
  pub dispatched : r.1 ≡ dispatch_all taken l
  pub no_stream_lost : made_by taken l ≡ given r.0

after_dispatch-Handled :
    (rest : Listener → Accepted) (bytes : List ℕ) (address at : ℕ) (events : List SocketEvent)
    (l : Listener) (d : Option ℕ × Listener)
    → dispatch bytes address at l ≡ d
    → ltb buffer_size (length bytes) ≡ false
    → ((v : Listener) → Handled events v (rest v))
    → Handled (arrives bytes address at ∷ events) l (after_dispatch rest events d)
unfolding after_dispatch
after_dispatch-Handled rest bytes address at events l (some id, v) e small later = record {
  taken = arrives bytes address at ∷ [];
  split = refl;
  dispatched = rw small (sym (ap (λ d. d.1) e));
  no_stream_lost = rw small (ap (λ d. made d.0 ++ []) e);
}
after_dispatch-Handled rest bytes address at events l (none, v) e small later = record {
  taken = arrives bytes address at ∷ (later v).taken;
  split = ap (◌∷◌ (arrives bytes address at)) (later v).split;
  dispatched =
      rw small ((later v).dispatched ∙ ap (dispatch_all (later v).taken) (sym (ap (λ d. d.1) e)));
  no_stream_lost =
      rw small (ap (λ d. made d.0 ++ made_by (later v).taken d.1) e ∙ (later v).no_stream_lost);
}

-- What the loop of `accept` takes from the socket is a front of its events. Each datagram in it that
-- fits in the buffer is dispatched, in order and once, and the listener is left as this leaves it; all
-- streams that it makes are the one that `accept` returns, or there are none.
pub accept-Handled : (events : List SocketEvent) (l : Listener) → Handled events l (accept events l)
unfolding accept
accept-Handled [] l = record { taken = []; split = refl; dispatched = refl; no_stream_lost = refl }
accept-Handled (fails e ∷ events) l =
    if_elim (Handled (fails e ∷ events) l) (is_retried e) (accept events l)
      (some (err e), l, events)
      (λ _. record {
        taken = fails e ∷ (accept-Handled events l).taken;
        split = ap (◌∷◌ (fails e)) (accept-Handled events l).split;
        dispatched = (accept-Handled events l).dispatched;
        no_stream_lost = (accept-Handled events l).no_stream_lost;
      })
      (λ _. record { taken = fails e ∷ []; split = refl; dispatched = refl; no_stream_lost = refl })
accept-Handled (arrives bytes address at ∷ events) l =
    if_elim (Handled (arrives bytes address at ∷ events) l) (ltb buffer_size (length bytes))
      (some (err invalid_data), l, events)
      (after_dispatch (accept events) events (dispatch bytes address at l))
      (λ large. record {
        taken = arrives bytes address at ∷ [];
        split = refl;
        dispatched = rw large refl;
        no_stream_lost = rw large refl;
      })
      (λ small.
        after_dispatch-Handled (accept events) bytes address at events l
          (dispatch bytes address at l) refl small (accept-Handled events))
