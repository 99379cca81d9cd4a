-- ===== src/Protocols/Framing/Sequence.antt =====
-- A whole conversation in one direction over the framing of protocols/framing.rs.
mod Examples
use bevy_slinet.Common.{
  ℕ, zero, suc, ◌≤◌, ◌<◌, ◌≡◌, refl, ap, sym, ◌∙◌, Option, none, some, List, [], ◌∷◌, ◌++◌, Result,
  ok, err, length, arith, append_assoc, append-nil, append-cancel, map, subst,
}
use bevy_slinet.Serializers.Length.{PacketLengthSerializer}
use bevy_slinet.Protocols.Framing.{
  IoError, ReceiveError, receive_with_timestamp, Received, send, Sent,
}
use bevy_slinet.Protocols.Framing.Prefix.{IsByteStream, IsIncremental}
use bevy_slinet.Protocols.Framing.RoundTrip.{
  IsByteSink, IsCodecPair, Frame, send-Frame, receive-Arrives,
}

-- The writer's packets in order, up to the first error.
module _ {W C P E L : Type 0} (write_all : List ℕ → W → Result (Unit {0}) IoError × W)
    (ls : PacketLengthSerializer L) (serialize : P → C → Result (List ℕ) E × C) where
  then_send :
      (W → C → Sent write_all ls serialize)
      → Sent write_all ls serialize
      → Sent write_all ls serialize
  then_send rest (ok u, w, c) = rest w c
  then_send rest (err e, w, c) = (err e, w, c)

  pub send_all : List (P × ℕ) → W → C → Sent write_all ls serialize
  unfolding then_send
  send_all [] w c = (ok tt, w, c)
  send_all ((packet, now) ∷ log) w c =
      then_send (send_all log) (send write_all ls serialize packet w c)

-- As many packets as the log has entries, each at the log's time, up to the first error.
module _ {R C P D L : Type 0} (read_exact : ℕ → R → Result (List ℕ) IoError × R)
    (ls : PacketLengthSerializer L) (deserialize : List ℕ → C → Result P D × C)
    (fuel limit : ℕ) where
  abbrev pub Log : Type 0
  Log = Option (Result (List (P × ℕ)) (ReceiveError D L) × R × C)

  add_first : P × ℕ → Log → Log
  add_first entry (some (ok log, r, c)) = some (ok (entry ∷ log), r, c)
  add_first entry other = other

  then_receive : (R → C → Log) → Option (Received read_exact ls deserialize) → Log
  unfolding add_first
  then_receive rest none = none
  then_receive rest (some (err e, r, c)) = some (err e, r, c)
  then_receive rest (some (ok entry, r, c)) = add_first entry (rest r c)

  pub receive_all : List ℕ → R → C → Log
  unfolding then_receive
  receive_all [] r c = some (ok [], r, c)
  receive_all (now ∷ times) r c =
      then_receive (receive_all times)
        (receive_with_timestamp read_exact ls deserialize fuel limit now r c)

module _ {W R CS CR P E D L : Type 0} (write_all : List ℕ → W → Result (Unit {0}) IoError × W)
    (read_exact : ℕ → R → Result (List ℕ) IoError × R) (ls : PacketLengthSerializer L)
    (serialize : P → CS → Result (List ℕ) E × CS) (deserialize : List ℕ → CR → Result P D × CR)
    (written : W → List ℕ) (remaining : R → List ℕ) (InStep : CS → CR → Type 0) (fuel limit : ℕ)
    (sink : IsByteSink write_all written) (stream : IsByteStream read_exact remaining)
    (codec : IsIncremental ls) (pair : IsCodecPair serialize deserialize InStep)
    (prefixes : (len : ℕ) (p : List ℕ) → ls.serialize_packet_length len ≡ ok p → length p < fuel)
    (payloads : (packet : P) (payload : List ℕ) (c c' : CS)
      → serialize packet c ≡ (ok payload, c')
      → length payload ≤ limit) where
  -- What the sender put on the stream, and what the receiver makes of it.
  abbrev Delivered : List (P × ℕ) → W → W → CS → CR → Type 0
  Delivered log w w' cs' cr =
      (frames : List ℕ) × (written w' ≡ written w ++ frames)
      × ((rest : List ℕ) (r : R)
          → remaining r ≡ frames ++ rest
          → (r' : R) × (cr' : CR) × (receive_all read_exact ls deserialize fuel limit
                (map (λ e. e.1) log) r cr
              ≡ some (ok log, r', cr'))
            × (remaining r' ≡ rest)
            × InStep cs' cr')

  deliver_one :
      (packet : P) (now : ℕ) (log : List (P × ℕ)) (w w₁ w' : W) (cs cs₁ cs' : CS) (cr : CR)
      → InStep cs cr
      → send write_all ls serialize packet w cs ≡ (ok tt, w₁, cs₁)
      → ((cr₁ : CR) → InStep cs₁ cr₁ → Delivered log w₁ w' cs' cr₁)
      → Delivered ((packet, now) ∷ log) w w' cs' cr
  unfolding receive_all
  deliver_one packet now log w w₁ w' cs cs₁ cs' cr s h later =
      let (frame, fr, put) = send-Frame write_all ls serialize written sink packet w w₁ cs cs₁ h in
      let (cr₁, dec, s₁) = pair.decodes packet fr.payload cs cs₁ cr s fr.encoded in
      let (frames, put', get) = later cr₁ s₁ in
      (
        frame ++ frames,
        put' ∙ ap (λ l. l ++ frames) put ∙ append_assoc (written w) frame frames,
        λ rest r e.
            let (r₁, got, left) =
              receive-Arrives read_exact ls deserialize remaining stream codec fuel limit now packet
                fr.prefix fr.payload (frames ++ rest) r cr cr₁
                (prefixes (length fr.payload) fr.prefix fr.measured)
                (payloads packet fr.payload cs cs₁ fr.encoded) fr.measured dec
                (e ∙ append_assoc frame frames rest ∙ ap (λ l. l ++ (frames ++ rest)) fr.joined) in
            let (r', cr', all, left', s') = get rest r₁ left in
            (
              r',
              cr',
              ap
                    (then_receive read_exact ls deserialize fuel limit
                      (receive_all read_exact ls deserialize fuel limit (map (λ e. e.1) log)))
                    got
                  ∙ ap (add_first read_exact ls deserialize fuel limit (packet, now)) all,
              left',
              s',
            ),
      )

  deliver_then :
      (packet : P) (now : ℕ) (log : List (P × ℕ)) (w w' : W) (cs cs' : CS) (cr : CR)
      (sent : Sent write_all ls serialize)
      → InStep cs cr
      → send write_all ls serialize packet w cs ≡ sent
      → then_send write_all ls serialize (send_all write_all ls serialize log) sent
        ≡ (ok tt, w', cs')
      → ((w₁ : W) (cs₁ : CS) (cr₁ : CR)
          → InStep cs₁ cr₁
          → send_all write_all ls serialize log w₁ cs₁ ≡ (ok tt, w', cs')
          → Delivered log w₁ w' cs' cr₁)
      → Delivered ((packet, now) ∷ log) w w' cs' cr
  unfolding then_send
  deliver_then packet now log w w' cs cs' cr (ok u, w₁, cs₁) s h all later =
      deliver_one packet now log w w₁ w' cs cs₁ cs' cr s h (λ cr₁ s₁. later w₁ cs₁ cr₁ s₁ all)
  deliver_then packet now log w w' cs cs' cr (err e, w₁, cs₁) s h all later =
      absurd (cc (ap (λ t. t.0) all))

  send_all-Delivered :
      (log : List (P × ℕ)) (w w' : W) (cs cs' : CS) (cr : CR)
      → InStep cs cr
      → send_all write_all ls serialize log w cs ≡ (ok tt, w', cs')
      → Delivered log w w' cs' cr
  unfolding send_all receive_all
  send_all-Delivered [] w w' cs cs' cr s h = (
    [],
    ap written (sym (λ i. (h i).1)) ∙ sym (append-nil (written w)),
    λ rest r e. (r, cr, refl, e, subst (λ c. InStep c cr) (λ i. (h i).2) s),
  )
  send_all-Delivered ((packet, now) ∷ log) w w' cs cs' cr s h =
      deliver_then packet now log w w' cs cs' cr (send write_all ls serialize packet w cs) s refl h
        (λ w₁ cs₁ cr₁ s₁ all. send_all-Delivered log w₁ w' cs₁ cs' cr₁ s₁ all)

  -- Every packet of a conversation that was sent without an error is received, in order and each
  -- with the clock's reading at its turn, from a stream that begins with what the sender wrote;
  -- nothing behind it is read, and the two codecs are in step again.
  pub receive_all-send_all :
      (log : List (P × ℕ)) (w w' : W) (cs cs' : CS) (cr : CR) (frames rest : List ℕ) (r : R)
      → InStep cs cr
      → send_all write_all ls serialize log w cs ≡ (ok tt, w', cs')
      → written w' ≡ written w ++ frames
      → remaining r ≡ frames ++ rest
      → (r' : R) × (cr' : CR) × (receive_all read_exact ls deserialize fuel limit
            (map (λ e. e.1) log)
            r
            cr
          ≡ some (ok log, r', cr'))
        × (remaining r' ≡ rest)
        × InStep cs' cr'
  receive_all-send_all log w w' cs cs' cr frames rest r s h wrote on_stream =
      let (put, joined, get) = send_all-Delivered log w w' cs cs' cr s h in
      get rest r (
        on_stream ∙ ap (λ l. l ++ rest) (append-cancel (written w) frames put (sym wrote ∙ joined)))
