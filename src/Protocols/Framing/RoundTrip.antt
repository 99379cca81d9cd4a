-- ===== src/Protocols/Framing/RoundTrip.antt =====
-- Packets that `FramedWriter` of protocols/framing.rs sends are the packets that `FramedReader`
-- receives, in order, whatever stands behind them in the stream.
use mathlib.Core.Option
use bevy_slinet.Common.{
  ℕ, ◌≤◌, ◌<◌, ◌≡◌, refl, ap, ◌∙◌, Option, some, List, ◌++◌, Result, ok, err, ltb, if_false,
  if_true, length, take, drop, arith, length-append, take-append_length, drop-append_length,
  append_assoc,
}
use bevy_slinet.Serializers.Length.{PacketLengthSerializer}
use bevy_slinet.Protocols.Framing.{
  IoError, packet_too_big, after_length, after_payload, after_deserialize, receive_with_timestamp,
  Received, after_prefix, after_serialize, send,
}
use bevy_slinet.Protocols.Framing.Prefix.{IsByteStream, IsIncremental, read_length-Reads}

-- `write_all` puts the whole buffer behind what was written before, or fails.
pub record IsByteSink {W : Type 0} (write_all : List ℕ → W → Result (Unit {0}) IoError × W)
    (written : W → List ℕ) : Type 0 where
  pub writes :
      (buf : List ℕ) (w w' : W) → write_all buf w ≡ (ok tt, w') → written w' ≡ written w ++ buf

-- What one side encodes, the other side decodes, while their states are in step.
pub record IsCodecPair {CS CR P E D : Type 0} (serialize : P → CS → Result (List ℕ) E × CS)
    (deserialize : List ℕ → CR → Result P D × CR) (InStep : CS → CR → Type 0) : Type 0 where
  pub decodes :
      (packet : P) (payload : List ℕ) (cs cs' : CS) (cr : CR)
      → InStep cs cr
      → serialize packet cs ≡ (ok payload, cs')
      → (cr' : CR) × (deserialize payload cr ≡ (ok packet, cr')) × InStep cs' cr'

module _ {W C P E L : Type 0} (write_all : List ℕ → W → Result (Unit {0}) IoError × W)
    (ls : PacketLengthSerializer L) (serialize : P → C → Result (List ℕ) E × C)
    (written : W → List ℕ) (sink : IsByteSink write_all written) where
  -- The frame of a packet: its prefix and its payload.
  pub record Frame (packet : P) (c c' : C) (frame : List ℕ) : Type 0 where
    pub payload : List ℕ
    pub prefix : List ℕ
    pub encoded : serialize packet c ≡ (ok payload, c')
    pub measured : ls.serialize_packet_length (length payload) ≡ ok prefix
    pub joined : frame ≡ prefix ++ payload

  after_prefix-writes :
      (payload : List ℕ) (w w' : W) (c c' : C) (m : Result (List ℕ) L)
      → after_prefix write_all ls serialize payload w c m ≡ (ok tt, w', c')
      → (prefix : List ℕ) × (m ≡ ok prefix)
        × (c ≡ c')
        × (written w' ≡ written w ++ (prefix ++ payload))
  unfolding after_prefix
  after_prefix-writes payload w w' c c' (err e) h = absurd (cc (ap (λ t. t.0) h))
  after_prefix-writes payload w w' c c' (ok prefix) h =
      (prefix, refl, λ i. (h i).2, sink.writes (prefix ++ payload) w w' (λ i. ((h i).0, (h i).1)))

  after_serialize-Frame :
      (packet : P) (w w' : W) (c c' : C) (s : Result (List ℕ) E × C)
      → serialize packet c ≡ s
      → after_serialize write_all ls serialize w s ≡ (ok tt, w', c')
      → (frame : List ℕ) × Frame packet c c' frame × (written w' ≡ written w ++ frame)
  unfolding after_serialize
  after_serialize-Frame packet w w' c c' (err e, d) enc h = absurd (cc (ap (λ t. t.0) h))
  after_serialize-Frame packet w w' c c' (ok payload, d) enc h =
      let (prefix, measured, same, put) = after_prefix-writes payload w w' d c' _ h in
      (
        prefix ++ payload,
        record {
          payload = payload;
          prefix = prefix;
          encoded = enc ∙ ap (λ x. (ok payload, x)) same;
          measured = measured;
          joined = refl;
        },
        put,
      )

  -- A packet that is sent is put behind what was written before as one frame.
  pub send-Frame :
      (packet : P) (w w' : W) (c c' : C)
      → send write_all ls serialize packet w c ≡ (ok tt, w', c')
      → (frame : List ℕ) × Frame packet c c' frame × (written w' ≡ written w ++ frame)
  unfolding send
  send-Frame packet w w' c c' h = after_serialize-Frame packet w w' c c' (serialize packet c) refl h

module _ {R C P D L : Type 0} (read_exact : ℕ → R → Result (List ℕ) IoError × R)
    (ls : PacketLengthSerializer L) (deserialize : List ℕ → C → Result P D × C)
    (remaining : R → List ℕ) (stream : IsByteStream read_exact remaining)
    (codec : IsIncremental ls) where
  -- The result of `receive_with_timestamp` where the packet arrives.
  abbrev pub Arrives : P → ℕ → List ℕ → C → Option (Received read_exact ls deserialize) → Type 0
  Arrives packet now rest c' o =
      (r' : R) × (o ≡ some (ok (packet, now), r', c')) × (remaining r' ≡ rest)

  after_length-Arrives :
      (limit now : ℕ) (packet : P) (payload rest : List ℕ) (r : R) (c c' : C)
      → length payload ≤ limit
      → deserialize payload c ≡ (ok packet, c')
      → remaining r ≡ payload ++ rest
      → Arrives packet now rest c'
          (some (after_length read_exact ls deserialize limit now c (ok (length payload), r)))
  unfolding after_length after_payload after_deserialize
  after_length-Arrives limit now packet payload rest r c c' small dec s =
      let (r', got, left) =
        stream.reads (length payload) r (omega (arith, ap length s, length-append payload rest)) in
      (
        r',
        ap some (reached r' got),
        left ∙ ap (drop (length payload)) s ∙ drop-append_length payload rest,
      )
    where
      whole : take (length payload) (remaining r) ≡ payload
      whole = ap (take (length payload)) s ∙ take-append_length payload rest

      reached :
          (r' : R)
          → read_exact (length payload) r ≡ (ok (take (length payload) (remaining r)), r')
          → after_length read_exact ls deserialize limit now c (ok (length payload), r)
            ≡ (ok (packet, now), r', c')
      reached r' got =
          if_false (ltb limit (length payload)) _ _ (ground arith)
          ∙ ap (after_payload read_exact ls deserialize now c) (got ∙ ap (λ l. (ok l, r')) whole)
          ∙ ap (after_deserialize read_exact ls deserialize now r') dec

  -- A stream that begins with a frame: the packet is received with the clock's reading, and the
  -- stream is left behind the frame.
  pub receive-Arrives :
      (fuel limit now : ℕ) (packet : P) (prefix payload rest : List ℕ) (r : R) (c c' : C)
      → length prefix < fuel
      → length payload ≤ limit
      → ls.serialize_packet_length (length payload) ≡ ok prefix
      → deserialize payload c ≡ (ok packet, c')
      → remaining r ≡ (prefix ++ payload) ++ rest
      → Arrives packet now rest c'
          (receive_with_timestamp read_exact ls deserialize fuel limit now r c)
  unfolding receive_with_timestamp
  receive-Arrives fuel limit now packet prefix payload rest r c c' enough small measured dec s =
      let (r₁, read, left) =
        read_length-Reads {D = D} read_exact ls remaining stream codec fuel (length payload) prefix
          (payload ++ rest) r enough measured (s ∙ append_assoc prefix payload rest) in
      let (r₂, arrived, left') =
        after_length-Arrives limit now packet payload rest r₁ c c' small dec left in
      (
        r₂,
        ap (Option.map (after_length read_exact ls deserialize limit now c)) read ∙ arrived,
        left',
      )

  -- A stream that begins with a length above the limit: the packet is refused, the codec is not
  -- asked, and none of the payload is read.
  pub receive-TooBig :
      (fuel limit now len : ℕ) (prefix rest : List ℕ) (r : R) (c : C)
      → length prefix < fuel
      → limit < len
      → ls.serialize_packet_length len ≡ ok prefix
      → remaining r ≡ prefix ++ rest
      → (r' : R) × (receive_with_timestamp read_exact ls deserialize fuel limit now r c
          ≡ some (err packet_too_big, r', c))
        × (remaining r' ≡ rest)
  unfolding receive_with_timestamp after_length
  receive-TooBig fuel limit now len prefix rest r c enough big measured s =
      let (r₁, read, left) =
        read_length-Reads {D = D} read_exact ls remaining stream codec fuel len prefix rest r enough
          measured s in
      (
        r₁,
        ap (Option.map (after_length read_exact ls deserialize limit now c)) read
            ∙ ap some (if_true (ltb limit len) _ _ (ground arith)),
        left,
      )
