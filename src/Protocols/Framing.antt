-- ===== src/Protocols/Framing.antt =====
-- protocols/framing.rs: length-prefixed packets over byte streams. The streams, the packet codec
-- and the length codec are parameters: each call maps the state of what it uses to a result and the
-- new state. The receive time is the clock's reading at the end of the payload.
pub mod Prefix
pub mod RoundTrip
pub mod Sequence
pub mod Numbers
use mathlib.Core.Option
use bevy_slinet.Common.{
  ℕ, zero, suc, ◌+◌, ◌-◌, Option, none, some, List, [], ◌++◌, Result, ok, err, ltb, leb,
  if◌then◌else◌, length, take, replicate,
}
use bevy_slinet.Serializers.Length.{LengthError, need_more_bytes, failed, PacketLengthSerializer}

-- The kinds of `io::Error` that the library itself builds or tests, and any other by a number.
pub data IoError : Type 0 where
  invalid_data invalid_input connection_aborted connection_reset connection_refused : IoError
  interrupted write_zero would_block broken_pipe : IoError
  other : ℕ → IoError

-- `ReceiveError` of protocols/packet.rs.
pub data ReceiveError (D L : Type 0) : Type 0 where
  io : IoError → ReceiveError D L
  deserialization : D → ReceiveError D L
  length_deserialization : L → ReceiveError D L
  packet_too_big : ReceiveError D L
  no_connection : IoError → ReceiveError D L
  intentional_disconnection : ReceiveError D L

-- The code of an encoding failure among the other errors.
abbrev pub codec_failed : ℕ
codec_failed = 0

-- `prefix.get_mut(filled..)`: the length of the slice.
pub get_mut_from : List ℕ → ℕ → Option ℕ
get_mut_from prefix filled =
    if leb filled (length prefix) then some (length prefix - filled) else none

-- `Vec::resize(n, 0)`.
pub resize : List ℕ → ℕ → List ℕ
resize bytes n =
    if ltb n (length bytes) then take n bytes else bytes ++ replicate (n - length bytes) 0

-- One round of the loop of `read_length`: it returns, or goes on with a longer prefix.
pub data Round (R D L : Type 0) : Type 0 where
  returned : Result ℕ (ReceiveError D L) → R → Round R D L
  again : List ℕ → ℕ → R → Round R D L

module _ {R D L : Type 0} where
  -- The `match` on the decoded prefix.
  pub after_decode : List ℕ → R → Result ℕ (LengthError L) → Round R D L
  unfolding resize
  after_decode prefix r (ok len) = returned (ok len) r
  after_decode prefix r (err (need_more_bytes additional)) =
      again (resize prefix (length prefix + additional)) (length prefix) r
  after_decode prefix r (err (failed e)) = returned (err (length_deserialization e)) r

  -- The end of a round: `return`, or the rest of the loop.
  pub go_on :
      (List ℕ → ℕ → R → Option (Result ℕ (ReceiveError D L) × R))
      → Round R D L
      → Option (Result ℕ (ReceiveError D L) × R)
  go_on rest (returned result r) = some (result, r)
  go_on rest (again prefix filled r) = rest prefix filled r

module _ {R D L : Type 0} (read_exact : ℕ → R → Result (List ℕ) IoError × R)
    (ls : PacketLengthSerializer L) where
  -- `read_exact` of the slice behind `filled`, and the decoding of the whole prefix.
  pub after_read : List ℕ → ℕ → Result (List ℕ) IoError × R → Round R D L
  unfolding after_decode
  after_read prefix filled (err e, r) = returned (err (io e)) r
  after_read prefix filled (ok got, r) =
      let prefix' = take filled prefix ++ got in
      after_decode prefix' r (ls.deserialize_packet_length prefix')

  pub read_slice : List ℕ → ℕ → R → Option ℕ → Round R D L
  unfolding after_read
  read_slice prefix filled r none = returned (err (io invalid_data)) r
  read_slice prefix filled r (some n) = after_read prefix filled (read_exact n r)

  pub read_round : List ℕ → ℕ → R → Round R D L
  unfolding get_mut_from read_slice
  read_round prefix filled r = read_slice prefix filled r (get_mut_from prefix filled)

  -- The loop, with one unit of fuel for each round; `none` when the fuel runs out.
  pub read_length_loop : ℕ → List ℕ → ℕ → R → Option (Result ℕ (ReceiveError D L) × R)
  unfolding go_on
  read_length_loop zero prefix filled r = none
  read_length_loop (suc fuel) prefix filled r =
      go_on (read_length_loop fuel) (read_round prefix filled r)

  pub read_length : ℕ → R → Option (Result ℕ (ReceiveError D L) × R)
  unfolding read_length_loop
  read_length fuel r = read_length_loop fuel (replicate ls.size 0) 0 r

-- The receiving half: a packet codec with its own state `C` (a read-only one has a trivial state),
-- the live size limit, and the clock's reading when the payload is complete.
module _ {R C P D L : Type 0} (read_exact : ℕ → R → Result (List ℕ) IoError × R)
    (ls : PacketLengthSerializer L) (deserialize : List ℕ → C → Result P D × C) where
  abbrev pub Received : Type 0
  Received = Result (P × ℕ) (ReceiveError D L) × R × C

  pub after_deserialize : ℕ → R → Result P D × C → Received
  after_deserialize now r (ok packet, c) = (ok (packet, now), r, c)
  after_deserialize now r (err e, c) = (err (deserialization e), r, c)

  pub after_payload : ℕ → C → Result (List ℕ) IoError × R → Received
  unfolding after_deserialize
  after_payload now c (err e, r) = (err (io e), r, c)
  after_payload now c (ok payload, r) = after_deserialize now r (deserialize payload c)

  pub after_length : ℕ → ℕ → C → Result ℕ (ReceiveError D L) × R → Received
  unfolding after_payload
  after_length limit now c (err e, r) = (err e, r, c)
  after_length limit now c (ok len, r) =
      if ltb limit len then (err packet_too_big, r, c) else after_payload now c (read_exact len r)

  -- `receive_with_timestamp` of `FramedReader`; `none` when the fuel of `read_length` runs out.
  pub receive_with_timestamp : ℕ → ℕ → ℕ → R → C → Option Received
  unfolding read_length after_length
  receive_with_timestamp fuel limit now r c =
      Option.map (after_length limit now c) (read_length read_exact ls fuel r)

-- The sending half: `write_all`, and the encoding of a packet. An error of either serializer becomes
-- an `io::Error` of kind `Other`, here with the number `codec_failed`.
module _ {W C P E L : Type 0} (write_all : List ℕ → W → Result (Unit {0}) IoError × W)
    (ls : PacketLengthSerializer L) (serialize : P → C → Result (List ℕ) E × C) where
  abbrev pub Sent : Type 0
  Sent = Result (Unit {0}) IoError × W × C

  pub after_prefix : List ℕ → W → C → Result (List ℕ) L → Sent
  after_prefix payload w c (err e) = (err (other codec_failed), w, c)
  after_prefix payload w c (ok buf) =
      let (result, w') = write_all (buf ++ payload) w in (result, w', c)

  pub after_serialize : W → Result (List ℕ) E × C → Sent
  unfolding after_prefix
  after_serialize w (err e, c) = (err (other codec_failed), w, c)
  after_serialize w (ok payload, c) =
      after_prefix payload w c (ls.serialize_packet_length (length payload))

  -- `send` of `FramedWriter`.
  pub send : P → W → C → Sent
  unfolding after_serialize
  send packet w c = after_serialize w (serialize packet c)
