-- ===== src/Protocols/Framing/Sequence/Examples.antt =====
-- The framing of protocols/framing.rs on streams that are lists, with two-byte prefixes and the
-- codec of serializers/custom_crypt.rs.
use bevy_slinet.Common.{
  ℕ, ◌≤◌, ◌<◌, ◌≡◌, refl, ap, sym, Option, none, some, List, [], ◌∷◌, ◌++◌, ok, err, Result, ltb,
  if◌then◌else◌, length, take, drop, map, arith, if_false, ok_injective,
}
use bevy_slinet.Serializers.Length.{
  little_endian, number_serializer, serialize_number, to_bytes, to_le_bytes, PacketTooLargeError,
  PacketLengthSerializer,
}
use bevy_slinet.Serializers.Length.RoundTrip.{length-serialize_number}
use bevy_slinet.Serializers.Crypt.{
  CustomCryptEngine, CustomSerializationError, encrypt, decrypt, xor_encrypt, transform,
}
use bevy_slinet.Serializers.Crypt.RoundTrip.{InStep, decrypt-encrypt}
use bevy_slinet.Protocols.Framing.{
  IoError, broken_pipe, packet_too_big, receive_with_timestamp, send, after_serialize, after_prefix,
  read_length,
}
use bevy_slinet.Protocols.Framing.Prefix.{IsByteStream, read_length-Reads}
use bevy_slinet.Protocols.Framing.RoundTrip.{IsByteSink, IsCodecPair, receive-TooBig}
use bevy_slinet.Protocols.Framing.Numbers.{number_serializer-IsIncremental}
use bevy_slinet.Protocols.Framing.Sequence.{send_all, then_send, receive_all, receive_all-send_all}

abbrev read_list : ℕ → List ℕ → Result (List ℕ) IoError × List ℕ
read_list n bytes =
    if ltb (length bytes) n then (err broken_pipe, bytes) else (ok (take n bytes), drop n bytes)

abbrev write_list : List ℕ → List ℕ → Result (Unit {0}) IoError × List ℕ
write_list buf bytes = (ok tt, bytes ++ buf)

abbrev same : List ℕ → List ℕ
same bytes = bytes

read_list-IsByteStream : IsByteStream read_list same
read_list-IsByteStream = record {
  reads = λ n bytes h. (drop n bytes, if_false (ltb (length bytes) n) _ _ (ground arith), refl);
}

write_list-IsByteSink : IsByteSink write_list same
write_list-IsByteSink = record { writes = λ buf bytes bytes' h. ap (λ r. r.1) (sym h) }

-- Packets of one byte.
abbrev encode : ℕ → List ℕ
encode n = n ∷ []

abbrev decode : List ℕ → Option ℕ
decode [] = none
decode (n ∷ []) = some n
decode (n ∷ m ∷ rest) = none

abbrev engine : ℕ → ℕ → CustomCryptEngine
engine n m = record { key_pair = record { send = n; receive = m } }

abbrev prefixes : PacketLengthSerializer PacketTooLargeError
prefixes = number_serializer little_endian 2

encrypt-IsCodecPair : IsCodecPair (encrypt encode) (decrypt decode) InStep
encrypt-IsCodecPair = record {
  decodes = λ packet payload cs cs' cr s h.
      let (b, read, again, ours, theirs) =
        decrypt-encrypt encode decode (λ p. refl) packet payload cs cs' cr s h in
      (b, read, again);
}

one_byte :
    (packet : ℕ) (payload : List ℕ) (c c' : CustomCryptEngine)
    → encrypt encode packet c ≡ (ok payload, c')
    → length payload ≤ 1
unfolding encrypt xor_encrypt transform
one_byte packet payload c c' h = omega (arith, ap length (ok_injective (λ i. (h i).0)))

two_bytes : (len : ℕ) (p : List ℕ) → prefixes.serialize_packet_length len ≡ ok p → length p < 3
two_bytes len p h = omega (arith, length-serialize_number little_endian 2 len p h)

abbrev conversation : List (ℕ × ℕ)
conversation = (65, 1000) ∷ (66, 2000) ∷ []

abbrev frames : List ℕ
frames = 1 ∷ 0 ∷ 70 ∷ 1 ∷ 0 ∷ 74 ∷ []

sent_conversation :
    send_all write_list prefixes (encrypt encode) conversation [] (engine 7 7)
    ≡ (ok tt, frames, engine 9 7)
unfolding send_all then_send send after_serialize after_prefix encrypt xor_encrypt transform
    serialize_number to_bytes to_le_bytes
sent_conversation = refl

receive_all-send_all_example :
    (r' : List ℕ) × (cr' : CustomCryptEngine) × (receive_all read_list prefixes
        (decrypt decode)
        3
        1
        (map (λ e. e.1) conversation)
        (frames ++ (9 ∷ []))
        (engine 7 7)
      ≡ some (ok conversation, r', cr'))
    × (r' ≡ 9 ∷ [])
    × InStep (engine 9 7) cr'
receive_all-send_all_example =
    receive_all-send_all write_list read_list prefixes (encrypt encode) (decrypt decode) same same
      InStep 3 1 write_list-IsByteSink read_list-IsByteStream
      (number_serializer-IsIncremental little_endian 2 (omega arith)) encrypt-IsCodecPair two_bytes
      one_byte conversation [] frames (engine 7 7) (engine 9 7) (engine 7 7) frames (9 ∷ [])
      (frames ++ (9 ∷ [])) refl sent_conversation refl refl

-- The prefix of a packet of 258 bytes.
abbrev long_prefix : List ℕ
long_prefix = 2 ∷ 1 ∷ []

long_prefix_lem : prefixes.serialize_packet_length 258 ≡ ok long_prefix
unfolding serialize_number to_bytes to_le_bytes
long_prefix_lem = refl

read_length-Reads_example :
    (r' : List ℕ) × (read_length {D = CustomSerializationError} read_list prefixes 3
        (long_prefix ++ (5 ∷ []))
      ≡ some (ok 258, r'))
    × (r' ≡ 5 ∷ [])
read_length-Reads_example =
    read_length-Reads read_list prefixes same read_list-IsByteStream
      (number_serializer-IsIncremental little_endian 2 (omega arith)) 3 258 long_prefix (5 ∷ [])
      (long_prefix ++ (5 ∷ [])) (omega arith) long_prefix_lem refl

receive-TooBig_example :
    (r' : List ℕ) × (receive_with_timestamp read_list prefixes
        (decrypt decode)
        3
        257
        0
        (long_prefix ++ (5 ∷ []))
        (engine 7 7)
      ≡ some (err packet_too_big, r', engine 7 7))
    × (r' ≡ 5 ∷ [])
receive-TooBig_example =
    receive-TooBig read_list prefixes (decrypt decode) same read_list-IsByteStream
      (number_serializer-IsIncremental little_endian 2 (omega arith)) 3 257 0 258 long_prefix
      (5 ∷ []) (long_prefix ++ (5 ∷ [])) (engine 7 7) (omega arith) (omega arith) long_prefix_lem
      refl
