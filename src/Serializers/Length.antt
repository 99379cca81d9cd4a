-- ===== src/Serializers/Length.antt =====
-- serializers/packet_length_serializer.rs: the length prefixes of stream transports. `usize` has
-- 64 bits; a number type is its width in bytes (1, 2, 4, 8 or 16), and a byte a number.
pub mod RoundTrip
use mathlib.Core.List.{reverse}
use bevy_slinet.Common.{
  ℕ, zero, suc, ◌+◌, ◌-◌, ◌*◌, ◌/◌, ◌%◌, ◌^◌, List, [], ◌∷◌, Result, ok, err, ltb, leb,
  if◌then◌else◌, length, take, word_max, min,
}

pub data LengthError (E : Type 0) : Type 0 where
  need_more_bytes : ℕ → LengthError E
  failed : E → LengthError E

pub record PacketTooLargeError : Type 0 where
  pub max_length : ℕ
  pub length : ℕ

-- The trait: what a transport needs of a length codec.
pub record PacketLengthSerializer (E : Type 0) : Type 0 where
  pub size : ℕ
  pub serialize_packet_length : ℕ → Result (List ℕ) E
  pub deserialize_packet_length : List ℕ → Result ℕ (LengthError E)

-- `to_le_bytes` and `from_le_bytes` of a number type of `n` bytes, and their big-endian versions.
unfoldable pub to_le_bytes : ℕ → ℕ → List ℕ
to_le_bytes zero v = []
to_le_bytes (suc n) v = (v % 256) ∷ to_le_bytes n (v / 256)

unfoldable pub from_le_bytes : List ℕ → ℕ
from_le_bytes [] = 0
from_le_bytes (b ∷ bs) = b + 256 * from_le_bytes bs

pub data Endianness : Type 0 where
  little_endian big_endian : Endianness

unfoldable pub to_bytes : Endianness → ℕ → ℕ → List ℕ
unfolding to_le_bytes
to_bytes little_endian n v = to_le_bytes n v
to_bytes big_endian n v = reverse (to_le_bytes n v)

unfoldable pub from_bytes : Endianness → List ℕ → ℕ
unfolding from_le_bytes
from_bytes little_endian bs = from_le_bytes bs
from_bytes big_endian bs = from_le_bytes (reverse bs)

-- `<$number>::MAX`.
abbrev pub number_max : ℕ → ℕ
number_max n = 256 ^ n - 1

module _ (e : Endianness) (n : ℕ) where
  unfoldable pub serialize_number : ℕ → Result (List ℕ) PacketTooLargeError
  unfolding to_bytes
  serialize_number len =
      if leb len (number_max n)
      then ok (to_bytes e n len)
      else err (record { max_length = min (number_max n) word_max; length = len })

  unfoldable pub deserialize_number : List ℕ → Result ℕ (LengthError PacketTooLargeError)
  unfolding from_bytes
  deserialize_number buffer =
      if ltb (length buffer) n
      then err (need_more_bytes (n - length buffer))
      else (let value = from_bytes e (take n buffer) in
          if leb value word_max
          then ok value
          else err (failed (record { max_length = word_max; length = word_max })))

  -- `LittleEndian<$number>` and `BigEndian<$number>`.
  abbrev pub number_serializer : PacketLengthSerializer PacketTooLargeError
  number_serializer = record {
    size = n;
    serialize_packet_length = serialize_number;
    deserialize_packet_length = deserialize_number;
  }
