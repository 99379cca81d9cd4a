-- ===== src/Serializers/Length/RoundTrip.antt =====
-- Prefixes of serializers/packet_length_serializer.rs: what is written is read back.
use mathlib.Core.List.{reverse-reverse}
use bevy_slinet.Common.{
  ℕ, zero, suc, ◌-◌, ◌/◌, ◌^◌, ◌≤◌, ◌<◌, ◌≡◌, refl, ap, sym, ◌∙◌, List, ◌++◌, ok, err, leb, length,
  take, word_max, min, arith, length-reverse, length-append, take-append_length, subst, Bool-cases,
  inl, inr, if_true, if_false, ok_injective,
}
use native.Mathlib.Nat.{pow-suc}
use bevy_slinet.Serializers.Length.{
  need_more_bytes, to_le_bytes, from_le_bytes, Endianness, little_endian, big_endian, to_bytes,
  from_bytes, number_max, serialize_number, deserialize_number,
}

length-to_le_bytes : (n v : ℕ) → length (to_le_bytes n v) ≡ n
unfolding to_le_bytes
length-to_le_bytes zero v = refl
length-to_le_bytes (suc n) v = ap suc (length-to_le_bytes n (v / 256))

from_le_bytes-to_le_bytes : (n v : ℕ) → v < 256 ^ n → from_le_bytes (to_le_bytes n v) ≡ v
unfolding to_le_bytes from_le_bytes
from_le_bytes-to_le_bytes zero v h = omega arith
from_le_bytes-to_le_bytes (suc n) v h =
    omega (arith, from_le_bytes-to_le_bytes n (v / 256) (omega (arith, pow-suc 256 n)))

length-to_bytes : (e : Endianness) (n v : ℕ) → length (to_bytes e n v) ≡ n
unfolding to_bytes
length-to_bytes little_endian n v = length-to_le_bytes n v
length-to_bytes big_endian n v = length-reverse (to_le_bytes n v) ∙ length-to_le_bytes n v

from_bytes-to_bytes : (e : Endianness) (n v : ℕ) → v < 256 ^ n → from_bytes e (to_bytes e n v) ≡ v
unfolding to_bytes from_bytes
from_bytes-to_bytes little_endian n v h = from_le_bytes-to_le_bytes n v h
from_bytes-to_bytes big_endian n v h =
    ap from_le_bytes (reverse-reverse (to_le_bytes n v)) ∙ from_le_bytes-to_le_bytes n v h

pow_pos : (n : ℕ) → 0 < 256 ^ n
pow_pos zero = omega arith
pow_pos (suc n) = omega (arith, pow_pos n, pow-suc 256 n)

-- What a buffer of at least `n` bytes reads as.
deserialize_number_of_long :
    (e : Endianness) (n v : ℕ) (buffer : List ℕ)
    → n ≤ length buffer
    → from_bytes e (take n buffer) ≡ v
    → v ≤ word_max
    → deserialize_number e n buffer ≡ ok v
unfolding deserialize_number
deserialize_number_of_long e n v buffer h q k = ground arith

-- A length that the number type holds is written in exactly its bytes, and any buffer that begins
-- with them reads as that length.
pub deserialize_number-serialize_number :
    (e : Endianness) (n len : ℕ) (rest : List ℕ)
    → len ≤ word_max
    → len ≤ number_max n
    → (p : List ℕ) × (serialize_number e n len ≡ ok p)
      × (length p ≡ n)
      × (deserialize_number e n (p ++ rest) ≡ ok len)
unfolding serialize_number deserialize_number
deserialize_number-serialize_number e n len rest h k =
    (p, ground (arith, pow_pos n), length-to_bytes e n len, read)
  where
    p : List ℕ
    p = to_bytes e n len

    front : take n (p ++ rest) ≡ p
    front =
        subst (λ m. take m (p ++ rest) ≡ p) (length-to_bytes e n len) (take-append_length p rest)

    read : deserialize_number e n (p ++ rest) ≡ ok len
    read =
        deserialize_number_of_long e n len (p ++ rest)
          (omega (arith, length-append p rest, length-to_bytes e n len))
          (ap (from_bytes e) front ∙ from_bytes-to_bytes e n len (omega (arith, pow_pos n))) h

-- A length that the number type does not hold is refused, and the error names it.
pub serialize_number_refuses :
    (e : Endianness) (n len : ℕ)
    → number_max n < len
    → serialize_number e n len
      ≡ err (record { max_length = min (number_max n) word_max; length = len })
unfolding serialize_number
serialize_number_refuses e n len h = ground arith

-- A buffer shorter than the prefix asks for exactly the bytes that are missing.
pub deserialize_number_short :
    (e : Endianness) (n : ℕ) (buffer : List ℕ)
    → length buffer < n
    → deserialize_number e n buffer ≡ err (need_more_bytes (n - length buffer))
unfolding deserialize_number
deserialize_number_short e n buffer h = ground arith

-- A prefix is as long as its number type.
pub length-serialize_number :
    (e : Endianness) (n len : ℕ) (p : List ℕ) → serialize_number e n len ≡ ok p → length p ≡ n
unfolding serialize_number
length-serialize_number e n len p h = elim (Bool-cases (leb len (number_max n))) [
  | inl small ↦
      ap length (ok_injective (sym h ∙ if_true (leb len (number_max n)) _ _ small))
      ∙ length-to_bytes e n len
  | inr big ↦ absurd (cc (h, if_false (leb len (number_max n)) _ _ big))
]
