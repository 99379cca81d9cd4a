-- ===== src/Protocols/Framing/Numbers.antt =====
-- The length codecs of serializers/packet_length_serializer.rs, as protocols/framing.rs needs them.
use bevy_slinet.Common.{
  ℕ, ◌≤◌, ◌≡◌, ap, sym, ◌∙◌, List, [], ok, leb, length, arith, append-nil, word_max, ok_injective,
  Bool-cases, inl, inr,
}
use bevy_slinet.Serializers.Length.{Endianness, number_max, serialize_number, number_serializer}
use bevy_slinet.Serializers.Length.RoundTrip.{
  deserialize_number-serialize_number, serialize_number_refuses,
}
use bevy_slinet.Protocols.Framing.Prefix.{IsIncremental}

serialize_number_small :
    (e : Endianness) (n len : ℕ) (p : List ℕ) → serialize_number e n len ≡ ok p → len ≤ number_max n
serialize_number_small e n len p h = elim (Bool-cases (leb len (number_max n))) [
  | inl small ↦ ground (arith, small)
  | inr big ↦ absurd (cc (h, serialize_number_refuses e n len (ground (arith, big))))
]

-- The prefixes of the number types of up to eight bytes, in either byte order, are of one size and
-- read back, so the rounds of `read_length` make progress with them.
pub number_serializer-IsIncremental :
    (e : Endianness) (n : ℕ) → number_max n ≤ word_max → IsIncremental (number_serializer e n)
number_serializer-IsIncremental e n h = record {
  whole = λ len p s. let (small, same, read) = back len p s in (omega (arith, same), read);
  partial = λ len p k s below above. absurd (omega (arith, (back len p s).1));
}
  where
    back :
        (len : ℕ) (p : List ℕ)
        → serialize_number e n len ≡ ok p
        → (len ≤ number_max n)
          × (length p ≡ n)
          × ((number_serializer e n).deserialize_packet_length p ≡ ok len)
    back len p s =
        let small = serialize_number_small e n len p s in
        let (q, wrote, size, read) =
          deserialize_number-serialize_number e n len [] (omega arith) small in
        let same = ok_injective (sym wrote ∙ s) in
        (
          small,
          ap length (sym same) ∙ size,
          ap (number_serializer e n).deserialize_packet_length (sym same ∙ sym (append-nil q))
              ∙ read,
        )
