-- ===== src/Serializers/Examples.antt =====
-- The prefixes and the XOR transform of serializers/ at fixed inputs.
use bevy_slinet.Common.{ℕ, ◌+◌, ◌%◌, ◌≡◌, refl, some, List, [], ◌∷◌, ◌++◌, ok, length, All, arith}
use bevy_slinet.Serializers.Length.{big_endian, serialize_number, deserialize_number}
use bevy_slinet.Serializers.Length.RoundTrip.{deserialize_number-serialize_number}
use bevy_slinet.Serializers.Crypt.{CustomCryptEngine, transform, encrypt, decrypt, xor_encrypt}
use bevy_slinet.Serializers.Crypt.RoundTrip.{InStep, decrypt-encrypt, IsByte, transform_bytes}

deserialize_number-serialize_number_example :
    (p : List ℕ) × (serialize_number big_endian 4 70000 ≡ ok p)
    × (length p ≡ 4)
    × (deserialize_number big_endian 4 (p ++ (1 ∷ 2 ∷ [])) ≡ ok 70000)
deserialize_number-serialize_number_example =
    deserialize_number-serialize_number big_endian 4 70000 (1 ∷ 2 ∷ []) (omega arith) (omega arith)

transform_bytes_example :
    All IsByte (transform 255 (7 ∷ 9 ∷ [])).0
    × ((transform 255 (7 ∷ 9 ∷ [])).1 ≡ (255 + 2) % 256)
    × (length (transform 255 (7 ∷ 9 ∷ [])).0 ≡ 2)
transform_bytes_example =
    transform_bytes 255 (7 ∷ 9 ∷ []) (omega arith) (omega arith, (omega arith, tt))

abbrev engine : ℕ → ℕ → CustomCryptEngine
engine n m = record { key_pair = record { send = n; receive = m } }

sent_bytes : encrypt (λ bytes. bytes) (1 ∷ 2 ∷ []) (engine 255 3) ≡ (ok (254 ∷ 2 ∷ []), engine 1 3)
unfolding encrypt xor_encrypt transform
sent_bytes = refl

decrypt-encrypt_example :
    (b' : CustomCryptEngine) × (decrypt some (254 ∷ 2 ∷ []) (engine 9 255) ≡ (ok (1 ∷ 2 ∷ []), b'))
    × InStep (engine 1 3) b'
    × ((engine 1 3).key_pair.receive ≡ (engine 255 3).key_pair.receive)
    × (b'.key_pair.send ≡ 9)
decrypt-encrypt_example =
    decrypt-encrypt (λ bytes. bytes) some (λ p. refl) (1 ∷ 2 ∷ []) (254 ∷ 2 ∷ []) (engine 255 3)
      (engine 1 3) (engine 9 255) refl sent_bytes
