-- ===== src/Serializers/Crypt.antt =====
-- serializers/custom_crypt.rs: a stateful XOR transform with a position for each direction.
-- `bitcode` is a parameter: `encode` of the packets sent and `decode` of those received.
pub mod RoundTrip
use Prim.Native.Nat.{bit_xor}
use bevy_slinet.Common.{ℕ, ◌+◌, ◌%◌, Option, none, some, List, [], ◌∷◌, Result, ok, err}

-- `CustomSerializationError`, which says no more.
pub data CustomSerializationError : Type 0 where
  serialization_failed : CustomSerializationError

pub record ExampleKeyPair : Type 0 where
  pub send : ℕ
  pub receive : ℕ

pub record CustomCryptEngine : Type 0 where
  pub key_pair : ExampleKeyPair

-- `XorPosition::transform`: the loop over the bytes, with the position it ends at. The position is a
-- byte and wraps.
unfoldable pub transform : ℕ → List ℕ → List ℕ × ℕ
transform position [] = ([], position)
transform position (byte ∷ rest) =
    let (out, last) = transform ((position + 1) % 256) rest in (bit_xor byte position ∷ out, last)

unfoldable pub xor_encrypt : List ℕ → CustomCryptEngine → List ℕ × CustomCryptEngine
unfolding transform
xor_encrypt bytes engine =
    let (out, last) = transform engine.key_pair.send bytes in
    (out, record { key_pair = record (engine.key_pair) { send = last } })

unfoldable pub xor_decrypt : List ℕ → CustomCryptEngine → List ℕ × CustomCryptEngine
unfolding transform
xor_decrypt bytes engine =
    let (out, last) = transform engine.key_pair.receive bytes in
    (out, record { key_pair = record (engine.key_pair) { receive = last } })

-- `map_err(|_| CustomSerializationError)`.
abbrev pub or_failed : {P : Type 0} → Option P → Result P CustomSerializationError
or_failed none = err serialization_failed
or_failed (some p) = ok p

-- `encrypt` and `decrypt`, which `CustomCryptSerializer` calls as `serialize` and `deserialize`.
module _ {P : Type 0} where
  unfoldable pub encrypt :
      (P → List ℕ)
      → P
      → CustomCryptEngine
      → Result (List ℕ) CustomSerializationError × CustomCryptEngine
  unfolding xor_encrypt
  encrypt encode packet engine =
      let (out, engine') = xor_encrypt (encode packet) engine in (ok out, engine')

  unfoldable pub decrypt :
      (List ℕ → Option P)
      → List ℕ
      → CustomCryptEngine
      → Result P CustomSerializationError × CustomCryptEngine
  unfolding xor_decrypt
  decrypt decode bytes engine =
      let (data', engine') = xor_decrypt bytes engine in (or_failed (decode data'), engine')
