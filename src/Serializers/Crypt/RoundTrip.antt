-- ===== src/Serializers/Crypt/RoundTrip.antt =====
-- The XOR transform of serializers/custom_crypt.rs undoes itself at equal positions, so a receiver
-- in step with the sender decodes what was encoded.
use bevy_slinet.Common.{
  ℕ, ◌+◌, ◌%◌, ◌<◌, ◌≡◌, refl, ap, sym, ◌∙◌, Option, some, List, [], ◌∷◌, ok, arith, All, length,
  suc, ok_injective,
}
use bevy_slinet.Common.Xor.{bit_xor_twice, bit_xor-lt_pow}
use bevy_slinet.Serializers.Crypt.{
  CustomCryptEngine, transform, xor_encrypt, xor_decrypt, or_failed, encrypt, decrypt,
}

abbrev pub IsByte : ℕ → Type 0
IsByte b = b < 256

-- Two transforms from one position: the bytes come back, and both end at one position.
pub transform-transform :
    (position : ℕ) (bytes : List ℕ)
    → transform position (transform position bytes).0 ≡ (bytes, (transform position bytes).1)
unfolding transform
transform-transform position [] = refl
transform-transform position (b ∷ bs) =
    let ih = transform-transform ((position + 1) % 256) bs in
    λ i. (bit_xor_twice b position i ∷ (ih i).0, (ih i).1)

-- The transform of bytes at a byte's position is as many bytes, and moves the position by their
-- number, modulo 256.
pub transform_bytes :
    (position : ℕ) (bytes : List ℕ)
    → position < 256
    → All IsByte bytes
    → All IsByte (transform position bytes).0
      × ((transform position bytes).1 ≡ (position + length bytes) % 256)
      × (length (transform position bytes).0 ≡ length bytes)
unfolding transform
transform_bytes position [] h a = (tt, omega arith, refl)
transform_bytes position (b ∷ bs) h a =
    let (bytes', last, len) = transform_bytes ((position + 1) % 256) bs (omega arith) a.1 in
    ((bit_xor-lt_pow 8 b position a.0 h, bytes'), omega (arith, last), ap suc len)

-- The receiver's position is the sender's.
abbrev pub InStep : CustomCryptEngine → CustomCryptEngine → Type 0
InStep sender receiver = sender.key_pair.send ≡ receiver.key_pair.receive

received_at :
    (a b : CustomCryptEngine) (bytes : List ℕ)
    → InStep a b
    → xor_decrypt (xor_encrypt bytes a).0 b ≡ (
      bytes,
      record { key_pair = record (b.key_pair) { receive = (transform a.key_pair.send bytes).1 } },
    )
unfolding xor_encrypt xor_decrypt
received_at a b bytes s =
    ap (λ t. (t.0, record { key_pair = record (b.key_pair) { receive = t.1 } }))
      (ap (λ k. transform k (transform a.key_pair.send bytes).0) (sym s)
        ∙ transform-transform a.key_pair.send bytes)

-- What one engine encrypts, an engine in step decrypts to the same packet, if the encoding can be
-- decoded; the two are in step again, and neither position of the other direction has moved.
pub decrypt-encrypt :
    {P : Type 0} (encode : P → List ℕ) (decode : List ℕ → Option P)
    → ((p : P) → decode (encode p) ≡ some p)
    → (packet : P) (payload : List ℕ) (a a' b : CustomCryptEngine) → InStep a b
    → encrypt encode packet a ≡ (ok payload, a')
    → (b' : CustomCryptEngine) × (decrypt decode payload b ≡ (ok packet, b'))
      × InStep a' b'
      × (a'.key_pair.receive ≡ a.key_pair.receive)
      × (b'.key_pair.send ≡ b.key_pair.send)
unfolding encrypt decrypt
decrypt-encrypt encode decode back packet payload a a' b s h = (
  (xor_decrypt payload b).1,
  ap (λ l. (or_failed (decode l), (xor_decrypt payload b).1)) decrypted
      ∙ ap (λ o. (or_failed o, (xor_decrypt payload b).1)) (back packet),
  ap (λ e. e.key_pair.send) (sym after) ∙ ap (λ e. e.key_pair.receive) (sym last),
  ap (λ e. e.key_pair.receive) (sym after),
  ap (λ e. e.key_pair.send) last,
)
  where
    out : List ℕ
    out = (xor_encrypt (encode packet) a).0

    same : out ≡ payload
    same = ok_injective (λ i. (h i).0)

    after : (xor_encrypt (encode packet) a).1 ≡ a'
    after = λ i. (h i).1

    both : xor_decrypt payload b ≡ (
      encode packet,
      record {
        key_pair = record (b.key_pair) { receive = (transform a.key_pair.send (encode packet)).1 };
      },
    )
    both = ap (λ l. xor_decrypt l b) (sym same) ∙ received_at a b (encode packet) s

    decrypted : (xor_decrypt payload b).0 ≡ encode packet
    decrypted = λ i. (both i).0

    last : (xor_decrypt payload b).1 ≡ record {
      key_pair = record (b.key_pair) { receive = (transform a.key_pair.send (encode packet)).1 };
    }
    last = λ i. (both i).1
