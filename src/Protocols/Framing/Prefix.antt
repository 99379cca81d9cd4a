-- ===== src/Protocols/Framing/Prefix.antt =====
-- `read_length` of protocols/framing.rs against the laws of a length codec and of a byte stream.
use bevy_slinet.Common.{
  ℕ, zero, suc, ◌+◌, ◌-◌, ◌≤◌, ◌<◌, ◌≡◌, refl, ap, ap₂, sym, ◌∙◌, Option, some, List, ◌++◌, Result,
  ok, err, ltb, length, take, drop, replicate, arith, length-append, length-take, length-drop,
  length-replicate, take-append_length, take_add, drop-drop, take-append_le, drop-append_le,
  take_all, drop_all, false, ℕ_discrete,
}
use bevy_slinet.Serializers.Length.{LengthError, need_more_bytes, PacketLengthSerializer}
use bevy_slinet.Protocols.Framing.{
  IoError, ReceiveError, go_on, resize, get_mut_from, after_decode, after_read, read_slice,
  read_round, read_length_loop, read_length,
}

-- A stream that hands out the bytes of `remaining`, in order, where enough of them are left.
pub record IsByteStream {R : Type 0} (read_exact : ℕ → R → Result (List ℕ) IoError × R)
    (remaining : R → List ℕ) : Type 0 where
  pub reads :
      (n : ℕ) (r : R)
      → n ≤ length (remaining r)
      → (r' : R) × (read_exact n r ≡ (ok (take n (remaining r)), r'))
        × (remaining r' ≡ drop n (remaining r))

-- A codec whose prefixes read back, and which asks for more bytes of its own prefix, at least one
-- and never past its end, as long as it has not seen all of it.
pub record IsIncremental {L : Type 0} (ls : PacketLengthSerializer L) : Type 0 where
  pub whole :
      (len : ℕ) (p : List ℕ)
      → ls.serialize_packet_length len ≡ ok p
      → (ls.size ≤ length p) × (ls.deserialize_packet_length p ≡ ok len)
  pub partial :
      (len : ℕ) (p : List ℕ) (k : ℕ)
      → ls.serialize_packet_length len ≡ ok p
      → ls.size ≤ k
      → k < length p
      → (j : ℕ) × (ls.deserialize_packet_length (take k p) ≡ err (need_more_bytes j))
        × (0 < j)
        × (k + j ≤ length p)

take-take-replicate :
    (f m : ℕ) (p : List ℕ) → f ≤ length p → take f (take f p ++ replicate m 0) ≡ take f p
take-take-replicate f m p h =
    ap (λ k. take k (take f p ++ replicate m 0)) (omega (arith, length-take f p))
    ∙ take-append_length (take f p) (replicate m 0)

-- What a round puts together from the prefix so far and the bytes read.
joined :
    (f m : ℕ) (p rest : List ℕ)
    → f + m ≤ length p
    → take f (take f p ++ replicate m 0) ++ take m (drop f p ++ rest) ≡ take (f + m) p
joined f m p rest h =
    ap₂ ◌++◌ (take-take-replicate f m p (omega arith))
      (take-append_le m (drop f p) rest (omega (arith, length-drop f p)))
    ∙ sym (take_add f m p h)

-- What the stream holds after the round.
beyond :
    (f m : ℕ) (p rest : List ℕ)
    → f + m ≤ length p
    → drop m (drop f p ++ rest) ≡ drop (f + m) p ++ rest
beyond f m p rest h =
    drop-append_le m (drop f p) rest (omega (arith, length-drop f p))
    ∙ ap (λ l. l ++ rest) (drop-drop f m p)

get_mut_from_front :
    (f m : ℕ) (p : List ℕ) → f ≤ length p → get_mut_from (take f p ++ replicate m 0) f ≡ some m
unfolding get_mut_from
get_mut_from_front f m p h =
    ground (
      arith,
      length-append (take f p) (replicate m 0),
      length-take f p,
      length-replicate {A = ℕ} m 0,
    )

resize_longer : (q : List ℕ) (j : ℕ) → resize q (length q + j) ≡ q ++ replicate j 0
unfolding resize
resize_longer q j =
    let e : length q + j - length q ≡ j = omega arith in
    let n : ltb (length q + j) (length q) ≡ false = ground arith in rw (n, e) refl

front_length : (f m : ℕ) (p : List ℕ) → f + m ≤ length p → length (take (f + m) p) ≡ f + m
front_length f m p h = omega (arith, length-take (f + m) p)

module _ {L : Type 0} (ls : PacketLengthSerializer L) (codec : IsIncremental ls) where
  whole_at :
      (len k : ℕ) (p : List ℕ)
      → ls.serialize_packet_length len ≡ ok p
      → k ≡ length p
      → ls.deserialize_packet_length (take k p) ≡ ok len
  whole_at len k p e done =
      ap ls.deserialize_packet_length (take_all k p (omega arith)) ∙ (codec.whole len p e).1

module _ {R D L : Type 0} (read_exact : ℕ → R → Result (List ℕ) IoError × R)
    (ls : PacketLengthSerializer L) (remaining : R → List ℕ)
    (stream : IsByteStream read_exact remaining) (codec : IsIncremental ls) where
  read_round_lem :
      (f m : ℕ) (p rest : List ℕ) (r : R)
      → f + m ≤ length p
      → remaining r ≡ drop f p ++ rest
      → (r' : R) × (read_round {D = D} read_exact ls (take f p ++ replicate m 0) f r
          ≡ after_decode (take (f + m) p) r' (ls.deserialize_packet_length (take (f + m) p)))
        × (remaining r' ≡ drop (f + m) p ++ rest)
  unfolding read_round read_slice after_read
  read_round_lem f m p rest r h s = (
    r',
    ap (read_slice read_exact ls prefix f r) (get_mut_from_front f m p (omega arith))
        ∙ ap (after_read read_exact ls prefix f) got.1
        ∙ ap (λ q. after_decode q r' (ls.deserialize_packet_length q))
            (ap (λ l. take f prefix ++ take m l) s ∙ joined f m p rest h),
    got.2 ∙ ap (drop m) s ∙ beyond f m p rest h,
  )
    where
      prefix : List ℕ
      prefix = take f p ++ replicate m 0

      got :
          (r' : R) × (read_exact m r ≡ (ok (take m (remaining r)), r'))
          × (remaining r' ≡ drop m (remaining r))
      got =
          stream.reads m r
            (omega (arith, ap length s, length-append (drop f p) rest, length-drop f p))

      r' : R
      r' = got.0

  -- The result of the loop on a stream that goes on with the rest of a prefix and then `rest`.
  abbrev pub Reads : List ℕ → ℕ → Option (Result ℕ (ReceiveError D L) × R) → Type 0
  Reads rest len o = (r : R) × (o ≡ some (ok len, r)) × (remaining r ≡ rest)

  finish :
      (rest : List ℕ → ℕ → R → Option (Result ℕ (ReceiveError D L) × R)) (q : List ℕ) (r : R)
      (d : Result ℕ (LengthError L)) (len : ℕ)
      → d ≡ ok len
      → go_on rest (after_decode q r d) ≡ some (ok len, r)
  unfolding go_on after_decode
  finish rest q r d len e = rw (e, after_decode) refl

  proceed :
      (rest : List ℕ → ℕ → R → Option (Result ℕ (ReceiveError D L) × R)) (q : List ℕ) (r : R)
      (d : Result ℕ (LengthError L)) (j n : ℕ)
      → d ≡ err (need_more_bytes j)
      → length q ≡ n
      → go_on rest (after_decode q r d) ≡ rest (q ++ replicate j 0) n r
  unfolding go_on after_decode
  proceed rest q r d j n e h = rw (e, after_decode) (ap₂ (λ z k. rest z k r) (resize_longer q j) h)

  -- Enough fuel: as many rounds as bytes are missing.
  loop-Reads :
      (fuel len f m : ℕ) (p rest : List ℕ) (r : R)
      → length p - (f + m) < fuel
      → ls.serialize_packet_length len ≡ ok p
      → ls.size ≤ f + m
      → f + m ≤ length p
      → remaining r ≡ drop f p ++ rest
      → Reads rest len (read_length_loop read_exact ls fuel (take f p ++ replicate m 0) f r)
  unfolding read_length_loop
  loop-Reads zero len f m p rest r enough e big small s = absurd (omega arith)
  loop-Reads (suc fuel) len f m p rest r enough e big small s =
      let (r', round, left) = read_round_lem f m p rest r small s in
      elim (ℕ_discrete (f + m) (length p)) [
        | yes done ↦ (
          r',
          ap (go_on (read_length_loop read_exact ls fuel)) round
              ∙ finish (read_length_loop read_exact ls fuel) (take (f + m) p) r' _ len
                  (whole_at ls codec len (f + m) p e done),
          left ∙ ap (λ l. l ++ rest) (drop_all (f + m) p (omega arith)),
        )
        | no more ↦
            let (j, asked, some_more, within) = codec.partial len p (f + m) e big (omega arith) in
            let (z, found, left') =
              loop-Reads fuel len (f + m) j p rest r' (omega arith) e (omega arith) within left in
            (
              z,
              ap (go_on (read_length_loop read_exact ls fuel)) round
                  ∙ proceed (read_length_loop read_exact ls fuel) (take (f + m) p) r' _ j (f + m)
                      asked (front_length f m p small)
                  ∙ found,
              left',
            )
      ]

  -- On a stream that begins with a serialized length, `read_length` returns that length and leaves
  -- the stream behind the prefix, with fuel for one round more than the prefix has bytes.
  pub read_length-Reads :
      (fuel len : ℕ) (p rest : List ℕ) (r : R)
      → length p < fuel
      → ls.serialize_packet_length len ≡ ok p
      → remaining r ≡ p ++ rest
      → Reads rest len (read_length read_exact ls fuel r)
  unfolding read_length
  read_length-Reads fuel len p rest r enough e s =
      loop-Reads fuel len 0 ls.size p rest r (omega arith) e (omega arith)
        (omega (arith, (codec.whole len p e).0)) s
