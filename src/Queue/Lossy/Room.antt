-- ===== src/Queue/Lossy/Room.antt =====
-- What the eviction loop of connection/queue/lossy.rs computes, against a plain recursion that
-- splits the queue into what is given up and what is kept.
use bevy_slinet.Common.{
  ℕ, ◌+◌, ◌<◌, ◌^◌, ◌≡◌, ◌∙◌, ◌⊎◌, inl, inr, refl, ap, Bool, true, false, ◌&&◌, not, Option, none,
  some, List, [], ◌∷◌, ◌++◌, map, ltb, leb, if◌then◌else◌, length, arith, All, Bool-cases,
  length-append, take-append_length, drop-append_length, sub_word, sub_word-eq-sub,
}
use bevy_slinet.Queue.Lossy.{State, item, evict_scan, drain_front}

module _ {ℓ} {A : Type ℓ} where
  -- The sum of the byte weights.
  abbrev pub weigh : List (A × ℕ) → ℕ
  weigh [] = 0
  weigh (e ∷ es) = e.1 + weigh es

  pub weigh-append : (xs ys : List (A × ℕ)) → weigh (xs ++ ys) ≡ weigh xs + weigh ys
  weigh-append [] ys = omega arith
  weigh-append (x ∷ xs) ys = omega (arith, weigh-append xs ys)

  abbrev onto : A × ℕ → Option (List (A × ℕ) × List (A × ℕ)) → Option (List (A × ℕ) × List (A × ℕ))
  onto e none = none
  onto e (some (gone, kept)) = some (e ∷ gone, kept)

  abbrev pub counts : Option (List (A × ℕ) × List (A × ℕ)) → Option (ℕ × ℕ)
  counts none = none
  counts (some (gone, kept)) = some (length kept, weigh kept)

module _ {ℓ} {A : Type ℓ} (max_items spare : ℕ) where
  -- One more entry of at most the incoming weight fits behind `xs`.
  abbrev pub fits : List (A × ℕ) → Bool
  fits xs = ltb (length xs) max_items && leb (weigh xs) spare

  -- Entries that had to go: with any of them kept, the new entry would not fit.
  abbrev pub Needed : List (A × ℕ) → List (A × ℕ) → Type 0
  Needed [] kept = Unit
  Needed (e ∷ gone) kept = (fits ((e ∷ gone) ++ kept) ≡ false) × Needed gone kept

module _ {ℓ} {A : Type ℓ} (can_evict : A → Bool) (max_items spare : ℕ) where
  -- The entries given up, oldest first, and those kept.
  unfoldable pub split_room : List (A × ℕ) → Option (List (A × ℕ) × List (A × ℕ))
  split_room [] = some ([], [])
  split_room (e ∷ es) =
      if fits max_items spare (e ∷ es)
      then some ([], e ∷ es)
      else if not (can_evict e.0)
      then none
      else onto e (split_room es)

  pub record Room (xs gone kept : List (A × ℕ)) : Type ℓ where
    pub split : gone ++ kept ≡ xs
    pub allowed : All (λ e. can_evict e.0 ≡ true) gone
    pub needed : Needed max_items spare gone kept
    pub enough : (fits max_items spare kept ≡ true) ⊎ (kept ≡ [])

  pub evict_scan-split_room :
      (xs : List (A × ℕ))
      → length xs < 2 ^ 64
      → weigh xs < 2 ^ 64
      → evict_scan can_evict max_items spare xs (length xs) (weigh xs) ≡ counts (split_room xs)
  unfolding evict_scan split_room
  evict_scan-split_room [] h k = refl
  evict_scan-split_room ((old, w) ∷ es) h k = ground (
    arith,
    evict_scan-split_room es,
    sub_word-eq-sub (length ((old, w) ∷ es)) 1,
    sub_word-eq-sub (weigh ((old, w) ∷ es)) w,
  )

  -- A protected entry that would have to go.
  pub record Blocked (xs : List (A × ℕ)) : Type ℓ where
    pub gone : List (A × ℕ)
    pub stuck : A × ℕ
    pub kept : List (A × ℕ)
    pub split : gone ++ (stuck ∷ kept) ≡ xs
    pub allowed : All (λ e. can_evict e.0 ≡ true) gone
    pub needed : Needed max_items spare gone (stuck ∷ kept)
    pub unfit : fits max_items spare (stuck ∷ kept) ≡ false
    pub kept_back : can_evict stuck.0 ≡ false

  abbrev pub Outcome : List (A × ℕ) → Option (List (A × ℕ) × List (A × ℕ)) → Type ℓ
  Outcome xs none = Blocked xs
  Outcome xs (some (gone, kept)) = Room xs gone kept

  Room-cons :
      (x : A × ℕ) {xs gone kept : List (A × ℕ)}
      → fits max_items spare (x ∷ xs) ≡ false
      → can_evict x.0 ≡ true
      → Room xs gone kept
      → Room (x ∷ xs) (x ∷ gone) kept
  Room-cons x tight free r = record {
    split = ap (◌∷◌ x) r.split;
    allowed = (free, r.allowed);
    needed = (ap (λ l. fits max_items spare (x ∷ l)) r.split ∙ tight, r.needed);
    enough = r.enough;
  }

  Blocked-cons :
      (x : A × ℕ) {xs : List (A × ℕ)}
      → fits max_items spare (x ∷ xs) ≡ false
      → can_evict x.0 ≡ true
      → Blocked xs
      → Blocked (x ∷ xs)
  Blocked-cons x tight free b = record {
    gone = x ∷ b.gone;
    stuck = b.stuck;
    kept = b.kept;
    split = ap (◌∷◌ x) b.split;
    allowed = (free, b.allowed);
    needed = (ap (λ l. fits max_items spare (x ∷ l)) b.split ∙ tight, b.needed);
    unfit = b.unfit;
    kept_back = b.kept_back;
  }

  onto-Outcome :
      (x : A × ℕ) (xs : List (A × ℕ)) (o : Option (List (A × ℕ) × List (A × ℕ)))
      → fits max_items spare (x ∷ xs) ≡ false
      → can_evict x.0 ≡ true
      → Outcome xs o
      → Outcome (x ∷ xs) (onto x o)
  onto-Outcome x xs none tight free b = Blocked-cons x tight free b
  onto-Outcome x xs (some (gone, kept)) tight free r = Room-cons x tight free r

  -- A split gives back the queue, gives up only what may go, and no more than has to; it fails only
  -- at a protected entry that would have to go.
  pub split_room-Outcome : (xs : List (A × ℕ)) → Outcome xs (split_room xs)
  unfolding split_room
  split_room-Outcome [] = record { split = refl; allowed = tt; needed = tt; enough = inr refl }
  split_room-Outcome (x ∷ xs) = elim (Bool-cases (fits max_items spare (x ∷ xs))) [
    | inl loose ↦
        rw (loose, split_room)
          (record { split = refl; allowed = tt; needed = tt; enough = inl loose })
    | inr tight ↦ elim (Bool-cases (can_evict x.0)) [
      | inl free ↦
          rw (tight, free, split_room)
            (onto-Outcome x xs (split_room xs) tight free (split_room-Outcome xs))
      | inr held ↦
          rw (tight, held, split_room)
            (record {
              gone = [];
              stuck = x;
              kept = xs;
              split = refl;
              allowed = tt;
              needed = tt;
              unfit = tight;
              kept_back = held;
            })
    ]
  ]

module _ {ℓ} {A : Type ℓ} where
  pub drain_front_lem :
      (s : State A) (gone kept : List (A × ℕ))
      → gone ++ kept ≡ s.items
      → length s.items < 2 ^ 64
      → drain_front s (length kept) (weigh kept)
        ≡ (map item gone, record s { items = kept; bytes = weigh kept })
  unfolding drain_front
  drain_front_lem s gone kept e h =
      ground (arith, evicted, take-append_length gone kept, drop-append_length gone kept)
    where
      evicted : sub_word (length s.items) (length kept) ≡ length gone
      evicted = omega (arith, length-append gone kept, ap length e, h)
