-- ===== src/Queue/Lossy/Transfer.antt =====
-- The calls of a queue of connection/queue/lossy.rs that add or remove items keep it valid, and lose
-- or reorder no item.
use bevy_slinet.Common.{
  ℕ, ◌+◌, ◌-◌, ◌≤◌, ◌<◌, ◌≡◌, ◌≢◌, ◌||◌, inl, inr, refl, ap, Bool, true, not, Option, none, some,
  List, [], ◌∷◌, ◌++◌, map, ltb, leb, ◌==◌, if◌then◌else◌, length, arith, Bool-cases, ok, err,
  length-append, append_assoc, append-nil, map-append, subst, sym, if_elim, not-false, ◌&&◌,
}
use bevy_slinet.Queue.Lossy.{
  Shared, OverflowPolicy, drop_newest, drop_oldest, item, send_check, send_round, pop_front,
  front_ready, recv_error, try_recv_if,
}
use bevy_slinet.Queue.Lossy.Room.{weigh, weigh-append, fits, split_room-Outcome, Outcome}
use bevy_slinet.Queue.Lossy.Invariant.{
  IsValid, admit, offered, accepted, try_send_where_lem, push_back_lem,
}
use bevy_slinet.Queue.Lossy.History.{
  offers, awaits, receives, Effect, effect, quiet, await_checked, awaited_effect, received_effect,
  offered_effect,
}

module _ {ℓ} {A : Type ℓ} where
  pub record IsRoom (q : Shared A) (bytes : ℕ) (gone kept : List (A × ℕ)) : Type ℓ where
    pub split : gone ++ kept ≡ q.items
    pub below_items : length kept < q.max_items
    pub below_bytes : weigh kept + bytes ≤ q.max_bytes

  abbrev pub Fits : Shared A → ℕ → Option (List (A × ℕ) × List (A × ℕ)) → Type ℓ
  Fits q bytes none = Unit
  Fits q bytes (some (gone, kept)) = IsRoom q bytes gone kept

  Outcome-Fits :
      (q : Shared A) (bytes : ℕ) (can_evict : A → Bool) (o : Option (List (A × ℕ) × List (A × ℕ)))
      → q.max_items ≢ 0
      → bytes ≤ q.max_bytes
      → Outcome can_evict q.max_items (q.max_bytes - bytes) q.items o
      → Fits q bytes o
  Outcome-Fits q bytes can_evict none pos small r = tt
  Outcome-Fits q bytes can_evict (some (gone, kept)) pos small r = record {
    split = r.split;
    below_items = ground (arith, r.enough);
    below_bytes = ground (arith, r.enough);
  }

  pub admit-Fits :
      (q : Shared A) (bytes : ℕ) (can_evict : A → Bool) (p : OverflowPolicy)
      → q.max_items ≢ 0
      → bytes ≤ q.max_bytes
      → Fits q bytes (admit q bytes can_evict p)
  admit-Fits q bytes can_evict drop_newest pos small =
      elim (Bool-cases (fits q.max_items (q.max_bytes - bytes) q.items)) [
        | inl loose ↦
            rw loose
              (record { split = refl; below_items = ground arith; below_bytes = ground arith })
        | inr tight ↦ rw tight tt
      ]
  admit-Fits q bytes can_evict drop_oldest pos small =
      Outcome-Fits q bytes can_evict _ pos small
        (split_room-Outcome can_evict q.max_items (q.max_bytes - bytes) q.items)

  -- A call keeps the queue valid and its limits; what was queued, with what came in behind it, is
  -- what left, in that order, with what is queued now behind it.
  pub record Sound (q : Shared A) (e : Effect A) : Type ℓ where
    pub valid : IsValid e.after
    pub same_items : e.after.max_items ≡ q.max_items
    pub same_bytes : e.after.max_bytes ≡ q.max_bytes
    pub same_policy : e.after.policy ≡ q.policy
    pub order : map item q.items ++ e.entered ≡ e.left ++ map item e.after.items

  pub unchanged : (q : Shared A) → IsValid q → Sound q (quiet q)
  unchanged q v = record {
    valid = v;
    same_items = refl;
    same_bytes = refl;
    same_policy = refl;
    order = append-nil (map item q.items);
  }

  accepted-order :
      (q : Shared A) (value : A) (bytes : ℕ) (gone kept : List (A × ℕ))
      → gone ++ kept ≡ q.items
      → map item q.items ++ (value ∷ []) ≡ map item gone ++ map item (kept ++ ((value, bytes) ∷ []))
  accepted-order q value bytes gone kept e = rw (← e) (simp (map-append, append_assoc))

  pub accepted-IsValid :
      (q : Shared A) (value : A) (bytes : ℕ) {gone kept : List (A × ℕ)}
      → IsValid q
      → q.receiver_open ≡ true
      → IsRoom q bytes gone kept
      → IsValid (accepted q value bytes kept)
  accepted-IsValid q value bytes {gone} {kept} v o r = record {
    counted = omega (arith, weigh-append kept ((value, bytes) ∷ []));
    few = omega (arith, length-append kept ((value, bytes) ∷ []), r.below_items);
    light = r.below_bytes;
    items_word = v.items_word;
    bytes_word = v.bytes_word;
    drained = inl o;
  }

  offered-Sound :
      (q : Shared A) (value : A) (bytes : ℕ) (o : Option (List (A × ℕ) × List (A × ℕ)))
      → IsValid q
      → q.receiver_open ≡ true
      → Fits q bytes o
      → Sound q (offered_effect value (offered q value bytes o))
  offered-Sound q value bytes none v o f = unchanged q v
  offered-Sound q value bytes (some (gone, kept)) v o r = record {
    valid = accepted-IsValid q value bytes v o r;
    same_items = refl;
    same_bytes = refl;
    same_policy = refl;
    order = accepted-order q value bytes gone kept r.split;
  }

  pub offers-Sound :
      (q : Shared A) (value : A) (bytes : ℕ) (can_evict : A → Bool)
      → IsValid q
      → Sound q (effect q (offers value bytes can_evict))
  unfolding effect
  offers-Sound q value bytes can_evict v =
      subst (λ r. Sound q (offered_effect value r))
        (sym (try_send_where_lem q value bytes can_evict v))
        (if_elim (λ r. Sound q (offered_effect value r)) (not q.receiver_open) _ _
          (λ _. unchanged q v)
          λ o.
            if_elim (λ r. Sound q (offered_effect value r))
              ((q.max_items == 0) || ltb q.max_bytes bytes) _ _ (λ _. unchanged q v)
              λ usable.
                offered-Sound q value bytes _ v (not-false o)
                  (admit-Fits q bytes can_evict q.policy (ground arith) (ground arith)))

  round-Sound :
      (q : Shared A) (value : A) (bytes : ℕ)
      → IsValid q
      → bytes ≤ q.max_bytes
      → Sound q (awaited_effect value (send_round q value bytes))
  unfolding send_round
  round-Sound q value bytes v small =
      if_elim (λ r. Sound q (awaited_effect value r)) (not q.receiver_open) _ _ (λ _. unchanged q v)
        λ o.
          if_elim (λ r. Sound q (awaited_effect value r))
            (ltb (length q.items) q.max_items && leb q.bytes (q.max_bytes - bytes)) _ _
            (λ loose.
              subst (λ s. Sound q (record { entered = value ∷ []; left = []; after = s }))
                (sym (push_back_lem q value bytes v.counted (ground arith)))
                (record {
                  valid = accepted-IsValid q value bytes {gone = []} v (not-false o) (record {
                    split = refl;
                    below_items = ground arith;
                    below_bytes = ground arith;
                  });
                  same_items = refl;
                  same_bytes = refl;
                  same_policy = refl;
                  order = accepted-order q value bytes [] q.items refl;
                }))
            (λ _. unchanged q v)

  pub awaits-Sound :
      (q : Shared A) (value : A) (bytes : ℕ) → IsValid q → Sound q (effect q (awaits value bytes))
  unfolding effect send_check
  awaits-Sound q value bytes v = elim (Bool-cases ((q.max_items == 0) || ltb q.max_bytes bytes)) [
    | inl never ↦ rw (never, await_checked) (unchanged q v)
    | inr usable ↦ rw (usable, await_checked) (round-Sound q value bytes v (ground arith))
  ]

  front-Sound :
      (q : Shared A) (is_ready : A → Bool) (xs : List (A × ℕ))
      → q.items ≡ xs
      → IsValid q
      → Sound q (
          received_effect (elim (if front_ready is_ready xs then pop_front q xs else none) [
            | some (value, q') ↦ (ok value, q')
            | none ↦ (err (recv_error q), q)
          ]))
  unfolding front_ready pop_front
  front-Sound q is_ready [] e v = unchanged q v
  front-Sound q is_ready ((value, w) ∷ rest) e v = elim (Bool-cases (is_ready value)) [
    | inl go ↦ rw go (record {
      valid = record {
        counted = omega (arith, v.counted, ap weigh e, v.light, v.bytes_word);
        few = omega (arith, v.few, ap length e);
        light = omega (arith, v.counted, ap weigh e, v.light, v.bytes_word);
        items_word = v.items_word;
        bytes_word = v.bytes_word;
        drained = ground (arith, v.drained);
      };
      same_items = refl;
      same_bytes = refl;
      same_policy = refl;
      order = rw e (append-nil (map item ((value, w) ∷ rest)));
    })
    | inr wait ↦ rw wait (unchanged q v)
  ]

  pub receives-Sound :
      (q : Shared A) (is_ready : A → Bool) → IsValid q → Sound q (effect q (receives is_ready))
  unfolding effect try_recv_if
  receives-Sound q is_ready v = front-Sound q is_ready q.items refl v
