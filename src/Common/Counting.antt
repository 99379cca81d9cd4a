-- ===== src/Common/Counting.antt =====
-- How often a number occurs in a list, and the removal of an element by its place.
use Prim.Native.Nat.{ℕ, zero, suc, ◌+◌}
use mathlib.Core.Path.{◌≡◌}
use mathlib.Core.Option.{Option, none, some}
use mathlib.Core.List.{List, [], ◌∷◌, ◌++◌, map}
use native.Mathlib.Omega.{arith}
use bevy_slinet.Common.Tests.{◌==◌, if◌then◌else◌}
use bevy_slinet.Common.Lists.{length}

abbrev pub times : ℕ → List ℕ → ℕ
times a [] = 0
times a (b ∷ rest) = (if a == b then 1 else 0) + times a rest

pub times-append : (a : ℕ) (xs ys : List ℕ) → times a (xs ++ ys) ≡ times a xs + times a ys
times-append a [] ys = omega arith
times-append a (b ∷ xs) ys = omega (arith, times-append a xs ys)

-- One element of a list, by its place, and the others.
unfoldable pub take_at {ℓ} : {A : Type ℓ} → ℕ → List A → Option (A × List A)
take_at n [] = none
take_at zero (a ∷ rest) = some (a, rest)
take_at (suc n) (a ∷ rest) = elim (take_at n rest) [
  | none ↦ none
  | some (b, others) ↦ some (b, a ∷ others)
]

module _ {A : Type 0} (key : A → ℕ) where
  -- What `take_at` leaves, counted by a key.
  pub record RemovedBy (xs : List A) (b : A) (others : List A) : Type 0 where
    pub removes : (a : ℕ) → times a (map key xs) ≡ times a (key b ∷ []) + times a (map key others)
    pub shorter : length xs ≡ suc (length others)

  abbrev pub TookBy : List A → Option (A × List A) → Type 0
  TookBy xs none = Unit
  TookBy xs (some (b, others)) = RemovedBy xs b others

  TookBy-cons :
      (c : A) (xs : List A) (r : Option (A × List A))
      → TookBy xs r
      → TookBy (c ∷ xs) (elim r [ none ↦ none | some (b, others) ↦ some (b, c ∷ others) ])
  TookBy-cons c xs none t = tt
  TookBy-cons c xs (some (b, others)) t = record {
    removes = λ a. omega (arith, t.removes a);
    shorter = omega (arith, t.shorter);
  }

  pub take_at-TookBy : (n : ℕ) (xs : List A) → TookBy xs (take_at n xs)
  unfolding take_at
  take_at-TookBy n [] = tt
  take_at-TookBy zero (b ∷ xs) = record { removes = λ a. omega arith; shorter = omega arith }
  take_at-TookBy (suc n) (b ∷ xs) = TookBy-cons b xs (take_at n xs) (take_at-TookBy n xs)

-- The same for a list of numbers, each its own key.
pub record Removed (xs : List ℕ) (b : ℕ) (others : List ℕ) : Type 0 where
  pub removes : (a : ℕ) → times a xs ≡ times a (b ∷ []) + times a others
  pub shorter : length xs ≡ suc (length others)

abbrev pub TookAt : List ℕ → Option (ℕ × List ℕ) → Type 0
TookAt xs none = Unit
TookAt xs (some (b, others)) = Removed xs b others

TookAt-cons :
    (c : ℕ) (xs : List ℕ) (r : Option (ℕ × List ℕ))
    → TookAt xs r
    → TookAt (c ∷ xs) (elim r [ none ↦ none | some (b, others) ↦ some (b, c ∷ others) ])
TookAt-cons c xs none t = tt
TookAt-cons c xs (some (b, others)) t = record {
  removes = λ a. omega (arith, t.removes a);
  shorter = omega (arith, t.shorter);
}

pub take_at-TookAt : (n : ℕ) (xs : List ℕ) → TookAt xs (take_at n xs)
unfolding take_at
take_at-TookAt n [] = tt
take_at-TookAt zero (b ∷ xs) = record { removes = λ a. omega arith; shorter = omega arith }
take_at-TookAt (suc n) (b ∷ xs) = TookAt-cons b xs (take_at n xs) (take_at-TookAt n xs)
