-- ===== src/Protocols/Udp/Listener/Registry.antt =====
-- The map of protocols/udp/listener.rs against the registrations that are held.
use bevy_slinet.Common.{
  ℕ, suc, ◌+◌, ◌≤◌, ◌<◌, ◌≡◌, ◌≢◌, inl, inr, refl, ◌∙◌, Option, none, some, List, [], ◌∷◌,
  if◌then◌else◌, ◌==◌, length, All, arith, Bool-cases,
}
use bevy_slinet.Protocols.Udp.Listener.{lookup, remove, remove_id}

-- The address of registration `id`.
abbrev pub find_id : ℕ → List (ℕ × ℕ) → Option ℕ
find_id id [] = none
find_id id ((a, j) ∷ m) = if j == id then some a else find_id id m

-- Every entry of the map belongs to a registration at its address.
abbrev pub Owned : List (ℕ × ℕ) → List (ℕ × ℕ) → Type 0
Owned registered = All (λ e. find_id e.1 registered ≡ some e.0)

-- No address has two entries.
abbrev pub Keys : List (ℕ × ℕ) → Type 0
Keys [] = Unit
Keys (e ∷ m) = (lookup e.0 m ≡ none) × Keys m

abbrev pub Without : ℕ → List (ℕ × ℕ) → Type 0
Without id = All (λ e. e.1 ≢ id)

pub lookup-remove-none :
    (a k : ℕ) (m : List (ℕ × ℕ)) → lookup a m ≡ none → lookup a (remove k m) ≡ none
unfolding lookup remove
lookup-remove-none a k [] h = refl
lookup-remove-none a k ((j, v) ∷ m) h = ground (arith, lookup-remove-none a k m)

pub lookup-remove_self : (k : ℕ) (m : List (ℕ × ℕ)) → lookup k (remove k m) ≡ none
unfolding lookup remove
lookup-remove_self k [] = refl
lookup-remove_self k ((j, v) ∷ m) = ground (arith, lookup-remove_self k m)

pub remove-Keys : (k : ℕ) (m : List (ℕ × ℕ)) → Keys m → Keys (remove k m)
unfolding remove
remove-Keys k [] h = tt
remove-Keys k ((j, v) ∷ m) h = ground (arith, remove-Keys k m h.1, lookup-remove-none j k m h.0)

pub remove-All {ℓ} : (P : ℕ × ℕ → Type ℓ) (k : ℕ) (m : List (ℕ × ℕ)) → All P m → All P (remove k m)
unfolding remove
remove-All P k [] h = tt
remove-All P k ((j, v) ∷ m) h = elim (Bool-cases (j == k)) [
  | inl e ↦ rw e (remove-All P k m h.1)
  | inr e ↦ rw e (h.0, remove-All P k m h.1)
]

-- The entries left when an address is removed are not its registration's.
pub remove-Without :
    (address id : ℕ) (registered m : List (ℕ × ℕ))
    → find_id id registered ≡ some address
    → Owned registered m
    → Without id (remove address m)
unfolding remove
remove-Without address id registered [] f o = tt
remove-Without address id registered ((a, j) ∷ m) f o = elim (Bool-cases (a == address)) [
  | inl e ↦ rw e (remove-Without address id registered m f o.1)
  | inr e ↦ rw e (ground arith, remove-Without address id registered m f o.1)
]

-- Where the address has another entry or none, no entry is the registration's.
pub Owned-Without :
    (address id : ℕ) (registered m : List (ℕ × ℕ))
    → find_id id registered ≡ some address
    → Owned registered m
    → Keys m
    → lookup address m ≢ some id
    → Without id m
unfolding lookup
Owned-Without address id registered [] f o k h = tt
Owned-Without address id registered ((a, j) ∷ m) f o k h =
    ground (arith, Owned-Without address id registered m f o.1 k.1)

pub find_id-remove_id :
    (id j : ℕ) (registered : List (ℕ × ℕ))
    → j ≢ id
    → find_id j (remove_id id registered) ≡ find_id j registered
unfolding remove_id
find_id-remove_id id j [] h = refl
find_id-remove_id id j ((a, i) ∷ m) h = ground (arith, find_id-remove_id id j m h)

pub Owned-remove_id :
    (id : ℕ) (registered m : List (ℕ × ℕ))
    → Without id m
    → Owned registered m
    → Owned (remove_id id registered) m
Owned-remove_id id registered [] w o = tt
Owned-remove_id id registered ((a, j) ∷ m) w o =
    (find_id-remove_id id j registered w.0 ∙ o.0, Owned-remove_id id registered m w.1 o.1)

pub length-remove_id :
    (id address : ℕ) (registered : List (ℕ × ℕ))
    → find_id id registered ≡ some address
    → length (remove_id id registered) + 1 ≡ length registered
unfolding remove_id
length-remove_id id address [] f = absurd (cc f)
length-remove_id id address ((a, j) ∷ m) f = ground (arith, length-remove_id id address m)

-- A new number is in no entry, so a registration under it leaves the others as they are.
pub Owned-cons :
    (address next : ℕ) (registered m : List (ℕ × ℕ))
    → All (λ e. e.1 < next) m
    → Owned registered m
    → Owned ((address, next) ∷ registered) m
Owned-cons address next registered [] f o = tt
Owned-cons address next registered ((a, j) ∷ m) f o =
    (ground arith, Owned-cons address next registered m f.1 o.1)

pub All-suc : (next : ℕ) (m : List (ℕ × ℕ)) → All (λ e. e.1 < next) m → All (λ e. e.1 < suc next) m
All-suc next [] f = tt
All-suc next (e ∷ m) f = (omega arith, All-suc next m f.1)

-- A map with one entry for an address is at most as long as the registrations.
pub length-Owned :
    (registered m : List (ℕ × ℕ)) → Owned registered m → Keys m → length m ≤ length registered
length-Owned registered [] o k = ground arith
length-Owned registered ((a, j) ∷ m) o k =
    let w = Owned-Without a j registered m o.0 o.1 k.1 (λ e. cc (e, k.0)) in
    let shorter =
      length-Owned (remove_id j registered) m (Owned-remove_id j registered m w o.1) k.1 in
    let one = length-remove_id j a registered o.0 in omega arith
