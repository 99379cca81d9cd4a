-- ===== src/Serializers/Adapter.antt =====
-- serializers/serializer.rs: `SerializerAdapter`. A mutable codec is behind a lock, which a panic
-- poisons. A codec call gives `none` where it panics; a call of the adapter that panics gives `none`.
use bevy_slinet.Common.{
  ◌≡◌, refl, ap, Bool, true, false, Option, none, some, List, [], ◌∷◌, map, Result,
}

-- The adapter, with the state of its codec; a read-only codec has no state of its own.
pub data SerializerAdapter (C : Type 0) : Type 0 where
  read_only : C → SerializerAdapter C
  mutable : Bool → C → SerializerAdapter C

module _ {A B E C : Type 0} (call_shared : A → C → Option (Result B E))
    (call_locked : A → C → Option (Result B E × C)) where
  -- The guard of the lock after the call.
  unfoldable pub after_locked :
      C → Option (Result B E × C) → Option (Result B E) × SerializerAdapter C
  after_locked c none = (none, mutable true c)
  after_locked c (some (result, c')) = (some result, mutable false c')

  -- `serialize`, and `deserialize`, which does the same with the other call of the codec.
  unfoldable pub adapter_call : A → SerializerAdapter C → Option (Result B E) × SerializerAdapter C
  unfolding after_locked
  adapter_call input (read_only c) = (call_shared input c, read_only c)
  adapter_call input (mutable true c) = (none, mutable true c)
  adapter_call input (mutable false c) = after_locked c (call_locked input c)

  unfoldable pub adapter_calls :
      List A → SerializerAdapter C → List (Option (Result B E)) × SerializerAdapter C
  unfolding adapter_call
  adapter_calls [] s = ([], s)
  adapter_calls (input ∷ rest) s =
      let (result, s') = adapter_call input s in
      let (results, s'') = adapter_calls rest s' in (result ∷ results, s'')

  abbrev panicked : A → Option (Result B E)
  panicked input = none

  -- A poisoned adapter panics on every call and stays as it is.
  pub adapter_calls_poisoned :
      (inputs : List A) (c : C)
      → adapter_calls inputs (mutable true c) ≡ (map panicked inputs, mutable true c)
  unfolding adapter_calls
  adapter_calls_poisoned [] c = refl
  adapter_calls_poisoned (input ∷ rest) c =
      ap (λ r. (none ∷ r.0, r.1)) (adapter_calls_poisoned rest c)

  -- A read-only adapter answers each call on its own, in any order.
  pub adapter_calls_shared :
      (inputs : List A) (c : C)
      → adapter_calls inputs (read_only c) ≡ (map (λ i. call_shared i c) inputs, read_only c)
  unfolding adapter_calls
  adapter_calls_shared [] c = refl
  adapter_calls_shared (input ∷ rest) c =
      ap (λ r. (call_shared input c ∷ r.0, r.1)) (adapter_calls_shared rest c)
