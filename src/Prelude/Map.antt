-- ===== src/Prelude/Map.antt =====
-- `HashMap` as an association list. A map's iteration order, which the standard library leaves
-- open, is the order of the list; `insert` replaces a present key where it stands.
use Prim.Native.Nat.{◌+◌, ◌≤◌}
use mathlib.Core.Path.{◌≡◌, refl}
use mathlib.Core.Logic.{inl, inr}
use mathlib.Core.Bool.{true}
use mathlib.Core.Option
use mathlib.Core.Option.{Option, none, some}
use mathlib.Core.List.{List, [], ◌∷◌}
use native.Mathlib.Omega.{arith}
use tightbeam_ext.Prelude.Tests.{if◌then◌else◌, Bool-cases}
use tightbeam_ext.Prelude.IdSet
use tightbeam_ext.Prelude.Lists.{length}
use tightbeam_ext.Prelude.Keys.{Eq}

abbrev pub Map {ℓ κ} : Type ℓ → Type κ → Type (ℓ ⊔ κ)
Map K V = List (K × V)

module _ {ℓ κ} {K : Type ℓ} {V : Type κ} where
  abbrev pub values : Map K V → List V
  values [] = []
  values ((k, v) ∷ m) = v ∷ values m

module _ {ℓ κ} {K : Type ℓ} {V : Type κ} ⦃e : Eq K⦄ where
  unfoldable pub get : K → Map K V → Option V
  get k [] = none
  get k ((j, v) ∷ m) = if e.beq j k then some v else get k m

  unfoldable pub insert : K → V → Map K V → Map K V
  insert k v [] = (k, v) ∷ []
  insert k v ((j, w) ∷ m) = if e.beq j k then (k, v) ∷ m else (j, w) ∷ insert k v m

  unfoldable pub remove : K → Map K V → Map K V
  remove k [] = []
  remove k ((j, w) ∷ m) = if e.beq j k then remove k m else (j, w) ∷ remove k m

  -- `get_mut`, with the change that the borrow is used for.
  unfoldable pub modify : K → (V → V) → Map K V → Map K V
  modify k f [] = []
  modify k f ((j, w) ∷ m) = if e.beq j k then (j, f w) ∷ m else (j, w) ∷ modify k f m

  pub get-insert :
      (k j : K) (v : V) (m : Map K V)
      → get j (insert k v m) ≡ (if e.beq k j then some v else get j m)
  unfolding get insert
  get-insert k j v [] = refl
  get-insert k j v ((i, w) ∷ m) =
      ground (arith, e.beq_iff k j, e.beq_iff i k, e.beq_iff i j, get-insert k j v m)

  pub get-remove :
      (k j : K) (m : Map K V) → get j (remove k m) ≡ (if e.beq k j then none else get j m)
  unfolding get remove
  get-remove k j [] = ground arith
  get-remove k j ((i, w) ∷ m) =
      ground (arith, e.beq_iff k j, e.beq_iff i k, e.beq_iff i j, get-remove k j m)

  pub get-modify :
      (k j : K) (f : V → V) (m : Map K V)
      → get j (modify k f m) ≡ (if e.beq k j then Option.map f (get j m) else get j m)
  unfolding get modify
  get-modify k j f [] = ground arith
  get-modify k j f ((i, w) ∷ m) =
      ground (arith, e.beq_iff k j, e.beq_iff i k, e.beq_iff i j, get-modify k j f m)

  -- To insert what is there already changes nothing.
  pub insert_same : (k : K) (v : V) (m : Map K V) → get k m ≡ some v → insert k v m ≡ m
  unfolding get insert
  insert_same k v [] h = absurd (ground arith)
  insert_same k v ((j, w) ∷ m) h = ground (arith, e.beq_iff j k, insert_same k v m)

  pub length-insert-le : (k : K) (v : V) (m : Map K V) → length (insert k v m) ≤ length m + 1
  unfolding insert
  length-insert-le k v [] = omega arith
  length-insert-le k v ((j, w) ∷ m) = ground (arith, length-insert-le k v m)

  pub length-remove-le : (k : K) (m : Map K V) → length (remove k m) ≤ length m
  unfolding remove
  length-remove-le k [] = omega arith
  length-remove-le k ((j, w) ∷ m) = ground (arith, length-remove-le k m)

  -- No key stands twice, so the length is that of the map.
  abbrev pub Unique : Map K V → Type κ
  Unique [] = Unit {κ}
  Unique ((k, v) ∷ m) = (get k m ≡ none) × Unique m

  pub insert-Unique : (k : K) (v : V) (m : Map K V) → Unique m → Unique (insert k v m)
  unfolding get insert
  insert-Unique k v [] u = (refl, tt)
  insert-Unique k v ((j, w) ∷ m) u =
      ground (arith, get-insert k j v m, e.beq_iff j k, e.beq_iff k j, insert-Unique k v m u.1)

  pub remove-Unique : (k : K) (m : Map K V) → Unique m → Unique (remove k m)
  unfolding get remove
  remove-Unique k [] u = tt
  remove-Unique k ((j, w) ∷ m) u =
      ground (arith, get-remove k j m, e.beq_iff k j, remove-Unique k m u.1)

module _ {ℓ κ} {K : Type ℓ} {V : Type κ} ⦃e : Eq K⦄ ⦃f : Eq V⦄ where
  -- What a key leads to is a value.
  pub values_of_get :
      (k : K) (v : V) (m : Map K V) → get k m ≡ some v → IdSet.contains v (values m) ≡ true
  unfolding get IdSet.contains
  values_of_get k v [] h = ground arith
  values_of_get k v ((j, w) ∷ m) h =
      ground (arith, e.beq_iff j k, f.beq_iff w v, values_of_get k v m)

  -- With unique keys, a value is what some key leads to.
  pub get_of_values :
      (v : V) (m : Map K V)
      → Unique m
      → IdSet.contains v (values m) ≡ true
      → (k : K) × (get k m ≡ some v)
  unfolding get IdSet.contains
  get_of_values v [] u h = absurd (ground arith)
  get_of_values v ((j, w) ∷ m) u h = elim (Bool-cases (f.beq w v)) [
    | inl here ↦ (j, ground (arith, e.beq_iff j j, f.beq_iff w v))
    | inr there ↦
        let (k, found) = get_of_values v m u.1 (ground arith) in (k, ground (arith, e.beq_iff j k))
  ]
