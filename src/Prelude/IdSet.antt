-- ===== src/Prelude/IdSet.antt =====
-- `HashSet` as a list with no repetition kept by `insert`.
use mathlib.Core.Path.{◌≡◌, refl}
use mathlib.Core.Bool.{Bool, true, false}
use mathlib.Core.List.{List, [], ◌∷◌}
use native.Mathlib.Omega.{arith}
use tightbeam_ext.Prelude.Tests.{if◌then◌else◌}
use tightbeam_ext.Prelude.Lists.{is_nil}
use tightbeam_ext.Prelude.Keys.{Eq}

module _ {ℓ} {A : Type ℓ} ⦃e : Eq A⦄ where
  unfoldable pub contains : A → List A → Bool
  contains a [] = false
  contains a (x ∷ xs) = if e.beq x a then true else contains a xs

  unfoldable pub insert : A → List A → List A
  insert a [] = a ∷ []
  insert a (x ∷ xs) = if e.beq x a then x ∷ xs else x ∷ insert a xs

  unfoldable pub remove : A → List A → List A
  remove a [] = []
  remove a (x ∷ xs) = if e.beq x a then remove a xs else x ∷ remove a xs

  pub contains-insert :
      (a b : A) (xs : List A)
      → contains b (insert a xs) ≡ (if e.beq a b then true else contains b xs)
  unfolding contains insert
  contains-insert a b [] = refl
  contains-insert a b (x ∷ xs) =
      ground (arith, e.beq_iff a b, e.beq_iff x a, e.beq_iff x b, contains-insert a b xs)

  pub contains-remove :
      (a b : A) (xs : List A)
      → contains b (remove a xs) ≡ (if e.beq a b then false else contains b xs)
  unfolding contains remove
  contains-remove a b [] = ground arith
  contains-remove a b (x ∷ xs) =
      ground (arith, e.beq_iff a b, e.beq_iff x a, e.beq_iff x b, contains-remove a b xs)

  -- A set with no element is the empty one, which is what `is_empty` tests.
  pub contains-is_nil : (a : A) (xs : List A) → contains a xs ≡ true → is_nil xs ≡ false
  unfolding contains
  contains-is_nil a [] h = ground arith
  contains-is_nil a (x ∷ xs) h = refl
