-- ===== src/Prelude/Ordered.antt =====
-- `BTreeSet<String>` as a list in ascending order: the order of texts, insertion, intersection.
use Prim.Native.Nat.{ℕ}
use mathlib.Core.Path.{◌≡◌, refl}
use mathlib.Core.Bool.{Bool, true, false, ◌&&◌}
use mathlib.Core.List.{List, [], ◌∷◌}
use native.Mathlib.Omega.{arith}
use tightbeam_ext.Prelude.Tests.{◌==◌, ==_iff, ltb, if◌then◌else◌, Bool-cases}
use mathlib.Core.Logic.{inl, inr}
use tightbeam_ext.Prelude.Keys.{nat_eq, list_eq, list_beq, list_beq_iff}
use tightbeam_ext.Prelude.IdSet.{contains}

-- `Ord` of `str`, on the numbers of the characters.
unfoldable pub lt : List ℕ → List ℕ → Bool
lt [] [] = false
lt [] (d ∷ ds) = true
lt (c ∷ cs) [] = false
lt (c ∷ cs) (d ∷ ds) = if ltb c d then true else (c == d) && lt cs ds

lt_trans : (a b c : List ℕ) → lt a b ≡ true → lt b c ≡ true → lt a c ≡ true
unfolding lt
lt_trans [] [] c h g = absurd (ground arith)
lt_trans [] (y ∷ b) [] h g = absurd (ground arith)
lt_trans [] (y ∷ b) (z ∷ c) h g = refl
lt_trans (x ∷ a) [] c h g = absurd (ground arith)
lt_trans (x ∷ a) (y ∷ b) [] h g = absurd (ground arith)
lt_trans (x ∷ a) (y ∷ b) (z ∷ c) h g =
    grind (arith, lt_trans a b c, ==_iff x y, ==_iff y z, ==_iff x z)

lt_total : (a b : List ℕ) → lt a b ≡ false → list_beq a b ≡ false → lt b a ≡ true
unfolding lt
lt_total [] [] h g = absurd (ground arith)
lt_total [] (y ∷ b) h g = absurd (ground arith)
lt_total (x ∷ a) [] h g = refl
lt_total (x ∷ a) (y ∷ b) h g = grind (arith, lt_total a b, ==_iff x y, ==_iff y x)

unfoldable pub insert : List ℕ → List (List ℕ) → List (List ℕ)
insert a [] = a ∷ []
insert a (x ∷ xs) = if lt a x then a ∷ x ∷ xs else if list_beq a x then x ∷ xs else x ∷ insert a xs

-- `intersection`, in ascending order.
unfoldable pub intersection : List (List ℕ) → List (List ℕ) → List (List ℕ)
intersection [] ys = []
intersection (x ∷ xs) ys = let rest = intersection xs ys in if contains x ys then x ∷ rest else rest

-- Each is below all that follow it.
abbrev pub IsAscending : List (List ℕ) → Type 0
IsAscending [] = Unit {0}
IsAscending (x ∷ xs) = ((y : List ℕ) → contains y xs ≡ true → lt x y ≡ true) × IsAscending xs

pub contains-insert :
    (a b : List ℕ) (xs : List (List ℕ))
    → contains b (insert a xs) ≡ (if list_beq a b then true else contains b xs)
unfolding insert contains
contains-insert a b [] = refl
contains-insert a b (x ∷ xs) =
    grind (arith, contains-insert a b xs, list_beq_iff a b, list_beq_iff a x, list_beq_iff x b)

pub contains-intersection :
    (b : List ℕ) (xs ys : List (List ℕ))
    → contains b (intersection xs ys) ≡ (contains b xs && contains b ys)
unfolding intersection contains
contains-intersection b [] ys = refl
contains-intersection b (x ∷ xs) ys = grind (arith, contains-intersection b xs ys, list_beq_iff x b)

pub insert-IsAscending :
    (a : List ℕ) (xs : List (List ℕ)) → IsAscending xs → IsAscending (insert a xs)
unfolding insert contains
insert-IsAscending a [] h = (λ y c. absurd (ground arith), tt)
insert-IsAscending a (x ∷ xs) (below, h) = elim (Bool-cases (lt a x)) [
  | inl less ↦ rw less (λ y c. grind (arith, list_beq_iff x y, below y, lt_trans a x y), (below, h))
  | inr not_less ↦ elim (Bool-cases (list_beq a x)) [
    | inl same ↦ rw (not_less, same) (below, h)
    | inr other ↦
        rw (not_less, other)
          (
            λ y c. grind (
              arith,
              contains-insert a y xs,
              list_beq_iff a y,
              below y,
              lt_total a x not_less other,
            ),
            insert-IsAscending a xs h,
          )
  ]
]

pub intersection-IsAscending :
    (xs ys : List (List ℕ)) → IsAscending xs → IsAscending (intersection xs ys)
unfolding intersection contains
intersection-IsAscending [] ys h = tt
intersection-IsAscending (x ∷ xs) ys (below, h) = elim (Bool-cases (contains x ys)) [
  | inl there ↦ rw there (
    λ y c. grind (arith, contains-intersection y xs ys, below y),
    intersection-IsAscending xs ys h,
  )
  | inr gone ↦ rw gone (intersection-IsAscending xs ys h)
]
