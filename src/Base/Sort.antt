-- ===== src/Base/Sort.antt =====
-- `ORDER BY`: a list in the order of a test, equal entries in the order they had.
use koinos_evm_engine.Base.Tests.{if◌then◌else◌, Bool-cases}
use koinos_evm_engine.Base.Lists.{All}
use mathlib.Core.Path.{◌≡◌, refl, ap, ◌∙◌}
use mathlib.Core.Logic.{inl, inr}
use mathlib.Core.Bool.{Bool, true}
use mathlib.Core.List.{List, [], ◌∷◌}

module _ {ℓ} {A : Type ℓ} where
  unfoldable pub insert_by : (A → A → Bool) → A → List A → List A
  insert_by le x [] = x ∷ []
  insert_by le x (y ∷ ys) = if le x y then x ∷ y ∷ ys else y ∷ insert_by le x ys

  unfoldable pub sort_by : (A → A → Bool) → List A → List A
  sort_by le [] = []
  sort_by le (x ∷ xs) = insert_by le x (sort_by le xs)

  -- The rows that a condition selects.
  unfoldable pub select : (A → Bool) → List A → List A
  select p [] = []
  select p (x ∷ xs) = if p x then x ∷ select p xs else select p xs

  -- No entry comes before the one in front of it.
  unfoldable pub IsOrdered : (A → A → Bool) → List A → Type 0
  IsOrdered le [] = Unit
  IsOrdered le (x ∷ xs) = All (λ y. le x y ≡ true) xs × IsOrdered le xs

  insert_by-first :
      (le : A → A → Bool) (x : A) (ys : List A)
      → All (λ y. le x y ≡ true) ys
      → insert_by le x ys ≡ x ∷ ys
  unfolding insert_by
  insert_by-first le x [] h = refl
  insert_by-first le x (y ∷ ys) (hy, h) = rw hy refl

  pub sort_by-ordered : (le : A → A → Bool) (xs : List A) → IsOrdered le xs → sort_by le xs ≡ xs
  unfolding sort_by IsOrdered
  sort_by-ordered le [] h = refl
  sort_by-ordered le (x ∷ xs) (hx, h) =
      ap (insert_by le x) (sort_by-ordered le xs h) ∙ insert_by-first le x xs hx

  pub All-insert_by {κ} :
      (P : A → Type κ) (le : A → A → Bool) (x : A) (ys : List A)
      → P x
      → All P ys
      → All P (insert_by le x ys)
  unfolding insert_by
  All-insert_by P le x [] hx h = (hx, tt)
  All-insert_by P le x (y ∷ ys) hx (hy, h) = elim (Bool-cases (le x y)) [
    | inl e ↦ rw e (hx, (hy, h))
    | inr e ↦ rw e (hy, All-insert_by P le x ys hx h)
  ]

  pub All-sort_by {κ} :
      (P : A → Type κ) (le : A → A → Bool) (xs : List A) → All P xs → All P (sort_by le xs)
  unfolding sort_by
  All-sort_by P le [] h = tt
  All-sort_by P le (x ∷ xs) (hx, h) =
      All-insert_by P le x (sort_by le xs) hx (All-sort_by P le xs h)
