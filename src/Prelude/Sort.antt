-- ===== src/Prelude/Sort.antt =====
-- `ORDER BY` a number, and the row that it puts first.
use Prim.Native.Nat.{ℕ, ◌+◌}
use mathlib.Core.Option.{none}
use mathlib.Core.Bool.{Bool}
use mathlib.Core.List.{List, [], ◌∷◌}
use mathlib.Core.Path.{◌≡◌, refl, ap, ◌∙◌}
use native.Mathlib.Omega.{arith}
use couriers_server_node.Prelude.Lists.{head_or_none, count}
use couriers_server_node.Prelude.Tests.{ltb, if◌then◌else◌}

module _ {ℓ} {A : Type ℓ} (before : A → A → Bool) where
  insert_sorted : A → List A → List A
  insert_sorted x [] = x ∷ []
  insert_sorted x (y ∷ ys) =
      let rest = insert_sorted x ys in if before y x then y ∷ rest else x ∷ y ∷ ys

  -- `before y x` says that `y` comes strictly before `x`; equal rows keep their order.
  unfoldable pub sort : List A → List A
  unfolding insert_sorted
  sort [] = []
  sort (x ∷ xs) = insert_sorted x (sort xs)

abbrev pub ascending {ℓ} : {A : Type ℓ} → (A → ℕ) → A → A → Bool
ascending key y x = ltb (key y) (key x)

abbrev pub descending {ℓ} : {A : Type ℓ} → (A → ℕ) → A → A → Bool
descending key y x = ltb (key x) (key y)

module _ {ℓ} {A : Type ℓ} (before : A → A → Bool) where
  -- A sorted table has a first row unless the table is empty.
  pub sort-first : (xs : List A) → head_or_none (sort before xs) ≡ none → xs ≡ []
  unfolding sort
  sort-first [] e = refl
  sort-first (x ∷ xs) e = absurd (first x (sort before xs) e)
    where
      first : (y : A) (ys : List A) → ¬ (head_or_none (insert_sorted before y ys) ≡ none)
      first y [] q = cc
      first y (z ∷ zs) q = ground arith

-- A sum over the rows of a table does not depend on their order.
abbrev pub sum_by {ℓ} : {A : Type ℓ} → (A → ℕ) → List A → ℕ
sum_by f [] = 0
sum_by f (x ∷ xs) = f x + sum_by f xs

module _ {ℓ} {A : Type ℓ} (before : A → A → Bool) (f : A → ℕ) where
  sum_by-insert : (x : A) (xs : List A) → sum_by f (insert_sorted before x xs) ≡ f x + sum_by f xs
  unfolding insert_sorted
  sum_by-insert x [] = refl
  sum_by-insert x (y ∷ ys) = ground (arith, sum_by-insert x ys)

  pub sum_by-sort : (xs : List A) → sum_by f (sort before xs) ≡ sum_by f xs
  unfolding sort
  sum_by-sort [] = refl
  sum_by-sort (x ∷ xs) = sum_by-insert x (sort before xs) ∙ ap (λ (n : ℕ). f x + n) (sum_by-sort xs)

module _ {ℓ} {A : Type ℓ} (before : A → A → Bool) (p : A → Bool) where
  count-insert : (x : A) (xs : List A) → count p (insert_sorted before x xs) ≡ count p (x ∷ xs)
  unfolding insert_sorted count
  count-insert x [] = refl
  count-insert x (y ∷ ys) = ground (arith, count-insert x ys)

  pub count-sort : (xs : List A) → count p (sort before xs) ≡ count p xs
  unfolding sort count
  count-sort [] = refl
  count-sort (x ∷ xs) = ground (arith, count-insert x (sort before xs), count-sort xs)
