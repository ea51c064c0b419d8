-- ===== src/Prelude/Slices.antt =====
-- Laws of `take` and `drop`.
use Prim.Native.Nat.{ℕ, zero, suc, ◌+◌, ◌≤◌}
use mathlib.Core.Path.{◌≡◌, refl, ap}
use mathlib.Core.List.{List, [], ◌∷◌, ◌++◌}
use native.Mathlib.Omega.{arith}
use couriers_server_node.Prelude.Lists.{length, take, drop}

suc_add : (a b : ℕ) → suc a + b ≡ suc (a + b)
suc_add a b = omega arith

zero_add : (b : ℕ) → 0 + b ≡ b
zero_add b = omega arith

module _ {ℓ} {A : Type ℓ} where
  pub take_add : (a b : ℕ) (xs : List A) → take (a + b) xs ≡ take a xs ++ take b (drop a xs)
  take_add zero b xs = rw (zero_add b)
  take_add (suc a) zero [] = rw (suc_add a zero)
  take_add (suc a) (suc b) [] = rw (suc_add a (suc b))
  take_add (suc a) b (x ∷ xs) = rw (suc_add a b) (ap (λ ys. x ∷ ys) (take_add a b xs))

  pub drop_add : (a b : ℕ) (xs : List A) → drop (a + b) xs ≡ drop b (drop a xs)
  drop_add zero b xs = rw (zero_add b)
  drop_add (suc a) zero [] = rw (suc_add a zero)
  drop_add (suc a) (suc b) [] = rw (suc_add a (suc b))
  drop_add (suc a) b (x ∷ xs) = rw (suc_add a b) (drop_add a b xs)

  pub take_all : (n : ℕ) (xs : List A) → length xs ≤ n → take n xs ≡ xs
  take_all zero [] h = refl
  take_all zero (x ∷ xs) h = absurd (omega arith)
  take_all (suc n) [] h = refl
  take_all (suc n) (x ∷ xs) h = ap (λ ys. x ∷ ys) (take_all n xs (omega arith))
