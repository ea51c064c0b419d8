-- ===== src/Prelude/Tables.antt =====
-- Laws of selection, counting and updating.
use Prim.Native.Nat.{suc, ◌+◌, ◌≤◌}
use mathlib.Core.Path.{◌≡◌, refl, subst}
use mathlib.Core.Logic.{inl, inr}
use mathlib.Core.Bool.{Bool, true, false}
use mathlib.Core.Option.{none, some}
use mathlib.Core.List.{List, [], ◌∷◌, ◌++◌}
use native.Mathlib.Omega.{arith}
use couriers_server_node.Prelude.Tests.{if◌then◌else◌, Bool-cases}
use couriers_server_node.Prelude.Lists.{length, find, count, update, any}

-- A predicate on every row, and a relation between the rows of two tables in the same place.
abbrev pub All {ℓ} : {A : Type ℓ} → (A → Type 0) → List A → Type 0
All P [] = Unit
All P (x ∷ xs) = P x × All P xs

abbrev pub Pointwise {ℓ} : {A : Type ℓ} → (A → A → Type 0) → List A → List A → Type 0
Pointwise R [] [] = Unit
Pointwise R [] (y ∷ ys) = ⊥
Pointwise R (x ∷ xs) [] = ⊥
Pointwise R (x ∷ xs) (y ∷ ys) = R x y × Pointwise R xs ys

module _ {ℓ} {A : Type ℓ} where
  pub Pointwise-refl : (R : A → A → Type 0) → ((x : A) → R x x) → (xs : List A) → Pointwise R xs xs
  Pointwise-refl R r [] = tt
  Pointwise-refl R r (x ∷ xs) = (r x, Pointwise-refl R r xs)

  -- A statement `UPDATE … SET f WHERE p` relates each row to what became of it.
  pub update-Pointwise :
      (R : A → A → Type 0) (p : A → Bool) (f : A → A)
      → ((x : A) → R x x)
      → (xs : List A) → All (λ x. p x ≡ true → R x (f x)) xs
      → Pointwise R xs (update p f xs)
  unfolding update
  update-Pointwise R p f r [] h = tt
  update-Pointwise R p f r (x ∷ xs) h = (
    elim (Bool-cases (p x)) [ inl e ↦ rw e (h.0 e) | inr e ↦ rw e (r x) ],
    update-Pointwise R p f r xs h.1,
  )

  pub All-update :
      (P : A → Type 0) (p : A → Bool) (f : A → A) (xs : List A)
      → All (λ x. p x ≡ true → P x → P (f x)) xs
      → All P xs
      → All P (update p f xs)
  unfolding update
  All-update P p f [] h a = tt
  All-update P p f (x ∷ xs) h a = (
    elim (Bool-cases (p x)) [ inl e ↦ rw e (h.0 e a.0) | inr e ↦ rw e a.0 ],
    All-update P p f xs h.1 a.1,
  )

  pub All-of : (P : A → Type 0) → ((x : A) → P x) → (xs : List A) → All P xs
  All-of P h [] = tt
  All-of P h (x ∷ xs) = (h x, All-of P h xs)

  pub All-mono : (P Q : A → Type 0) → ((x : A) → P x → Q x) → (xs : List A) → All P xs → All Q xs
  All-mono P Q h [] a = tt
  All-mono P Q h (x ∷ xs) a = (h x a.0, All-mono P Q h xs a.1)

  pub All-concat : (P : A → Type 0) (xs : List A) {x : A} → All P xs → P x → All P (xs ++ x ∷ [])
  All-concat P [] a p = (p, tt)
  All-concat P (y ∷ xs) a p = (a.0, All-concat P xs a.1 p)

  pub All-find :
      (P : A → Type 0) (p : A → Bool) (xs : List A) (x : A) → All P xs → find p xs ≡ some x → P x
  unfolding find
  All-find P p [] x a e = absurd (cc)
  All-find P p (y ∷ ys) x a e = elim (Bool-cases (p y)) [
    | inl h ↦ subst P (ground arith) a.0
    | inr h ↦ All-find P p ys x a.1 (ground arith)
  ]

  pub find_holds : (p : A → Bool) (xs : List A) (x : A) → find p xs ≡ some x → p x ≡ true
  unfolding find
  find_holds p [] x e = cc
  find_holds p (y ∷ ys) x e = ground (arith, find_holds p ys x)

  pub count-zero-find : (p : A → Bool) (xs : List A) → count p xs ≡ 0 → find p xs ≡ none
  unfolding find count
  count-zero-find p [] e = refl
  count-zero-find p (x ∷ xs) e = ground (arith, count-zero-find p xs)

  pub find-none-count : (p : A → Bool) (xs : List A) → find p xs ≡ none → count p xs ≡ 0
  unfolding find count
  find-none-count p [] e = refl
  find-none-count p (x ∷ xs) e = ground (arith, find-none-count p xs)

  -- An update whose condition holds of no row does nothing.
  pub update_none : (p : A → Bool) (f : A → A) (xs : List A) → count p xs ≡ 0 → update p f xs ≡ xs
  unfolding update count
  update_none p f [] e = refl
  update_none p f (x ∷ xs) e = ground (arith, update_none p f xs)

  -- A search by a key that the update keeps.
  pub find-update :
      (q p : A → Bool) (f : A → A) (xs : List A)
      → ((x : A) → q (f x) ≡ q x)
      → find q (update p f xs)
        ≡ elim (find q xs) [ none ↦ none | some x ↦ some (if p x then f x else x) ]
  unfolding update find
  find-update q p f [] h = refl
  find-update q p f (x ∷ xs) h = ground (arith, h x, find-update q p f xs h)

  pub count-append : (p : A → Bool) (xs ys : List A) → count p (xs ++ ys) ≡ count p xs + count p ys
  unfolding count
  count-append p [] ys = omega arith
  count-append p (x ∷ xs) ys = ground (arith, count-append p xs ys)

  pub count-le-length : (p : A → Bool) (xs : List A) → count p xs ≤ length xs
  unfolding count
  count-le-length p [] = omega arith
  count-le-length p (x ∷ xs) = ground (arith, count-le-length p xs)

  pub any-count : (p : A → Bool) (xs : List A) → any p xs ≡ false → count p xs ≡ 0
  unfolding any count
  any-count p [] e = refl
  any-count p (x ∷ xs) e = ground (arith, any-count p xs)

  pub find_hit : (p : A → Bool) (x : A) (xs : List A) → p x ≡ true → find p (x ∷ xs) ≡ some x
  unfolding find
  find_hit p x xs e = rw e

  pub find_miss : (p : A → Bool) (x : A) (xs : List A) → p x ≡ false → find p (x ∷ xs) ≡ find p xs
  unfolding find
  find_miss p x xs e = rw e

  pub count_none : (p : A → Bool) (xs : List A) → All (λ x. p x ≡ false) xs → count p xs ≡ 0
  unfolding count
  count_none p [] h = refl
  count_none p (x ∷ xs) h = rw (h.0) (count_none p xs h.1)

  -- An update whose writes leave `q` false or as it was makes no row of `q`.
  pub count-update-le :
      (q p : A → Bool) (f : A → A) (xs : List A)
      → All (λ x. p x ≡ true → q (f x) ≡ true → q x ≡ true) xs
      → count q (update p f xs) ≤ count q xs
  unfolding count update
  count-update-le q p f [] h = omega arith
  count-update-le q p f (x ∷ xs) h = ground (arith, h.0, count-update-le q p f xs h.1)

  -- An update adds to the rows of `q` at most as many as it touches.
  pub count-update-le-add :
      (q p : A → Bool) (f : A → A) (xs : List A) → count q (update p f xs) ≤ count q xs + count p xs
  unfolding count update
  count-update-le-add q p f [] = omega arith
  count-update-le-add q p f (x ∷ xs) = ground (arith, count-update-le-add q p f xs)

  -- A count by a key that the update keeps.
  pub count-update :
      (q p : A → Bool) (f : A → A) (xs : List A)
      → ((x : A) → q (f x) ≡ q x)
      → count q (update p f xs) ≡ count q xs
  unfolding count update
  count-update q p f [] h = refl
  count-update q p f (x ∷ xs) h = ground (arith, h x, count-update q p f xs h)

  pub count_mono :
      (p q : A → Bool) (xs : List A) → ((x : A) → p x ≡ true → q x ≡ true) → count p xs ≤ count q xs
  unfolding count
  count_mono p q [] h = omega arith
  count_mono p q (x ∷ xs) h = ground (arith, h x, count_mono p q xs h)

  pub Pointwise-trans :
      (R S T : A → A → Type 0)
      → ((x y z : A) → R x y → S y z → T x z)
      → (xs ys zs : List A) → Pointwise R xs ys
      → Pointwise S ys zs
      → Pointwise T xs zs
  Pointwise-trans R S T k [] [] [] p q = tt
  Pointwise-trans R S T k [] [] (z ∷ zs) p q = absurd q
  Pointwise-trans R S T k [] (y ∷ ys) zs p q = absurd p
  Pointwise-trans R S T k (x ∷ xs) [] zs p q = absurd p
  Pointwise-trans R S T k (x ∷ xs) (y ∷ ys) [] p q = absurd q
  Pointwise-trans R S T k (x ∷ xs) (y ∷ ys) (z ∷ zs) p q =
      (k x y z p.0 q.0, Pointwise-trans R S T k xs ys zs p.1 q.1)

  pub Pointwise-mono :
      (R S : A → A → Type 0)
      → ((x y : A) → R x y → S x y)
      → (xs ys : List A) → Pointwise R xs ys
      → Pointwise S xs ys
  Pointwise-mono R S k [] [] p = tt
  Pointwise-mono R S k [] (y ∷ ys) p = absurd p
  Pointwise-mono R S k (x ∷ xs) [] p = absurd p
  Pointwise-mono R S k (x ∷ xs) (y ∷ ys) p = (k x y p.0, Pointwise-mono R S k xs ys p.1)

  pub any_none : (p : A → Bool) (xs : List A) → any p xs ≡ false → All (λ x. p x ≡ false) xs
  unfolding any
  any_none p [] e = tt
  any_none p (x ∷ xs) e = (ground arith, any_none p xs (ground arith))

  pub count_concat :
      (p : A → Bool) (xs : List A) (x : A)
      → count p (xs ++ x ∷ []) ≡ (if p x then suc (count p xs) else count p xs)
  unfolding count
  count_concat p [] x = refl
  count_concat p (y ∷ ys) x = ground (arith, count_concat p ys x)
