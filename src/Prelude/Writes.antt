-- ===== src/Prelude/Writes.antt =====
-- Laws of writes on tables: what an update or an insert makes of a selection or a count.
use Prim.Native.Nat.{◌+◌}
use mathlib.Core.Path.{◌≡◌, refl}
use mathlib.Core.Logic.{◌≢◌, inl, inr}
use mathlib.Core.Bool.{◌||◌, Bool, true, false}
use mathlib.Core.Option.{some}
use mathlib.Core.List.{List, [], ◌∷◌, ◌++◌}
use native.Mathlib.Omega.{arith}
use couriers_server_node.Prelude.Tests.{Bool-cases}
use couriers_server_node.Prelude.Lists.{filter, find, count, update, any}
use couriers_server_node.Prelude.Tables.{All, Pointwise}

module _ {ℓ} {A : Type ℓ} where
  -- An update after which the rows have another predicate, those it met and those it did not.
  pub All-update_to :
      (P Q : A → Type 0) (p : A → Bool) (f : A → A) (xs : List A)
      → All (λ x. P x → (p x ≡ true → Q (f x)) × (p x ≡ false → Q x)) xs
      → All P xs
      → All Q (update p f xs)
  unfolding update
  All-update_to P Q p f [] h a = tt
  All-update_to P Q p f (x ∷ xs) h a = (
    elim (Bool-cases (p x)) [ inl e ↦ rw e ((h.0 a.0).0 e) | inr e ↦ rw e ((h.0 a.0).1 e) ],
    All-update_to P Q p f xs h.1 a.1,
  )

  -- A relation to the rows of an earlier table that the writes of an update keep.
  pub Pointwise-update :
      (R : A → A → Type 0) (p : A → Bool) (f : A → A)
      → ((x y : A) → p y ≡ true → R x y → R x (f y))
      → (xs ys : List A) → Pointwise R xs ys
      → Pointwise R xs (update p f ys)
  unfolding update
  Pointwise-update R p f k [] [] h = tt
  Pointwise-update R p f k [] (y ∷ ys) h = absurd h
  Pointwise-update R p f k (x ∷ xs) [] h = absurd h
  Pointwise-update R p f k (x ∷ xs) (y ∷ ys) h = (
    elim (Bool-cases (p y)) [ inl e ↦ rw e (k x y e h.0) | inr e ↦ rw e h.0 ],
    Pointwise-update R p f k xs ys h.1,
  )

  -- A predicate on all the rows of two tables.
  pub All-append : (P : A → Type 0) (xs ys : List A) → All P xs → All P ys → All P (xs ++ ys)
  All-append P [] ys a b = b
  All-append P (x ∷ xs) ys a b = (a.0, All-append P xs ys a.1 b)

  pub All-append_left : (P : A → Type 0) (xs ys : List A) → All P (xs ++ ys) → All P xs
  All-append_left P [] ys a = tt
  All-append_left P (x ∷ xs) ys a = (a.0, All-append_left P xs ys a.1)

  pub All-append_right : (P : A → Type 0) (xs ys : List A) → All P (xs ++ ys) → All P ys
  All-append_right P [] ys a = a
  All-append_right P (x ∷ xs) ys a = All-append_right P xs ys a.1

  -- An update after which exactly the rows of `q` and those it met are rows of `q`.
  pub count-update_add :
      (q p : A → Bool) (f : A → A) (xs : List A)
      → ((x : A) → p x ≡ true → (q (f x) ≡ true) × (q x ≡ false))
      → count q (update p f xs) ≡ count q xs + count p xs
  unfolding count update
  count-update_add q p f [] h = omega arith
  count-update_add q p f (x ∷ xs) h = ground (arith, h x, count-update_add q p f xs h)

  -- A count that the writes of an update leave alone.
  pub count-update_same :
      (q p : A → Bool) (f : A → A) (xs : List A)
      → ((x : A) → p x ≡ true → q (f x) ≡ q x)
      → count q (update p f xs) ≡ count q xs
  unfolding count update
  count-update_same q p f [] h = refl
  count-update_same q p f (x ∷ xs) h = ground (arith, h x, count-update_same q p f xs h)

  pub found-count :
      (q p : A → Bool) (xs : List A) (x : A) → find q xs ≡ some x → p x ≡ true → count p xs ≢ 0
  unfolding find count
  found-count q p [] x e h = absurd (cc)
  found-count q p (y ∷ ys) x e h = ground (arith, found-count q p ys x)

  pub filter-empty-count : (p : A → Bool) (xs : List A) → filter p xs ≡ [] → count p xs ≡ 0
  unfolding filter count
  filter-empty-count p [] e = refl
  filter-empty-count p (x ∷ xs) e = ground (arith, filter-empty-count p xs)

  -- A row that an update writes so that it is a row of `q`.
  pub count-update_some :
      (q p : A → Bool) (f : A → A) (xs : List A)
      → ((x : A) → p x ≡ true → q (f x) ≡ true)
      → count p xs ≢ 0
      → count q (update p f xs) ≢ 0
  unfolding count update
  count-update_some q p f [] h n = absurd (n refl)
  count-update_some q p f (x ∷ xs) h n = ground (arith, h x, count-update_some q p f xs h)

  pub count-any : (p : A → Bool) (xs : List A) → count p xs ≢ 0 → any p xs ≡ true
  unfolding any count
  count-any p [] n = absurd (n refl)
  count-any p (x ∷ xs) n = ground (arith, count-any p xs)

  pub any_concat : (p : A → Bool) (xs : List A) (x : A) → any p (xs ++ x ∷ []) ≡ (any p xs || p x)
  unfolding any
  any_concat p [] x = ground arith
  any_concat p (y ∷ ys) x = ground (arith, any_concat p ys x)

  pub any-update_same :
      (q p : A → Bool) (f : A → A) (xs : List A)
      → ((x : A) → p x ≡ true → q (f x) ≡ q x)
      → any q (update p f xs) ≡ any q xs
  unfolding any update
  any-update_same q p f [] h = refl
  any-update_same q p f (x ∷ xs) h = ground (arith, h x, any-update_same q p f xs h)

  pub none_any : (p : A → Bool) (xs : List A) → All (λ x. p x ≡ false) xs → any p xs ≡ false
  unfolding any
  none_any p [] h = refl
  none_any p (x ∷ xs) h = rw (h.0) (none_any p xs h.1)
