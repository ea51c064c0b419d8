-- ===== src/Prelude/Keys.antt =====
-- Laws of rows that are found by a key, of inserts that it does not meet, and of deletions.
use Prim.Native.Nat.{suc, ◌≤◌}
use mathlib.Core.Path.{◌≡◌, refl}
use mathlib.Core.Logic.{◌≢◌, inl, inr}
use mathlib.Core.Bool.{◌&&◌, not, Bool, true, false}
use mathlib.Core.Option.{none, some}
use mathlib.Core.List.{List, [], ◌∷◌, ◌++◌}
use native.Mathlib.Omega.{arith}
use couriers_server_node.Prelude.Tests.{Bool-cases}
use couriers_server_node.Prelude.Lists.{filter, find, count, update, any}
use couriers_server_node.Prelude.Tables.{All, All-of, All-mono, count-update-le}
use couriers_server_node.Prelude.Writes.{found-count}

module _ {ℓ} {A : Type ℓ} where
  pub find-append :
      (p : A → Bool) (xs ys : List A) (x : A) → find p xs ≡ some x → find p (xs ++ ys) ≡ some x
  unfolding find
  find-append p [] ys x e = absurd (cc)
  find-append p (y ∷ xs) ys x e = ground (arith, find-append p xs ys x)

  pub none-any-find : (p : A → Bool) (xs : List A) → find p xs ≡ none → any p xs ≡ false
  unfolding any find
  none-any-find p [] e = refl
  none-any-find p (x ∷ xs) e = ground (arith, none-any-find p xs)

  pub find_concat :
      (p : A → Bool) (xs : List A) (x : A)
      → any p xs ≡ false
      → p x ≡ true
      → find p (xs ++ x ∷ []) ≡ some x
  unfolding any find
  find_concat p [] x e h = rw h
  find_concat p (y ∷ ys) x e h = ground (arith, find_concat p ys x)

  -- A selection from two tables, none of the first and all of the second.
  pub filter-append :
      (p : A → Bool) (xs ys : List A)
      → any p xs ≡ false
      → All (λ y. p y ≡ true) ys
      → filter p (xs ++ ys) ≡ ys
  unfolding any filter
  filter-append p [] [] e h = refl
  filter-append p [] (y ∷ ys) e h = rw (h.0, filter-append p [] ys refl h.1)
  filter-append p (x ∷ xs) ys e h = ground (arith, filter-append p xs ys (ground arith) h)

  -- An update that takes a row of `q` out.
  pub count-update-lt :
      (q p : A → Bool) (f : A → A) (xs : List A)
      → ((x : A) → p x ≡ true → q (f x) ≡ false)
      → count (λ x. p x && q x) xs ≢ 0
      → suc (count q (update p f xs)) ≤ count q xs
  unfolding count update
  count-update-lt q p f [] h n = absurd (n refl)
  count-update-lt q p f (x ∷ xs) h n = ground (
    arith,
    h x,
    count-update-lt q p f xs h,
    count-update-le q p f xs (All-of _ (λ y a b. absurd (ground (arith, h y))) xs),
  )

  pub count-filter-le : (q p : A → Bool) (xs : List A) → count q (filter p xs) ≤ count q xs
  unfolding filter count
  count-filter-le q p [] = omega arith
  count-filter-le q p (x ∷ xs) = ground (arith, count-filter-le q p xs)

  pub filter_concat_miss :
      (p : A → Bool) (xs : List A) (x : A) → p x ≡ false → filter p (xs ++ x ∷ []) ≡ filter p xs
  unfolding filter
  filter_concat_miss p [] x e = rw e
  filter_concat_miss p (y ∷ ys) x e = ground (arith, filter_concat_miss p ys x e)

  -- An update of rows that a selection leaves out, before and after.
  pub filter-update_miss :
      (p q : A → Bool) (f : A → A) (xs : List A)
      → All (λ x. q x ≡ true → (p x ≡ false) × (p (f x) ≡ false)) xs
      → filter p (update q f xs) ≡ filter p xs
  unfolding filter update
  filter-update_miss p q f [] h = refl
  filter-update_miss p q f (x ∷ xs) h = ground (arith, h.0, filter-update_miss p q f xs h.1)

  -- A deletion of rows that a selection leaves out.
  pub filter-filter_miss :
      (p q : A → Bool) (xs : List A)
      → All (λ x. q x ≡ true → p x ≡ false) xs
      → filter p (filter (λ x. not (q x)) xs) ≡ filter p xs
  unfolding filter
  filter-filter_miss p q [] h = refl
  filter-filter_miss p q (x ∷ xs) h = ground (arith, h.0, filter-filter_miss p q xs h.1)

  pub count-filter_keep :
      (p q : A → Bool) (xs : List A)
      → ((x : A) → p x ≡ true → q x ≡ true)
      → count p (filter q xs) ≡ count p xs
  unfolding filter count
  count-filter_keep p q [] h = refl
  count-filter_keep p q (x ∷ xs) h = ground (arith, h x, count-filter_keep p q xs h)

-- The one row of a key is the one that a search found.
pub only_found :
    {A : Type 0} (q p : A → Bool) (xs : List A) (x : A)
    → count p xs ≤ 1
    → find q xs ≡ some x
    → p x ≡ true
    → All (λ y. p y ≡ true → y ≡ x) xs
unfolding find count
only_found q p [] x n e h = tt
only_found q p (y ∷ ys) x n e h = elim (Bool-cases (q y)) [
  | inl k ↦
      let same : y ≡ x = ground arith in
      let t : p y ≡ true = rw same h in
      let z : count p ys ≡ 0 = ground arith in
      (λ _. same, All-mono _ _ (λ w f g. absurd (ground arith)) ys (none_counted p ys z))
  | inr k ↦
      let f : find q ys ≡ some x = ground arith in
      let m = found-count q p ys x f h in
      (λ g. absurd (m (ground arith)), only_found q p ys x (ground arith) f h)
]
  where
    none_counted :
        {A : Type 0} (p : A → Bool) (ys : List A) → count p ys ≡ 0 → All (λ w. p w ≡ false) ys
    none_counted p [] z = tt
    none_counted p (w ∷ ws) z = (ground arith, none_counted p ws (ground arith))

-- An update that writes the rows of `p`, where no other row is a row of `q`.
pub count-update-only {ℓ} :
    {A : Type ℓ} (q p : A → Bool) (f : A → A) (xs : List A)
    → All (λ x. p x ≡ false → q x ≡ false) xs
    → count q (update p f xs) ≤ count p xs
unfolding count update
count-update-only q p f [] h = omega arith
count-update-only q p f (x ∷ xs) h = ground (arith, h.0, count-update-only q p f xs h.1)

pub count-filter {ℓ} :
    {A : Type ℓ} (q p : A → Bool) (xs : List A) → count q (filter p xs) ≡ count (λ x. p x && q x) xs
unfolding filter count
count-filter q p [] = refl
count-filter q p (x ∷ xs) = ground (arith, count-filter q p xs)
