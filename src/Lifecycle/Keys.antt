-- ===== src/Lifecycle/Keys.antt =====
-- The primary key of `orders`: an update by key changes at most the one row that was read.
use couriers_server_node.Entities.{Order}
use couriers_server_node.Lifecycle.Rules.{is_order}
use couriers_server_node.Prelude.{
  Bool-cases, find, count, update, All, All-update, All-of, All-mono, All-find, find_holds,
  find_hit, find_miss, count_none, ℕ, ◌≤◌, ◌≡◌, sym, ◌∙◌, ◌≢◌, inl, inr, Bool, true, false, some,
  List, ◌∷◌, arith, [],
}

abbrev pub Distinct : List Order → Type 0
Distinct [] = Unit
Distinct (o ∷ os) = All (λ x. o.id ≢ x.id) os × Distinct os

-- No other row has the key.
no_row :
    (id owner : ℕ) (o : Order) (os : List Order)
    → o.id ≡ id
    → All (λ x. o.id ≢ x.id) os
    → All (λ x. is_order id owner x ≡ false) os
no_row id owner o os e h = All-mono _ _ (λ x ne. ground arith) os h

-- The row that an update by key meets is the one that a read by that key gave.
pub same_row :
    (id owner : ℕ) (os : List Order) (o : Order)
    → Distinct os
    → find (is_order id owner) os ≡ some o
    → All (λ x. is_order id owner x ≡ true → x ≡ o) os
same_row id owner [] o h e = tt
same_row id owner (x ∷ xs) o h e = elim (Bool-cases (is_order id owner x)) [
  | inl p ↦ (
    λ _. ground (arith, find_hit (is_order id owner) x xs p),
    All-mono _ _ (λ y ne q. absurd (cc)) xs (no_row id owner x xs (ground arith) h.0),
  )
  | inr p ↦ (
    λ q. absurd (cc),
    same_row id owner xs o h.1 (sym (find_miss (is_order id owner) x xs p) ∙ e),
  )
]

pub count-is_order :
    (id owner : ℕ) (os : List Order) → Distinct os → count (is_order id owner) os ≤ 1
unfolding count
count-is_order id owner [] h = omega arith
count-is_order id owner (x ∷ xs) h = elim (Bool-cases (is_order id owner x)) [
  | inl p ↦
      rw p
        (omega (arith, count_none (is_order id owner) xs (no_row id owner x xs (ground arith) h.0)))
  | inr p ↦ rw p (count-is_order id owner xs h.1)
]

pub Distinct-update :
    (p : Order → Bool) (f : Order → Order) (os : List Order)
    → ((x : Order) → (f x).id ≡ x.id)
    → Distinct os
    → Distinct (update p f os)
unfolding update
Distinct-update p f [] k h = tt
Distinct-update p f (x ∷ xs) k h = (
  All-update _ p f xs (All-of _ (λ y _ ne. ground (arith, k x, k y)) xs)
      (All-mono _ _ (λ y ne. ground (arith, k x)) xs h.0),
  Distinct-update p f xs k h.1,
)

-- No two rows share an id, whichever tenant asks.
pub same_key :
    (id owner : ℕ) (os : List Order) (o : Order)
    → Distinct os
    → find (is_order id owner) os ≡ some o
    → All (λ x. x.id ≡ id → x ≡ o) os
same_key id owner [] o h e = tt
same_key id owner (x ∷ xs) o h e = elim (Bool-cases (is_order id owner x)) [
  | inl p ↦ (
    λ _. ground (arith, find_hit (is_order id owner) x xs p),
    All-mono _ _ (λ y ne q. absurd (ground arith)) xs h.0,
  )
  | inr p ↦
      let e' = sym (find_miss (is_order id owner) x xs p) ∙ e in
      let found = find_holds (is_order id owner) xs o e' in
      (
        λ q. absurd (All-find (λ y. x.id ≢ y.id) (is_order id owner) xs o h.0 e' (ground arith)),
        same_key id owner xs o h.1 e',
      )
]
