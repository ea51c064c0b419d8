-- ===== src/Pagination/Cover.antt =====
-- The page arithmetic of the list endpoints: the pages of a list against the list.
use couriers_server_node.Pagination.Query.{
  Numeric, page_of, limit_of, whole_of, paged_with, total_pages, paginate, paged, nan, infinity,
  minus_infinity, whole, fraction,
}
use couriers_server_node.Prelude.{
  length, take, drop, take_add, drop_add, take_all, ℕ, zero, suc, ◌+◌, ◌-◌, ◌*◌, ◌≤◌, max, ◌≡◌,
  refl, ap, leb, Bool-cases, inl, inr, ◌∙◌, Option, none, some, List, ◌++◌, arith, [],
}
use couriers_server_node.Prelude.Int.{ℤ}

-- The pages `page`, `page + 1`, …, `n` of them, one after the other.
unfoldable pub pages_from : {A : Type 0} → ℕ → ℕ → ℕ → List A → List A
pages_from zero page limit rows = []
pages_from (suc n) page limit rows =
    (paginate page limit rows).rows ++ pages_from n (suc page) limit rows

limit_bounds :
    (l : Option Numeric) (limit : ℕ)
    → whole_of (limit_of l) ≡ some limit
    → (1 ≤ limit) × (limit ≤ 100)
unfolding limit_of
limit_bounds none limit e = ground arith
limit_bounds (some nan) limit e = absurd (cc)
limit_bounds (some infinity) limit e = ground arith
limit_bounds (some minus_infinity) limit e = ground arith
limit_bounds (some (whole (ℤ.pos n))) limit e = ground arith
limit_bounds (some (whole (ℤ.negsuc n))) limit e = ground arith
limit_bounds (some (fraction (ℤ.pos n))) limit e = elim (Bool-cases (leb 1 n)) [
  | inl a ↦ elim (Bool-cases (leb 100 n)) [ inl b ↦ ground arith | inr b ↦ absurd (ground arith) ]
  | inr a ↦ ground arith
]
limit_bounds (some (fraction (ℤ.negsuc n))) limit e = ground arith

paged-whole :
    {A : Type 0} (k : ℕ) (asked : Option Numeric) (limit : ℕ) (rows : List A)
    → whole_of (limit_of asked) ≡ some limit
    → 1 ≤ k
    → paged (some (whole (ℤ.pos k))) asked rows ≡ some (paginate k limit rows)
unfolding paged page_of
paged-whole k asked limit rows e h =
    let m : max 1 k ≡ k = omega (arith, h) in
    let p : whole_of (page_of (some (whole (ℤ.pos k)))) ≡ some k = ap some m in
    ap (λ q. paged_with q (whole_of (limit_of asked)) rows) p
    ∙ ap (λ l. paged_with (some k) l rows) e

pages_cover :
    {A : Type 0} (n k limit : ℕ) (rows : List A)
    → pages_from n (suc k) limit rows ≡ take (n * limit) (drop (k * limit) rows)
unfolding pages_from paginate
pages_cover zero k limit rows = let e : 0 * limit ≡ 0 = omega arith in rw e
pages_cover {A} (suc n) k limit rows =
    let e : suc k - 1 ≡ k = omega arith in
    let m : suc n * limit ≡ limit + n * limit = omega arith in
    let next : suc k * limit ≡ k * limit + limit = omega arith in
    rw
      (
        e,
        m,
        take_add limit (n * limit) (drop (k * limit) rows),
        pages_cover n (suc k) limit rows,
        next,
        drop_add (k * limit) limit rows,
      )
      refl

enough_pages : (total limit : ℕ) → 1 ≤ limit → total ≤ total_pages total limit * limit
unfolding total_pages
enough_pages total limit h = grind arith

-- When the limit that an endpoint which clamps it uses is a whole number, it is from 1 to 100; the endpoint answers
-- every whole page from 1 on with that limit; and the pages that it announces, one after the other from page 1, are
-- the whole list.
pub pages-cover :
    {A : Type 0} (asked : Option Numeric) (limit : ℕ) (rows : List A)
    → whole_of (limit_of asked) ≡ some limit
    → (1 ≤ limit)
      × (limit ≤ 100)
      × ((k : ℕ) → 1 ≤ k → paged (some (whole (ℤ.pos k))) asked rows ≡ some (paginate k limit rows))
      × (pages_from (total_pages (length rows) limit) 1 limit rows ≡ rows)
pages-cover asked limit rows e =
    let b = limit_bounds asked limit e in
    let n = total_pages (length rows) limit in
    let start : 0 * limit ≡ 0 = omega arith in
    (
      b.0,
      b.1,
      λ k h. paged-whole k asked limit rows e h,
      pages_cover n 0 limit rows
          ∙ rw start (take_all (n * limit) rows (enough_pages (length rows) limit b.0)),
    )
