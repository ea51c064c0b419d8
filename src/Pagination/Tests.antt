-- ===== src/Pagination/Tests.antt =====
-- The page arithmetic, run on small lists.
use couriers_server_node.Pagination.Cover.{pages_from, pages-cover}
use couriers_server_node.Pagination.Query.{
  Numeric, limit_of, whole_of, total_pages, paginate, paged, nan, whole, fraction,
}
use couriers_server_node.Prelude.{length, ℕ, ◌≤◌, ◌≡◌, refl, Option, none, some, List, ◌∷◌, []}
use couriers_server_node.Prelude.Int.{ℤ}

limits :
    (limit_of none ≡ whole (ℤ.pos 20))
    × (limit_of (some (whole (ℤ.pos 500))) ≡ whole (ℤ.pos 100))
    × (limit_of (some (whole (ℤ.negsuc 3))) ≡ whole (ℤ.pos 1))
    × (limit_of (some nan) ≡ nan)
    × (limit_of (some (fraction (ℤ.pos 2))) ≡ fraction (ℤ.pos 2))
    × (limit_of (some (fraction (ℤ.pos 100))) ≡ whole (ℤ.pos 100))
unfolding limit_of
limits = (refl, refl, refl, refl, refl, refl)

abbrev rows : List ℕ
rows = 7 ∷ 8 ∷ 9 ∷ []

abbrev two : Option Numeric
two = some (whole (ℤ.pos 2))

two_used : whole_of (limit_of two) ≡ some 2
unfolding limit_of
two_used = refl

pages-cover_example :
    (1 ≤ 2)
    × (2 ≤ 100)
    × ((k : ℕ) → 1 ≤ k → paged (some (whole (ℤ.pos k))) two rows ≡ some (paginate k 2 rows))
    × (pages_from (total_pages (length rows) 2) 1 2 rows ≡ rows)
pages-cover_example = pages-cover two 2 rows two_used
