-- ===== src/Pagination/Query.antt =====
-- The page arithmetic that the list endpoints share (getAvailableOrders, queryShiftHistory,
-- listPeriods, getCourierEarnings, getCourierPayouts): `page`, `limit`, `offset`, `total_pages`.
use couriers_server_node.Prelude.{
  leb, if◌then◌else◌, or_else, length, take, drop, ℕ, ◌+◌, ◌-◌, ◌*◌, ◌/◌, min, max, Option, none,
  some, List,
}
use couriers_server_node.Prelude.Int.{ℤ}

-- What `Number(…)` makes of a query parameter; a fraction is named by the integer below it.
pub data Numeric : Type 0 where
  nan infinity minus_infinity : Numeric
  whole fraction : ℤ → Numeric

-- `Math.max(1, n)`
abbrev pub at_least_one : Numeric → Numeric
at_least_one nan = nan
at_least_one infinity = infinity
at_least_one minus_infinity = whole (ℤ.pos 1)
at_least_one (whole (ℤ.pos n)) = whole (ℤ.pos (max 1 n))
at_least_one (whole (ℤ.negsuc n)) = whole (ℤ.pos 1)
at_least_one (fraction (ℤ.pos n)) = if leb 1 n then fraction (ℤ.pos n) else whole (ℤ.pos 1)
at_least_one (fraction (ℤ.negsuc n)) = whole (ℤ.pos 1)

-- `Math.min(100, n)`
abbrev pub at_most_hundred : Numeric → Numeric
at_most_hundred nan = nan
at_most_hundred infinity = whole (ℤ.pos 100)
at_most_hundred minus_infinity = minus_infinity
at_most_hundred (whole (ℤ.pos n)) = whole (ℤ.pos (min 100 n))
at_most_hundred (whole (ℤ.negsuc n)) = whole (ℤ.negsuc n)
at_most_hundred (fraction (ℤ.pos n)) = if leb 100 n then whole (ℤ.pos 100) else fraction (ℤ.pos n)
at_most_hundred (fraction (ℤ.negsuc n)) = fraction (ℤ.negsuc n)

-- `Math.max(1, query.page ?? 1)`
unfoldable pub page_of : Option Numeric → Numeric
page_of p = at_least_one (or_else p (whole (ℤ.pos 1)))

-- `Math.min(100, Math.max(1, query.limit ?? 20))`
unfoldable pub limit_of : Option Numeric → Numeric
limit_of l = at_most_hundred (at_least_one (or_else l (whole (ℤ.pos 20))))

abbrev pub whole_of : Numeric → Option ℕ
whole_of (whole (ℤ.pos n)) = some n
whole_of _ = none

-- `Math.ceil(total / limit)`
unfoldable pub total_pages : ℕ → ℕ → ℕ
total_pages total limit = (total + limit - 1) / limit

pub record Meta : Type 0 where
  pub total : ℕ
  pub page : ℕ
  pub limit : ℕ
  pub total_pages : ℕ

pub record Page (A : Type 0) : Type 0 where
  pub rows : List A
  pub meta : Meta

-- `.skip((page - 1) * limit).take(limit).getManyAndCount()`, over the rows in their order.
unfoldable pub paginate : {A : Type 0} → ℕ → ℕ → List A → Page A
paginate page limit rows = record {
  rows = take limit (drop ((page - 1) * limit) rows);
  meta = record {
    total = length rows;
    page = page;
    limit = limit;
    total_pages = total_pages (length rows) limit;
  };
}

abbrev pub paged_with : {A : Type 0} → Option ℕ → Option ℕ → List A → Option (Page A)
paged_with none limit rows = none
paged_with (some page) none rows = none
paged_with (some page) (some limit) rows = some (paginate page limit rows)

-- The page of a query; none if its page or its limit is no whole number, which is then for TypeORM
-- and PostgreSQL to answer or to refuse.
unfoldable pub paged : {A : Type 0} → Option Numeric → Option Numeric → List A → Option (Page A)
paged page limit rows = paged_with (whole_of (page_of page)) (whole_of (limit_of limit)) rows
