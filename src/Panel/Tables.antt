-- ===== src/Panel/Tables.antt =====
-- admin/src/pages: the filters of the tables of orders, of couriers and of routes, which replace one
-- another, and the query that a table with them sends.
use couriers_server_node.Lifecycle.Calls.{filled}
use couriers_server_node.Panel.Client.{ListQuery, list_query}
use couriers_server_node.Prelude.{ℕ, String, Bool, Option, none, some, List, ◌∷◌, [], ◌++◌}

pub data FilterOperator : Type 0 where
  contains eq gte lte : FilterOperator

pub record CrudFilter : Type 0 where
  pub field : String
  pub operator : FilterOperator
  pub value : String

-- One filter, if its value is not empty.
abbrev pub filter_on : String → FilterOperator → Option String → List CrudFilter
filter_on field operator asked = elim (filled asked) [
  | none ↦ []
  | some value ↦ record { field = field; operator = operator; value = value } ∷ []
]

pub record TableState : Type 0 where
  pub current : Option ℕ
  pub page_size : Option ℕ
  pub sorters : List (String × Bool)
  pub filters : List CrudFilter

-- `setFilters(filters, 'replace')`; where refine leaves the page is not modelled.
abbrev pub set_filters : List CrudFilter → TableState → TableState
set_filters filters t = record t { filters = filters }

-- Of `OrdersPage` and of `CouriersPage`.
unfoldable pub handle_search : String → TableState → TableState
handle_search value = set_filters (filter_on "search" contains (some value))

unfoldable pub handle_status_filter : Option String → TableState → TableState
handle_status_filter value = set_filters (filter_on "status" eq value)

-- The two dates as ISO strings; without a range both are none.
unfoldable pub handle_date_range : (start finish : Option String) → TableState → TableState
handle_date_range start finish =
    set_filters (filter_on "from" gte start ++ filter_on "to" lte finish)

abbrev query_fields : List CrudFilter → List (String × String)
query_fields [] = []
query_fields (f ∷ fs) = (f.field, f.value) ∷ query_fields fs

-- `getList` reads the name and the value of a filter and not its operator.
unfoldable pub table_query : TableState → ListQuery
table_query t = list_query t.current t.page_size t.sorters (query_fields t.filters)
