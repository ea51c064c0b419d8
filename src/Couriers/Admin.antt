-- ===== src/Couriers/Admin.antt =====
-- src/couriers/couriers-admin.service.ts: `findAll`, `findOne` and `update`.
use couriers_server_node.Entities.{
  CourierStatus, Courier, OpenStatus, CourierShift, CourierPosition, available, unavailable,
}
use couriers_server_node.Http.{Message, HttpError}
use couriers_server_node.Lifecycle.Calls.{filled}
use couriers_server_node.Pagination.Query.{Page, paginate}
use couriers_server_node.Prelude.{
  leb, ◌==◌, if◌then◌else◌, or_else, head_or_none, filter, find, update, any, sort, descending, ℕ,
  ◌+◌, ◌-◌, ◌/◌, String, Bool, true, false, not, ◌&&◌, Option, none, some, map, str_eq, ◌||◌,
}
use couriers_server_node.Prelude.Int.{ℤ}
use couriers_server_node.Shifts.Service.{is_opened, is_courier}
use couriers_server_node.World.{Db, Env, Exec, pure, gets, or_raise, insert_unique, ◌>>=◌, ◌>>◌}

pub record CourierListItem : Type 0 where
  pub id : ℕ
  pub first_name : String
  pub last_name : String
  pub phone : String
  pub status : CourierStatus
  pub login : Option String
  pub created_at : ℕ
  pub updated_at : ℕ

abbrev pub to_list_item : Courier → CourierListItem
to_list_item c = record {
  id = c.id;
  first_name = c.first_name;
  last_name = c.last_name;
  phone = c.phone;
  status = c.status;
  login = c.login;
  created_at = c.created_at;
  updated_at = c.updated_at;
}

-- `ILIKE '%q%'` of PostgreSQL is an argument: the search text first.
abbrev pub matches : (String → String → Bool) → Option String → Courier → Bool
matches ilike asked c = elim (filled asked) [
  | none ↦ true
  | some q ↦ ilike q c.first_name || (ilike q c.last_name || ilike q c.phone)
]

-- The latest couriers first; for a page and a limit of at least 1, which this endpoint does not clamp.
unfoldable pub find_all_couriers :
    (String → String → Bool) → ℕ → (page limit : ℕ) → Option String → Db → Page CourierListItem
find_all_couriers ilike tenant page limit search d =
    let found = paginate page limit (
      sort (descending (λ c. c.created_at))
        (filter (λ c. c.owner_id == tenant && matches ilike search c) d.couriers)) in
    record { rows = map to_list_item found.rows; meta = found.meta }

pub record CurrentPosition : Type 0 where
  pub lat : ℤ
  pub lng : ℤ
  pub recorded_at : ℕ

pub record CurrentShift : Type 0 where
  pub id : ℕ
  pub status : OpenStatus
  pub started_at : ℕ
  pub elapsed_minutes : ℤ

pub record CourierDetail : Type 0 where
  pub item : CourierListItem
  pub telegram_chat_id : Option String
  pub current_position : Option CurrentPosition
  pub current_shift : Option CurrentShift

-- `Math.floor((now - started) / 60000)`
abbrev pub floor_minutes : ℕ → ℕ → ℤ
floor_minutes started now =
    if leb started now
    then ℤ.pos ((now - started) / 60000)
    else ℤ.negsuc ((started - now + 59999) / 60000 - 1)

abbrev pub latest_position : ℕ → ℕ → Db → Option CourierPosition
latest_position id tenant d = head_or_none (
    sort (descending (λ p. p.recorded_at))
      (filter (λ p. p.courier_id == id && p.owner_id == tenant) d.positions))

abbrev pub latest_open_shift : ℕ → ℕ → Db → Option CourierShift
latest_open_shift id tenant d = head_or_none (
    sort (descending (λ s. s.started_at))
      (filter (λ s. s.courier_id == id && (s.owner_id == tenant && is_opened s.status)) d.shifts))

abbrev pub position_dto : Option CourierPosition → Option CurrentPosition
position_dto none = none
position_dto (some p) = some (record { lat = p.lat; lng = p.lng; recorded_at = p.recorded_at })

abbrev pub shift_dto : Env → Option CourierShift → Option CurrentShift
shift_dto env none = none
shift_dto env (some s) = some (record {
  id = s.id;
  status = s.status;
  started_at = s.started_at;
  elapsed_minutes = floor_minutes s.started_at env.app_now;
})

unfoldable pub find_one_courier : Env → ℕ → ℕ → Exec CourierDetail
find_one_courier env tenant id = do
  c ←
      or_raise (← gets (λ d. find (is_courier id tenant) d.couriers))
        (HttpError.not_found Message.courier_not_found)
  position ← gets (latest_position id tenant)
  shift ← gets (latest_open_shift id tenant)
  pure (record {
    item = to_list_item c;
    telegram_chat_id = c.telegram_chat_id;
    current_position = position_dto position;
    current_shift = shift_dto env shift;
  })

-- The fields that an update may carry; two of them may be `null`.
pub record UpdateCourier : Type 0 where
  pub first_name : Option String
  pub last_name : Option String
  pub phone : Option String
  pub status : Option CourierStatus
  pub login : Option (Option String)
  pub telegram_chat_id : Option (Option String)

-- `Object.assign(courier, dto)`
abbrev pub assigned_courier : UpdateCourier → Courier → Courier
assigned_courier dto c = record c {
  first_name = or_else dto.first_name c.first_name;
  last_name = or_else dto.last_name c.last_name;
  phone = or_else dto.phone c.phone;
  status = or_else dto.status c.status;
  login = or_else dto.login c.login;
  telegram_chat_id = or_else dto.telegram_chat_id c.telegram_chat_id;
}

abbrev pub same_text : Option String → Option String → Bool
same_text none none = true
same_text none (some b) = false
same_text (some a) none = false
same_text (some a) (some b) = str_eq a b

abbrev pub same_courier_status : CourierStatus → CourierStatus → Bool
same_courier_status available available = true
same_courier_status available unavailable = false
same_courier_status unavailable available = false
same_courier_status unavailable unavailable = true

abbrev pub unchanged : Courier → Courier → Bool
unchanged a b =
    str_eq a.first_name b.first_name
    && (str_eq a.last_name b.last_name
        && (str_eq a.phone b.phone
            && (same_courier_status a.status b.status
                && (same_text a.login b.login && same_text a.telegram_chat_id b.telegram_chat_id))))

-- `save` writes the row, and its `updated_at`, if a column has changed.
abbrev pub stored : Env → Courier → Courier → Courier
stored env new old = if unchanged new old then old else record new { updated_at = env.db_now }

abbrev pub same_login : Option String → Option String → Bool
same_login none b = false
same_login (some a) none = false
same_login (some a) (some b) = str_eq a b

-- The unique indexes of migrations 002 (owner_id, phone) and 006 (owner_id, login): another row in
-- the way of a row.
abbrev pub is_in_way : Courier → Courier → Bool
is_in_way new x =
    not (x.id == new.id)
    && (x.owner_id == new.owner_id && (str_eq x.phone new.phone || same_login x.login new.login))

unfoldable pub save_courier : Env → Courier → Exec (Unit {0})
save_courier env new =
    insert_unique (λ d. any (is_in_way new) d.couriers)
      (λ d. record d { couriers = update (λ x. x.id == new.id) (stored env new) d.couriers })

unfoldable pub update_courier : Env → ℕ → ℕ → UpdateCourier → Exec CourierDetail
update_courier env tenant id dto = do
  c ←
      or_raise (← gets (λ d. find (is_courier id tenant) d.couriers))
        (HttpError.not_found Message.courier_not_found)
  save_courier env (assigned_courier dto c)
  find_one_courier env tenant id
