-- ===== src/Users/Service.antt =====
-- src/users/users.service.ts: `create`, `update` and `remove`.
use couriers_server_node.Entities.{
  UserRole, StaffUser, administrator, owner, manager, order_operator, courier,
}
use couriers_server_node.Http.{Message, HttpError}
use couriers_server_node.Pagination.Query.{Page, paginate}
use couriers_server_node.Prelude.{
  ◌==◌, if◌then◌else◌, is_none, or_else, filter, find, update, any, sort, descending, ℕ, String,
  Bool, not, ◌&&◌, Option, ◌∷◌, ◌++◌, map, str_eq, [],
}
use couriers_server_node.World.{
  Db, Env, Exec, pure, gets, or_raise, raise_if, modify, insert_unique, ◌>>=◌, ◌>>◌,
}

pub record CreateUser : Type 0 where
  pub name : String
  pub email : String
  pub role : UserRole
  pub password : String

-- The fields that an update may carry.
pub record UpdateUser : Type 0 where
  pub name : Option String
  pub role : Option UserRole

pub record UserResponse : Type 0 where
  pub id : ℕ
  pub name : String
  pub email : String
  pub role : UserRole
  pub created_at : ℕ

abbrev pub user_to_dto : StaffUser → UserResponse
user_to_dto u = record {
  id = u.id;
  name = u.name;
  email = u.email;
  role = u.role;
  created_at = u.created_at;
}

abbrev pub is_email : String → StaffUser → Bool
is_email email u = str_eq u.email email

abbrev pub is_staff_of : ℕ → ℕ → StaffUser → Bool
is_staff_of id tenant u = u.id == id && u.owner_id == tenant

-- bcrypt's `hash` is an argument.
abbrev pub new_user : Env → (String → String) → ℕ → CreateUser → StaffUser
new_user env hash tenant dto = record {
  id = env.uuid 0;
  owner_id = tenant;
  name = dto.name;
  email = dto.email;
  role = dto.role;
  password_hash = hash dto.password;
  created_at = env.db_now;
  updated_at = env.db_now;
}

-- The unique constraint `uq_staff_users_email` of migration 021.
unfoldable pub create_user : Env → (String → String) → ℕ → CreateUser → Exec UserResponse
create_user env hash tenant dto = do
  existing ← gets (λ d. find (is_email dto.email) d.staff_users)
  raise_if (not (is_none existing)) (HttpError.conflict Message.email_in_use)
  insert_unique (λ d. any (is_email dto.email) d.staff_users)
      (λ d. record d { staff_users = d.staff_users ++ new_user env hash tenant dto ∷ [] })
  pure (user_to_dto (new_user env hash tenant dto))

-- `Object.assign(user, dto)`
abbrev pub assign : UpdateUser → StaffUser → StaffUser
assign dto u = record u { name = or_else dto.name u.name; role = or_else dto.role u.role }

abbrev pub role_code : UserRole → ℕ
role_code administrator = 0
role_code owner = 1
role_code manager = 2
role_code order_operator = 3
role_code courier = 4

-- `save` writes the row by its key, and its `updated_at`, if a column has changed.
abbrev pub saved : Env → StaffUser → StaffUser → StaffUser
saved env new old =
    if str_eq new.name old.name && role_code new.role == role_code old.role
    then old
    else record old { name = new.name; role = new.role; updated_at = env.db_now }

unfoldable pub update_user : Env → ℕ → ℕ → UpdateUser → Exec UserResponse
update_user env tenant id dto = do
  user ←
      or_raise (← gets (λ d. find (is_staff_of id tenant) d.staff_users))
        (HttpError.not_found Message.user_not_found)
  modify λ d. record d {
    staff_users = update (λ u. u.id == user.id) (saved env (assign dto user)) d.staff_users;
  }
  pure (user_to_dto (assign dto user))

-- The text of `:id` in a path: the UUID that it spells, and whether it spells it as the database does,
-- in lower case. A column compares UUIDs; `===` compares texts.
pub record PathId : Type 0 where
  pub uuid : ℕ
  pub is_canonical : Bool

-- `id === requesterId`, whose right side is from the token.
abbrev pub is_same_text : PathId → ℕ → Bool
is_same_text id requester = id.is_canonical && id.uuid == requester

unfoldable pub remove_user : (tenant : ℕ) (id : PathId) (requester : ℕ) → Exec (Unit {0})
remove_user tenant id requester = do
  raise_if (is_same_text id requester) (HttpError.forbidden Message.own_account)
  user ←
      or_raise (← gets (λ d. find (is_staff_of id.uuid tenant) d.staff_users))
        (HttpError.not_found Message.user_not_found)
  modify λ d. record d { staff_users = filter (λ u. not (u.id == user.id)) d.staff_users }

-- The latest of the staff first; for a page and a limit of at least 1, which this endpoint does not
-- clamp.
unfoldable pub find_all_users : ℕ → (page limit : ℕ) → Db → Page UserResponse
find_all_users tenant page limit d =
    let found =
      paginate page limit (
        sort (descending (λ u. u.created_at)) (filter (λ u. u.owner_id == tenant) d.staff_users)) in
    record { rows = map user_to_dto found.rows; meta = found.meta }
