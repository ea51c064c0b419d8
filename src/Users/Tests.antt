-- ===== src/Users/Tests.antt =====
-- src/users/users.service.ts: the requests on staff, run on the sample.
use couriers_server_node.Entities.{StaffUser, manager}
use couriers_server_node.Http.{Message, HttpError, err}
use couriers_server_node.Prelude.{
  ◌==◌, filter, find, count, ℕ, ◌≤◌, ◌⊎◌, String, ◌≡◌, refl, true, false, ◌∷◌, arith, [],
}
use couriers_server_node.Samples.{env, boss, db, world}
use couriers_server_node.Users.Keys.{
  handle_user, OneEmail, handle_user-OneEmail, is_foreign, OneKey, handle_user_keeps, creates_user,
  RemovesSelf, removes_user,
}
use couriers_server_node.Users.Service.{CreateUser, PathId, remove_user}
use couriers_server_node.World.{World}

abbrev staff_row : ℕ → ℕ → String → StaffUser
staff_row id tenant email = record {
  id = id;
  owner_id = tenant;
  name = "N";
  email = email;
  role = manager;
  password_hash = "h";
  created_at = 1;
  updated_at = 1;
}

abbrev staffed : World
staffed = record world {
  db = record db {
    staff_users =
        staff_row 10 1 "a@b.test" ∷ staff_row 11 1 "c@b.test" ∷ staff_row 12 2 "d@b.test" ∷ [];
  };
}

abbrev plain : ℕ → PathId
plain id = record { uuid = id; is_canonical = true }

-- One's own id in upper case.
own_account_removed :
    count
      (λ u. u.id == 10)
      (remove_user 1 (record { uuid = 10; is_canonical = false }) 10 staffed).1.db.staff_users
    ≡ 0
unfolding remove_user find filter count
own_account_removed = refl

own_account_kept :
    (remove_user 1 (plain 10) 10 staffed).0 ≡ err (HttpError.forbidden Message.own_account)
unfolding remove_user
own_account_kept = refl

foreign_not_found :
    (remove_user 1 (plain 12) 10 staffed).0 ≡ err (HttpError.not_found Message.user_not_found)
unfolding remove_user find
foreign_not_found = refl

one_key : OneKey staffed.db.staff_users
unfolding count
one_key id = ground arith

handle_user_keeps_example :
    (filter
        (is_foreign boss)
        (handle_user env (λ p. p) boss (removes_user (plain 11)) staffed).db.staff_users
      ≡ filter (is_foreign boss) staffed.db.staff_users)
    × ((count (λ u. u.id == 10) staffed.db.staff_users
          ≤ count
              (λ u. u.id == 10)
              (handle_user env (λ p. p) boss (removes_user (plain 11)) staffed).db.staff_users)
        ⊎ RemovesSelf boss (removes_user (plain 11)))
handle_user_keeps_example =
    handle_user_keeps env (λ p. p) boss (removes_user (plain 11)) staffed one_key

abbrev newcomer : CreateUser
newcomer = record { name = "M"; email = "e@b.test"; role = manager; password = "secret12" }

no_staff-OneEmail : OneEmail world.db.staff_users
unfolding count
no_staff-OneEmail email = omega arith

handle_user-OneEmail_example :
    OneEmail (handle_user env (λ p. p) boss (creates_user newcomer) world).db.staff_users
handle_user-OneEmail_example =
    handle_user-OneEmail env (λ p. p) boss (creates_user newcomer) world no_staff-OneEmail
