-- ===== src/Users/Keys.antt =====
-- src/users/users.service.ts: the table of staff under its requests.
use couriers_server_node.Entities.{AuthUser, StaffUser}
use couriers_server_node.Prelude.{
  ◌==◌, ==_refl, Bool-cases, Option-cases, filter, find, count, update, any, All, All-mono,
  find_holds, count-append, any-count, count-update, count_concat, count-filter-le,
  filter_concat_miss, filter-update_miss, filter-filter_miss, count-filter_keep, only_found, ℕ, ◌≤◌,
  String, ◌≡◌, refl, subst, ◌⊎◌, inl, inr, Bool, true, false, not, some, List, ◌∷◌, ◌++◌, arith,
  str_eq_iff, [],
}
use couriers_server_node.Users.Service.{
  CreateUser, UpdateUser, PathId, is_same_text, is_email, is_staff_of, new_user, create_user,
  assign, saved, update_user, remove_user,
}
use couriers_server_node.World.{World, Env}

pub data UserRequest : Type 0 where
  creates_user : CreateUser → UserRequest
  updates_user : (id : ℕ) → UpdateUser → UserRequest
  removes_user : (id : PathId) → UserRequest

unfoldable pub handle_user : Env → (String → String) → AuthUser → UserRequest → World → World
handle_user env hash user (creates_user dto) w = (create_user env hash user.owner_id dto w).1
handle_user env hash user (updates_user id dto) w = (update_user env user.owner_id id dto w).1
handle_user env hash user (removes_user id) w = (remove_user user.owner_id id user.user_id w).1

abbrev pub OneEmail : List StaffUser → Type 0
OneEmail us = (email : String) → count (is_email email) us ≤ 1

-- The table of staff after a request, on its branches.
users-cases :
    (env : Env) (hash : String → String) (user : AuthUser) (r : UserRequest) (w : World)
    → ((handle_user env hash user r w).db.staff_users ≡ w.db.staff_users)
      ⊎ (((dto : CreateUser) × (any (is_email dto.email) w.db.staff_users ≡ false)
            × ((handle_user env hash user r w).db.staff_users
                ≡ w.db.staff_users ++ new_user env hash user.owner_id dto ∷ []))
          ⊎ (((id : ℕ) × (dto : UpdateUser) × (u : StaffUser) × (find
                    (is_staff_of id user.owner_id)
                    w.db.staff_users
                  ≡ some u)
                × ((handle_user env hash user r w).db.staff_users
                    ≡ update (λ x. x.id == u.id) (saved env (assign dto u)) w.db.staff_users))
              ⊎ ((id : PathId) × (u : StaffUser) × (find
                      (is_staff_of id.uuid user.owner_id)
                      w.db.staff_users
                    ≡ some u)
                  × (r ≡ removes_user id)
                  × (is_same_text id user.user_id ≡ false)
                  × ((handle_user env hash user r w).db.staff_users
                      ≡ filter (λ x. not (x.id == u.id)) w.db.staff_users))))
unfolding handle_user create_user update_user remove_user
users-cases env hash user (creates_user dto) w =
    elim (Bool-cases (any (is_email dto.email) w.db.staff_users)) [
      | inl e ↦ inl (ground arith)
      | inr e ↦ elim (Option-cases (find (is_email dto.email) w.db.staff_users)) [
        | inl f ↦ inr (inl (dto, e, ground arith))
        | inr (u, f) ↦ inl (ground arith)
      ]
    ]
users-cases env hash user (updates_user id dto) w =
    elim (Option-cases (find (is_staff_of id user.owner_id) w.db.staff_users)) [
      | inl e ↦ inl (ground arith)
      | inr (u, e) ↦ inr (inr (inl (id, dto, u, e, ground arith)))
    ]
users-cases env hash user (removes_user id) w = elim (Bool-cases (is_same_text id user.user_id)) [
  | inl q ↦ inl (ground arith)
  | inr q ↦ elim (Option-cases (find (is_staff_of id.uuid user.owner_id) w.db.staff_users)) [
    | inl e ↦ inl (ground arith)
    | inr (u, e) ↦ inr (inr (inr (id, u, e, refl, q, ground arith)))
  ]
]

email-count :
    (u : StaffUser) (us : List StaffUser)
    → any (is_email u.email) us ≡ false
    → OneEmail us
    → OneEmail (us ++ u ∷ [])
email-count u us free h email = elim (Bool-cases (is_email email u)) [
  | inl e ↦
      let n : u.email ≡ email = (str_eq_iff u.email email).0 e in
      let z : count (is_email email) us ≡ 0 =
        any-count (is_email email) us (subst (λ m. any (is_email m) us ≡ false) n free) in
      rw (count_concat (is_email email) us u, e) (omega (arith, z))
  | inr e ↦ rw (count_concat (is_email email) us u, e) (h email)
]

saved-email : (env : Env) (new old : StaffUser) → (saved env new old).email ≡ old.email
saved-email env new old = ground arith

-- No request makes two of the staff, of whatever tenants, share an email.
pub handle_user-OneEmail :
    (env : Env) (hash : String → String) (user : AuthUser) (r : UserRequest) (w : World)
    → OneEmail w.db.staff_users
    → OneEmail (handle_user env hash user r w).db.staff_users
handle_user-OneEmail env hash user r w h = elim (users-cases env hash user r w) [
  | inl e ↦ rw e h
  | inr (inl (dto, free, e)) ↦
      rw e (email-count (new_user env hash user.owner_id dto) w.db.staff_users free h)
  | inr (inr (inl (id, dto, u, f, e))) ↦ rw e (λ email.
      rw
        (count-update (is_email email) (λ x. x.id == u.id) (saved env (assign dto u))
          w.db.staff_users (λ x. rw (saved-email env (assign dto u) x) refl))
        (h email))
  | inr (inr (inr (id, u, f, s, n, e))) ↦ rw e (λ email.
      omega (
        arith,
        h email,
        count-filter-le (is_email email) (λ x. not (x.id == u.id)) w.db.staff_users,
      ))
]

abbrev pub is_foreign : AuthUser → StaffUser → Bool
is_foreign user u = not (u.owner_id == user.owner_id)

abbrev pub OneKey : List StaffUser → Type 0
OneKey us = (id : ℕ) → count (λ u. u.id == id) us ≤ 1

-- The row that a request of the tenant found is the only one that it writes, and is of the tenant.
own_rows :
    (user : AuthUser) (id : ℕ) (u : StaffUser) (us : List StaffUser)
    → OneKey us
    → find (is_staff_of id user.owner_id) us ≡ some u
    → All (λ x. (x.id == u.id) ≡ true → x.owner_id ≡ user.owner_id) us
own_rows user id u us k e =
    let h = find_holds (is_staff_of id user.owner_id) us u e in
    All-mono _ _ (λ x same q. ground (arith, same q, h)) us
      (only_found (is_staff_of id user.owner_id) (λ x. x.id == u.id) us u (k u.id) e (==_refl u.id))

-- A removal that spells the id of the one who asks, but not as the database does.
pub record RemovesSelf (user : AuthUser) (r : UserRequest) : Type 0 where
  pub id : PathId
  pub removal : r ≡ removes_user id
  pub own : id.uuid ≡ user.user_id
  pub respelled : id.is_canonical ≡ false

-- No request changes, adds or removes staff of another tenant, and none removes the row of the one
-- who asks but a removal that spells its id in another way than the database does; identifiers are
-- unique.
pub handle_user_keeps :
    (env : Env) (hash : String → String) (user : AuthUser) (r : UserRequest) (w : World)
    → OneKey w.db.staff_users
    → (filter (is_foreign user) (handle_user env hash user r w).db.staff_users
        ≡ filter (is_foreign user) w.db.staff_users)
      × ((count (λ u. u.id == user.user_id) w.db.staff_users
            ≤ count (λ u. u.id == user.user_id) (handle_user env hash user r w).db.staff_users)
          ⊎ RemovesSelf user r)
handle_user_keeps env hash user r w k =
    let us = w.db.staff_users in
    let own : StaffUser → Bool = λ u. u.id == user.user_id in
    elim (users-cases env hash user r w) [
      | inl e ↦ rw e (refl, inl (omega arith))
      | inr (inl (dto, free, e)) ↦ rw e (
        filter_concat_miss (is_foreign user) us (new_user env hash user.owner_id dto)
            (rw (==_refl user.owner_id) refl),
        inl (rw (count-append own us (new_user env hash user.owner_id dto ∷ [])) (omega arith)),
      )
      | inr (inr (inl (id, dto, u, f, e))) ↦ rw e (
        filter-update_miss (is_foreign user) (λ x. x.id == u.id) (saved env (assign dto u)) us
            (All-mono _ _ (λ x o q. ground (arith, o q)) us (own_rows user id u us k f)),
        inl (
            rw
              (count-update own (λ x. x.id == u.id) (saved env (assign dto u)) us
                (λ x. ground arith))
              (omega arith)),
      )
      | inr (inr (inr (id, u, f, s, n, e))) ↦ rw e (
        filter-filter_miss (is_foreign user) (λ x. x.id == u.id) us
            (All-mono _ _ (λ x o q. ground (arith, o q)) us (own_rows user id.uuid u us k f)),
        let h = find_holds (is_staff_of id.uuid user.owner_id) us u f in
            elim (Bool-cases (id.uuid == user.user_id)) [
              | inl o ↦ inr (record {
                id = id;
                removal = s;
                own = ground arith;
                respelled = ground (arith, n, o);
              })
              | inr o ↦ inl (
                  rw
                    (count-filter_keep own (λ x. not (x.id == u.id)) us
                      (λ x q. ground (arith, h, o)))
                    (omega arith))
            ],
      )
    ]
