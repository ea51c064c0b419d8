-- ===== src/Orders/Effects.antt =====
-- src/orders/orders.service.ts: what `create` does to the database on every branch.
use couriers_server_node.Entities.{Owner, Client, AuthUser}
use couriers_server_node.Http.{Message, HttpError, ok, err}
use couriers_server_node.Orders.Responses.{CreateOrderDto, OrderResponse, map_to_order_response}
use couriers_server_node.Orders.Service.{
  is_client_of, is_numbered, recover, new_client, insert_client, reread_client,
  find_or_create_client, new_order, id_of_existing, order_number_conflict, insert_order,
  saved_items, stored_items, stored_order, created_entry, create_found, create_rows, create,
}
use couriers_server_node.Prelude.{
  ◌==◌, if◌then◌else◌, Bool-cases, Option-cases, find, any, none-any-find, ◌≡◌, ◌⊎◌, inl, inr, Bool,
  true, false, Option, none, some, ◌∷◌, ◌++◌, arith, [],
}
use couriers_server_node.World.{Db, Job, World, Env, transaction}

-- The client that an order is for, given the answer of the query.
abbrev pub client_for : Env → CreateOrderDto → AuthUser → Option Client → Client
client_for env dto user none = new_client env dto user
client_for env dto user (some c) = c

abbrev clients_with : Env → CreateOrderDto → AuthUser → Option Client → Db → Db
clients_with env dto user none d = record d { clients = d.clients ++ new_client env dto user ∷ [] }
clients_with env dto user (some c) d = d

-- The database with the new order.
abbrev pub created_db : Env → CreateOrderDto → AuthUser → Owner → Option Client → Db → Db
created_db env dto user o found d =
    let saved = new_order env dto user o (client_for env dto user found) in
    record (clients_with env dto user found d) {
      orders = d.orders ++ stored_order env saved ∷ [];
      order_items = d.order_items ++ stored_items env 3 saved.id user.owner_id dto.items;
      audit_entries = d.audit_entries ++ created_entry env user saved ∷ [];
    }

abbrev pub found_client : CreateOrderDto → AuthUser → Db → Option Client
found_client dto user d = find (is_client_of user.owner_id dto.client_phone) d.clients

abbrev pub owner_of : AuthUser → Db → Option Owner
owner_of user d = find (λ o. o.id == user.owner_id) d.owners

pub record CanCreate (dto : CreateOrderDto) (user : AuthUser) (d : Db) (o : Owner) : Type 0 where
  pub tenant : owner_of user d ≡ some o
  pub free : any (is_numbered user.owner_id dto.order_number) d.orders ≡ false

-- The client's index is free when the query has found none.
no_client :
    (dto : CreateOrderDto) (user : AuthUser) (d : Db)
    → found_client dto user d ≡ none
    → any (is_client_of user.owner_id dto.client_phone) d.clients ≡ false
no_client dto user d e = none-any-find (is_client_of user.owner_id dto.client_phone) d.clients e

-- A second order of a number, for a tenant that is there, is refused and nothing is written or queued;
-- the answer is the 409 with the first one's id only if the transaction still takes a query after the
-- insert that failed, and the error of that query otherwise.
pub create_taken :
    (env : Env) (usable : Bool) (dto : CreateOrderDto) (user : AuthUser) (o : Owner) (w : World)
    → owner_of user w.db ≡ some o
    → any (is_numbered user.owner_id dto.order_number) w.db.orders ≡ true
    → ((create env usable dto user w).1.db ≡ w.db)
      × ((create env usable dto user w).1.jobs ≡ w.jobs)
      × ((create env usable dto user w).0
          ≡ err (
              if usable
              then HttpError.conflict (
                  Message.order_number_taken (
                    id_of_existing (find (is_numbered user.owner_id dto.order_number) w.db.orders)))
              else HttpError.aborted_transaction))
unfolding create create_rows create_found find_or_create_client insert_client reread_client
    insert_order order_number_conflict recover transaction
create_taken env usable dto user o w e t = elim (Option-cases (found_client dto user w.db)) [
  | inl f ↦ let n = no_client dto user w.db f in ground arith
  | inr (c, f) ↦ ground arith
]

-- What `create` answers.
abbrev pub created_response :
    Env → CreateOrderDto → AuthUser → Owner → Option Client → OrderResponse
created_response env dto user o found =
    let c = client_for env dto user found in
    let saved = new_order env dto user o c in
    map_to_order_response saved c (saved_items env 3 saved.id user.owner_id dto.items)

pub record Granted (env : Env) (usable : Bool) (dto : CreateOrderDto) (user : AuthUser) (w : World)
    (o : Owner) : Type 0 where
  pub can : CanCreate dto user w.db o
  pub answered :
      (create env usable dto user w).0
      ≡ ok (created_response env dto user o (found_client dto user w.db))
  pub written :
      (create env usable dto user w).1.db
      ≡ created_db env dto user o (found_client dto user w.db) w.db
  pub queued :
      (create env usable dto user w).1.jobs
      ≡ w.jobs ++ Job.new_order_notify (env.uuid 0) user.owner_id ∷ []

pub record Refused (env : Env) (usable : Bool) (dto : CreateOrderDto) (user : AuthUser) (w : World)
    : Type 0 where
  pub error : HttpError
  pub raised : (create env usable dto user w).0 ≡ err error
  pub same_db : (create env usable dto user w).1.db ≡ w.db
  pub same_jobs : (create env usable dto user w).1.jobs ≡ w.jobs

create-Granted :
    (env : Env) (usable : Bool) (dto : CreateOrderDto) (user : AuthUser) (o : Owner) (w : World)
    → env.queue_ready ≡ true
    → CanCreate dto user w.db o
    → Granted env usable dto user w o
unfolding create create_rows create_found find_or_create_client insert_client reread_client
    insert_order order_number_conflict recover transaction
create-Granted env usable dto user o w q can = elim (Option-cases (found_client dto user w.db)) [
  | inl f ↦
      let n = no_client dto user w.db f in
      record {
        can = can;
        answered = ground (arith, can.tenant, can.free);
        written = ground (arith, can.tenant, can.free);
        queued = ground (arith, can.tenant, can.free);
      }
  | inr (c, f) ↦ record {
    can = can;
    answered = ground (arith, can.tenant, can.free);
    written = ground (arith, can.tenant, can.free);
    queued = ground (arith, can.tenant, can.free);
  }
]

create_unqueued :
    (env : Env) (usable : Bool) (dto : CreateOrderDto) (user : AuthUser) (o : Owner) (w : World)
    → env.queue_ready ≡ false
    → CanCreate dto user w.db o
    → Refused env usable dto user w
unfolding create create_rows create_found find_or_create_client insert_client reread_client
    insert_order order_number_conflict recover transaction
create_unqueued env usable dto user o w q can = elim (Option-cases (found_client dto user w.db)) [
  | inl f ↦
      let n = no_client dto user w.db f in
      record {
        error = HttpError.queue_unavailable;
        raised = ground (arith, can.tenant, can.free);
        same_db = ground (arith, can.tenant, can.free);
        same_jobs = ground (arith, can.tenant, can.free);
      }
  | inr (c, f) ↦ record {
    error = HttpError.queue_unavailable;
    raised = ground (arith, can.tenant, can.free);
    same_db = ground (arith, can.tenant, can.free);
    same_jobs = ground (arith, can.tenant, can.free);
  }
]

create_ownerless :
    (env : Env) (usable : Bool) (dto : CreateOrderDto) (user : AuthUser) (w : World)
    → owner_of user w.db ≡ none
    → Refused env usable dto user w
unfolding create create_rows transaction
create_ownerless env usable dto user w e = record {
  error = HttpError.not_found Message.owner_not_found;
  raised = ground arith;
  same_db = ground arith;
  same_jobs = ground arith;
}

-- `create` answers an error and leaves the database and the queues as they were, or the tenant is
-- there and has no order of that number, and then it answers the new order, adds it with its items,
-- coordinates and prices to the places of their columns, its audit entry and, if the tenant had no
-- client of that phone, the client, changes nothing else in the database, and adds the one job of the
-- order.
pub create-cases :
    (env : Env) (usable : Bool) (dto : CreateOrderDto) (user : AuthUser) (w : World)
    → Refused env usable dto user w ⊎ ((o : Owner) × Granted env usable dto user w o)
create-cases env usable dto user w = elim (Option-cases (owner_of user w.db)) [
  | inl e ↦ inl (create_ownerless env usable dto user w e)
  | inr (o, e) ↦ elim (Bool-cases (any (is_numbered user.owner_id dto.order_number) w.db.orders)) [
    | inl t ↦
        let r = create_taken env usable dto user o w e t in
        inl (record { error = _; raised = r.2; same_db = r.0; same_jobs = r.1 })
    | inr t ↦ elim (Bool-cases env.queue_ready) [
      | inl q ↦ inr (o, create-Granted env usable dto user o w q (record { tenant = e; free = t }))
      | inr q ↦ inl (create_unqueued env usable dto user o w q (record { tenant = e; free = t }))
    ]
  ]
]
