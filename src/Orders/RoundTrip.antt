-- ===== src/Orders/RoundTrip.antt =====
-- src/orders/orders.service.ts: `findOne` after `create`.
use couriers_server_node.Entities.{Owner, Client, AuthUser, Order, AuditAction}
use couriers_server_node.Http.{ok}
use couriers_server_node.Lifecycle.Rules.{is_order}
use couriers_server_node.Orders.Effects.{
  client_for, created_db, found_client, created_response, create-cases,
}
use couriers_server_node.Orders.Queries.{map_to_audit_entry, items_of, entries_of, find_one}
use couriers_server_node.Orders.Responses.{
  OrderItemDto, CreateOrderDto, OrderItemResponse, OrderResponse, map_to_item,
  map_to_order_response,
}
use couriers_server_node.Orders.Service.{
  new_client, new_order, saved_items, stored_items, stored_order, item_rows, created_entry, create,
}
use couriers_server_node.Prelude.{
  ◌==◌, ==_refl, find, any, All, find_concat, filter-append, ℕ, suc, ◌≡◌, refl, ◌∙◌, inl, inr, Bool,
  true, false, Option, none, some, List, ◌∷◌, ◌++◌, map, arith, [],
}
use couriers_server_node.World.{Db, World, Env}

-- The identifiers drawn are new, and the client that was found has its own.
pub record IsFresh (env : Env) (dto : CreateOrderDto) (user : AuthUser) (d : Db) : Type 0 where
  pub order : any (λ o. o.id == env.uuid 0) d.orders ≡ false
  pub items : any (λ i. i.order_id == env.uuid 0) d.order_items ≡ false
  pub entries : any (λ e. e.order_id == env.uuid 0) d.audit_entries ≡ false
  pub client : any (λ c. c.id == env.uuid 1) d.clients ≡ false
  pub keyed :
      (c : Client) → found_client dto user d ≡ some c → find (λ x. x.id == c.id) d.clients ≡ some c

-- An answer to the places of the columns.
abbrev rounded_item : Env → OrderItemResponse → OrderItemResponse
rounded_item env i = record i { price = env.round_price i.price }

abbrev pub rounded : Env → OrderResponse → OrderResponse
rounded env r = record r {
  pickup_lat = env.round_coordinate r.pickup_lat;
  pickup_lng = env.round_coordinate r.pickup_lng;
  dropoff_lat = env.round_coordinate r.dropoff_lat;
  dropoff_lng = env.round_coordinate r.dropoff_lng;
  items = map (rounded_item env) r.items;
}

stored_items-rounded :
    (env : Env) (n order owner : ℕ) (items : List OrderItemDto)
    → map map_to_item (stored_items env n order owner items)
      ≡ map (rounded_item env) (map map_to_item (saved_items env n order owner items))
unfolding item_rows map_to_item
stored_items-rounded env n order owner [] = refl
stored_items-rounded env n order owner (i ∷ is) =
    rw (stored_items-rounded env (suc n) order owner is) refl

stored-rounded :
    (env : Env) (dto : CreateOrderDto) (user : AuthUser) (o : Owner) (found : Option Client)
    → let c = client_for env dto user found in
      map_to_order_response
        (stored_order env (new_order env dto user o c))
        c
        (stored_items env 3 (env.uuid 0) user.owner_id dto.items)
      ≡ rounded env (created_response env dto user o found)
unfolding map_to_order_response
stored-rounded env dto user o found =
    rw (stored_items-rounded env 3 (env.uuid 0) user.owner_id dto.items) refl

item_rows-of :
    (env : Env) (price : ℕ → ℕ) (n order owner : ℕ) (items : List OrderItemDto)
    → All (λ i. (i.order_id == order) ≡ true) (item_rows env price n order owner items)
unfolding item_rows
item_rows-of env price n order owner [] = tt
item_rows-of env price n order owner (i ∷ is) =
    (==_refl order, item_rows-of env price (suc n) order owner is)

created-client :
    (env : Env) (dto : CreateOrderDto) (user : AuthUser) (o : Owner) (d : Db)
    (found : Option Client)
    → IsFresh env dto user d
    → found_client dto user d ≡ found
    → find
        (λ c. c.id == (client_for env dto user found).id)
        (created_db env dto user o found d).clients
      ≡ some (client_for env dto user found)
created-client env dto user o d none f e =
    find_concat (λ c. c.id == env.uuid 1) d.clients (new_client env dto user) f.client
      (==_refl (env.uuid 1))
created-client env dto user o d (some c) f e = f.keyed c e

no_order :
    (id owner : ℕ) (os : List Order)
    → any (λ o. o.id == id) os ≡ false
    → any (is_order id owner) os ≡ false
unfolding any
no_order id owner [] e = refl
no_order id owner (o ∷ os) e = ground (arith, no_order id owner os)

created-order :
    (env : Env) (dto : CreateOrderDto) (user : AuthUser) (o : Owner) (d : Db) (c : Client)
    → IsFresh env dto user d
    → find
        (is_order (env.uuid 0) user.owner_id)
        (d.orders ++ stored_order env (new_order env dto user o c) ∷ [])
      ≡ some (stored_order env (new_order env dto user o c))
created-order env dto user o d c f =
    find_concat (is_order (env.uuid 0) user.owner_id) d.orders
      (stored_order env (new_order env dto user o c))
      (no_order (env.uuid 0) user.owner_id d.orders f.order)
      (ground (arith, ==_refl (env.uuid 0), ==_refl user.owner_id))

find_one_of :
    (id owner : ℕ) (w : World) (o : Order) (c : Client)
    → find (is_order id owner) w.db.orders ≡ some o
    → find (λ x. x.id == o.client_id) w.db.clients ≡ some c
    → (find_one id owner w).0
      ≡ ok (record {
        order = map_to_order_response o c (items_of o.id w.db);
        audit_entries = map map_to_audit_entry (entries_of o.id w.db);
      })
unfolding find_one
find_one_of id owner w o c e f = ground arith

read_back :
    (env : Env) (dto : CreateOrderDto) (user : AuthUser) (o : Owner) (d : Db)
    (found : Option Client) (w : World)
    → w.db ≡ created_db env dto user o found d
    → IsFresh env dto user d
    → found_client dto user d ≡ found
    → (find_one (env.uuid 0) user.owner_id w).0
      ≡ ok (record {
        order = rounded env (created_response env dto user o found);
        audit_entries =
            map_to_audit_entry
              (created_entry env user (new_order env dto user o (client_for env dto user found)))
            ∷ [];
      })
read_back env dto user o d found w e f h =
    let c = client_for env dto user found in
    let saved = stored_order env (new_order env dto user o c) in
    let rows = stored_items env 3 saved.id user.owner_id dto.items in
    find_one_of (env.uuid 0) user.owner_id w saved c (rw e (created-order env dto user o d c f))
      (rw e (created-client env dto user o d found f h))
    ∙ rw
        (
          e,
          filter-append (λ i. i.order_id == env.uuid 0) d.order_items rows f.items
              (item_rows-of env env.round_price 3 saved.id user.owner_id dto.items),
          filter-append (λ a. a.order_id == env.uuid 0) d.audit_entries
              (created_entry env user saved ∷ []) f.entries (==_refl (env.uuid 0), tt),
          stored-rounded env dto user o found,
        )
        refl

-- An order that `create` has answered is what `findOne` then answers for its id within the tenant,
-- its items and its client included, save that coordinates and prices are rounded to the places of
-- their columns, with one audit entry, of its creation by the user; the identifiers that the database
-- drew were new.
pub find_one-create :
    (env : Env) (usable : Bool) (dto : CreateOrderDto) (user : AuthUser) (w : World)
    (r : OrderResponse)
    → IsFresh env dto user w.db
    → (create env usable dto user w).0 ≡ ok r
    → (find_one r.id user.owner_id (create env usable dto user w).1).0
      ≡ ok (record {
        order = rounded env r;
        audit_entries =
            (record {
              id = env.uuid 2;
              action = AuditAction.order_created;
              actor_id = user.user_id;
              actor_role = user.role;
              created_at = env.db_now;
            })
            ∷ [];
      })
unfolding map_to_audit_entry map_to_order_response
find_one-create env usable dto user w r f s = elim (create-cases env usable dto user w) [
  | inl g ↦ absurd (ground (arith, g.raised))
  | inr (o, g) ↦
      let e : r ≡ created_response env dto user o (found_client dto user w.db) =
        ground (arith, g.answered) in
      rw e (
        read_back env dto user o w.db (found_client dto user w.db) (create env usable dto user w).1
          g.written f refl)
]
