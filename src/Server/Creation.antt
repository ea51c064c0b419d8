-- ===== src/Server/Creation.antt =====
-- src/orders/orders.service.ts: the tables of orders after `create`.
use couriers_server_node.Entities.{Owner, Client, AuthUser, Order, OrderAuditEntry, created}
use couriers_server_node.Lifecycle.Keys.{Distinct}
use couriers_server_node.Lifecycle.OneActive.{OneActive}
use couriers_server_node.Lifecycle.Rules.{is_active_order}
use couriers_server_node.Lifecycle.Settlement.{earnings_of, deliveries_of, IsSettled, Settled}
use couriers_server_node.Lifecycle.Trail.{
  told_by, replay, Chained, IsTold, replay-concat, Chained-concat, AllTold,
}
use couriers_server_node.Lifecycle.WellFormed.{Shape, IsWellFormed, AllWellFormed}
use couriers_server_node.Orders.Effects.{client_for, created_db, found_client, create-cases}
use couriers_server_node.Orders.Responses.{CreateOrderDto}
use couriers_server_node.Orders.Service.{new_order, stored_order, created_entry, create}
use couriers_server_node.Orders.Unique.{created-phones, created-numbers}
use couriers_server_node.Prelude.{
  All, All-mono, All-concat, count_none, count_concat, ℕ, ◌≡◌, refl, sym, subst, ◌∙◌, ◌≢◌, inl, inr,
  Bool, false, Option, none, some, List, ◌∷◌, ◌++◌, arith, [],
}
use couriers_server_node.Server.Healthy.{IsHealthy, IsSound-same}
use couriers_server_node.World.{Db, World, Env}

-- An identifier under which nothing about an order is stored.
pub record IsNew (id : ℕ) (d : Db) : Type 0 where
  pub no_order : All (λ (x : Order). x.id ≢ id) d.orders
  pub no_entry : All (λ (e : OrderAuditEntry). e.order_id ≢ id) d.audit_entries
  pub no_delivery : All (λ r. deliveries_of id r ≡ false) d.delivery_records
  pub no_earning : All (λ e. earnings_of id e ≡ false) d.courier_earnings

Distinct-concat :
    (o : Order) (os : List Order)
    → All (λ (x : Order). x.id ≢ o.id) os
    → Distinct os
    → Distinct (os ++ o ∷ [])
Distinct-concat o [] n h = (tt, tt)
Distinct-concat o (x ∷ xs) n h =
    (All-concat (λ (y : Order). x.id ≢ y.id) xs h.0 n.0, Distinct-concat o xs n.1 h.1)

-- An entry without a transition says nothing of a status.
quiet-IsTold :
    (es : List OrderAuditEntry) (e : OrderAuditEntry) (x : Order)
    → e.metadata ≡ none
    → IsTold es x
    → IsTold (es ++ e ∷ []) x
quiet-IsTold es e x q h = record {
  chained = Chained-concat x.id created es e h.chained (λ c _ m. absurd (cc));
  ends = rw (replay-concat x.id created es e) (ground (arith, h.ends));
}

new-IsTold :
    (es : List OrderAuditEntry) (id : ℕ)
    → All (λ (e : OrderAuditEntry). e.order_id ≢ id) es
    → Chained id created es × (replay id created es ≡ created)
unfolding replay
new-IsTold [] id n = (tt, refl)
new-IsTold (e ∷ es) id n =
    let (c, r) = new-IsTold es id n.1 in
    let same : told_by id created e ≡ created = ground (arith, n.0) in
    ((λ t q m. absurd (n.0 q), rw same c), rw same r)

-- The tables after an order is created.
record IsCreated (o : Order) (e : OrderAuditEntry) (d d' : Db) : Type 0 where
  orders : d'.orders ≡ d.orders ++ o ∷ []
  entries : d'.audit_entries ≡ d.audit_entries ++ e ∷ []
  deliveries : d'.delivery_records ≡ d.delivery_records
  earnings : d'.courier_earnings ≡ d.courier_earnings
  staff_users : d'.staff_users ≡ d.staff_users
  shifts : d'.shifts ≡ d.shifts
  couriers : d'.couriers ≡ d.couriers
  positions : d'.positions ≡ d.positions
  periods : d'.payout_periods ≡ d.payout_periods
  payouts : d'.payouts ≡ d.payouts

abbrev saved_order : Env → CreateOrderDto → AuthUser → Owner → Option Client → Order
saved_order env dto user owner found =
    stored_order env (new_order env dto user owner (client_for env dto user found))

created_db-IsCreated :
    (env : Env) (dto : CreateOrderDto) (user : AuthUser) (owner : Owner) (found : Option Client)
    (d : Db)
    → let o = saved_order env dto user owner found in
      IsCreated o (created_entry env user o) d (created_db env dto user owner found d)
created_db-IsCreated env dto user owner none d = ground arith
created_db-IsCreated env dto user owner (some c) d = ground arith

-- An order that has just been created.
record IsFirst (o : Order) : Type 0 where
  is_created : o.status ≡ created
  shape : Shape created o

saved-IsFirst :
    (env : Env) (dto : CreateOrderDto) (user : AuthUser) (owner : Owner) (found : Option Client)
    → IsFirst (saved_order env dto user owner found)
saved-IsFirst env dto user owner found = record {
  is_created = refl;
  shape = (refl, refl, refl, refl, refl, refl);
}

module _ (o : Order) (e : OrderAuditEntry) (d d' : Db) (made : IsCreated o e d d')
    (first : IsFirst o) (new : IsNew o.id d) where
  created-Distinct : Distinct d.orders → Distinct d'.orders
  created-Distinct u = rw (made.orders) (Distinct-concat o d.orders new.no_order u)

  created-IsSettled : IsSettled d.courier_earnings d.delivery_records o
  created-IsSettled = record {
    earned =
        rw (first.is_created) (count_none (earnings_of o.id) d.courier_earnings new.no_earning);
    delivered =
        rw (first.is_created) (count_none (deliveries_of o.id) d.delivery_records new.no_delivery);
    paid = λ c. absurd (let s = first.is_created in cc);
  }

  created-Settled : Settled d → Settled d'
  created-Settled h = (
    created-Distinct h.0,
    rw (made.orders, made.earnings, made.deliveries)
        (All-concat (IsSettled d.courier_earnings d.delivery_records) d.orders h.1
          created-IsSettled),
  )

  created-AllWellFormed : AllWellFormed d → AllWellFormed d'
  created-AllWellFormed h = (
    created-Distinct h.0,
    rw (made.orders) (
        All-concat IsWellFormed d.orders h.1
          (subst (λ s. Shape s o) (sym first.is_created) first.shape)),
  )

  created-AllTold : e.metadata ≡ none → AllTold d → AllTold d'
  created-AllTold q h = (
    created-Distinct h.0,
    rw (made.orders, made.entries)
        (All-concat (IsTold (d.audit_entries ++ e ∷ [])) d.orders
          (All-mono _ _ (λ x t. quiet-IsTold d.audit_entries e x q t) d.orders h.1)
          (let (c, r) = new-IsTold d.audit_entries o.id new.no_entry in
            quiet-IsTold d.audit_entries e o q
              (record { chained = c; ends = r ∙ sym first.is_created }))),
  )

  created-OneActive : OneActive d → OneActive d'
  created-OneActive h = (
    created-Distinct h.0,
    λ courier owner.
        let idle : is_active_order courier owner o ≡ false = rw (first.shape.0) refl in
        rw (made.orders, count_concat (is_active_order courier owner) d.orders o, idle)
          (h.1 courier owner),
  )

-- What `create` does, if the identifier that it drew is new.
pub create-IsHealthy :
    (env : Env) (usable : Bool) (dto : CreateOrderDto) (user : AuthUser) (w : World)
    → IsNew (env.uuid 0) w.db
    → IsHealthy w.db
    → IsHealthy (create env usable dto user w).1.db
create-IsHealthy env usable dto user w new h = elim (create-cases env usable dto user w) [
  | inl r ↦ subst IsHealthy (sym r.same_db) h
  | inr (owner, g) ↦
      let found = found_client dto user w.db in
      let o = saved_order env dto user owner found in
      let d' = created_db env dto user owner found w.db in
      let made = created_db-IsCreated env dto user owner found w.db in
      let first = saved-IsFirst env dto user owner found in
      let e = created_entry env user o in
      let t = h.on_orders in
      subst IsHealthy (sym g.written) (record {
        on_orders = record {
          settled = created-Settled o e w.db d' made first new t.settled;
          formed = created-AllWellFormed o e w.db d' made first new t.formed;
          told = created-AllTold o e w.db d' made first new refl t.told;
          one_active = created-OneActive o e w.db d' made first new t.one_active;
          unique = record {
            numbers = created-numbers env dto user owner w.db found g.can.free t.unique;
            phones = created-phones env dto user owner w.db found refl t.unique;
          };
        };
        sound =
            IsSound-same w.db d' (record { periods = made.periods; payouts = made.payouts })
              h.sound;
        on_staff = rw (made.staff_users) (h.on_staff);
        on_shifts = rw (made.shifts) (h.on_shifts);
        on_couriers = rw (made.couriers) (h.on_couriers);
        located = rw (made.positions) (h.located);
      })
]
