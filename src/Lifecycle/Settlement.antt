-- ===== src/Lifecycle/Settlement.antt =====
-- The money of a delivery: its record and its earning, and what the writes of single orders do to them
-- (src/orders/order-lifecycle.service.ts).
use couriers_server_node.Entities.{
  AuthUser, OrderStatus, Order, DeliveryRecord, CourierEarning, completed,
}
use couriers_server_node.Lifecycle.AdvanceEffect.{IsUnpaid, CanAdvance}
use couriers_server_node.Lifecycle.Diagram.{set_status-SameOrder, not_final}
use couriers_server_node.Lifecycle.Effects.{load_key}
use couriers_server_node.Lifecycle.Handlers.{delivery_record, courier_earning}
use couriers_server_node.Lifecycle.Keys.{Distinct, same_key}
use couriers_server_node.Lifecycle.Requests.{Request, claims, advances, cancels}
use couriers_server_node.Lifecycle.Rows.{write, Met}
use couriers_server_node.Lifecycle.Rules.{is_final, is_order, set_status}
use couriers_server_node.Prelude.{
  ◌==◌, ==_refl, holds, Bool-cases, count, update, All, All-mono, All-concat, find_holds, any-count,
  any_none, count_concat, All-update_to, ℕ, ◌≡◌, refl, sym, subst, ◌∙◌, inl, inr, Bool, true, false,
  List, ◌∷◌, ◌++◌, arith, [],
}
use couriers_server_node.World.{Db, Env}

abbrev pub completions : OrderStatus → ℕ
completions completed = 1
completions _ = 0

-- The earning pays the order's courier the order's fee, within its tenant.
abbrev pub Pays : Order → CourierEarning → Type 0
Pays o e =
    e.order_id ≡ o.id
    → (e.amount ≡ o.delivery_fee)
      × (e.owner_id ≡ o.owner_id)
      × (holds o.courier_id e.courier_id ≡ true)

abbrev pub earnings_of : ℕ → CourierEarning → Bool
earnings_of id e = e.order_id == id

abbrev pub deliveries_of : ℕ → DeliveryRecord → Bool
deliveries_of id r = r.order_id == id

pub record IsSettled (es : List CourierEarning) (rs : List DeliveryRecord) (o : Order)
    : Type 0 where
  pub earned : count (earnings_of o.id) es ≡ completions o.status
  pub delivered : count (deliveries_of o.id) rs ≡ completions o.status
  pub paid : o.status ≡ completed → All (Pays o) es

abbrev pub Settled : Db → Type 0
Settled d = Distinct d.orders × All (IsSettled d.courier_earnings d.delivery_records) d.orders

-- A write that neither completes an order nor meets a completed one.
kept :
    (es : List CourierEarning) (rs : List DeliveryRecord) (x y : Order)
    → y.id ≡ x.id
    → completions x.status ≡ 0
    → completions y.status ≡ 0
    → IsSettled es rs x
    → IsSettled es rs y
kept es rs x y i cx cy h = record {
  earned = rw (i, cy) (h.earned ∙ cx);
  delivered = rw (i, cy) (h.delivered ∙ cx);
  paid = λ e. absurd (ground arith);
}

-- The rows that a completion adds say nothing of another order.
others :
    (es : List CourierEarning) (rs : List DeliveryRecord) (e : CourierEarning) (r : DeliveryRecord)
    (x : Order)
    → (e.order_id == x.id) ≡ false
    → (r.order_id == x.id) ≡ false
    → IsSettled es rs x
    → IsSettled (es ++ e ∷ []) (rs ++ r ∷ []) x
others es rs e r x ne nr h = record {
  earned = rw (count_concat (earnings_of x.id) es e, ne) (h.earned);
  delivered = rw (count_concat (deliveries_of x.id) rs r, nr) (h.delivered);
  paid = λ c. All-concat (Pays x) es (h.paid c) (λ q. absurd (ground arith));
}

-- The rows that a completion adds settle the order.
completes :
    (env : Env) (id : ℕ) (user : AuthUser) (d : Db) (o : Order)
    → CanAdvance d id completed user o
    → IsUnpaid d id
    → IsSettled
        (d.courier_earnings ++ courier_earning env id user o ∷ [])
        (d.delivery_records ++ delivery_record env id user o ∷ [])
        (set_status env completed o)
completes env id user d o can free =
    let key = load_key d id user.owner_id o can.loaded in
    let es = d.courier_earnings in
    let rs = d.delivery_records in
    record {
      earned =
          rw
            (
              count_concat (earnings_of o.id) es (courier_earning env id user o),
              key.0,
              ==_refl id,
              any-count (earnings_of id) es free.unearned,
            )
            refl;
      delivered =
          rw
            (
              count_concat (deliveries_of o.id) rs (delivery_record env id user o),
              key.0,
              ==_refl id,
              any-count (deliveries_of id) rs free.undelivered,
            )
            refl;
      paid = λ _.
          All-concat (Pays (set_status env completed o)) es
            (All-mono _ _ (λ e n q. absurd (ground arith)) es
              (any_none (earnings_of id) es free.unearned))
            (λ _. ground (arith, key));
    }

-- A completion settles the order that it meets and leaves the others settled.
pub completion-Settled :
    (env : Env) (id : ℕ) (user : AuthUser) (d : Db) (o : Order)
    → CanAdvance d id completed user o
    → IsUnpaid d id
    → Settled d
    → All
        (IsSettled
          (d.courier_earnings ++ courier_earning env id user o ∷ [])
          (d.delivery_records ++ delivery_record env id user o ∷ []))
        (update (is_order id user.owner_id) (set_status env completed) d.orders)
completion-Settled env id user d o can free (u, h) =
    All-update_to _ _ (is_order id user.owner_id) (set_status env completed) d.orders
      (All-mono _ _ row d.orders (same_key id user.owner_id d.orders o u can.loaded)) h
  where
    new : Order → Type 0
    new =
        IsSettled (d.courier_earnings ++ courier_earning env id user o ∷ [])
          (d.delivery_records ++ delivery_record env id user o ∷ [])

    met : (x : Order) → x ≡ o → new (set_status env completed x)
    met x e =
        subst (λ y. new (set_status env completed y)) (sym e) (completes env id user d o can free)

    row :
        (x : Order)
        → (x.id ≡ id → x ≡ o)
        → IsSettled d.courier_earnings d.delivery_records x
        → (is_order id user.owner_id x ≡ true → new (set_status env completed x))
          × (is_order id user.owner_id x ≡ false → new x)
    row x same old = (
      λ p. met x (same (ground arith)),
      λ n. elim (Bool-cases (id == x.id)) [
        | inl q ↦ absurd (
            ground (
              arith,
              same (ground arith),
              find_holds (is_order id user.owner_id) d.orders o can.loaded,
            ))
        | inr q ↦ others d.courier_earnings d.delivery_records _ _ x q q old
      ],
    )

not_completed : (s : OrderStatus) → is_final s ≡ false → completions s ≡ 0
not_completed s e = ground arith

-- The other requests write no money, and complete nothing.
pub write-IsSettled :
    (es : List CourierEarning) (rs : List DeliveryRecord) (env : Env) (user : AuthUser)
    (r : Request) (x : Order)
    → completions (write env user r x).status ≡ 0
    → Met user r x
    → IsSettled es rs x
    → IsSettled es rs (write env user r x)
write-IsSettled es rs env user (claims id) x z m h = kept es rs x _ refl (ground arith) z h
write-IsSettled es rs env user (advances id t) x z m h =
    kept es rs x _ (set_status-SameOrder env t x).same_id
      (not_completed x.status (not_final x.status t m.2)) z h
write-IsSettled es rs env user (cancels id reason) x z m h =
    kept es rs x _ refl (not_completed x.status m.2) z h
