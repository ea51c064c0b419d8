-- ===== src/Lifecycle/SettledRuns.antt =====
-- The money of deliveries under whole requests (src/orders/order-lifecycle.service.ts).
use couriers_server_node.Entities.{
  AuthUser, OrderStatus, same_status, Order, completed, created, assigned, cancelled,
}
use couriers_server_node.Lifecycle.AdvanceEffect.{advanced_rows, advanced_db}
use couriers_server_node.Lifecycle.Diagram.{set_status-status}
use couriers_server_node.Lifecycle.Effects.{claimed_orders, audited_only}
use couriers_server_node.Lifecycle.Requests.{
  Request, Call, run, Effect, run_induction, claims, advances, cancels,
}
use couriers_server_node.Lifecycle.Rows.{write, Met, Effect-All, Effect-Distinct}
use couriers_server_node.Lifecycle.Rules.{is_cancellable, set_cancelled}
use couriers_server_node.Lifecycle.Settlement.{
  completions, IsSettled, Settled, completion-Settled, write-IsSettled,
}
use couriers_server_node.Prelude.{
  update, All, ℕ, ◌≡◌, refl, sym, ap, subst, ◌∙◌, inl, inr, false, none, List, arith,
}
use couriers_server_node.World.{Db, World, Env}

-- The tables of money are those of before.
pub record SameMoney (d d' : Db) : Type 0 where
  pub earnings : d'.courier_earnings ≡ d.courier_earnings
  pub deliveries : d'.delivery_records ≡ d.delivery_records

quiet-Settled :
    (env : Env) (user : AuthUser) (r : Request) (d d' : Db)
    → ((x : Order) → Met user r x → completions (write env user r x).status ≡ 0)
    → SameMoney d d'
    → Effect env user r d d'
    → Settled d
    → All (IsSettled d'.courier_earnings d'.delivery_records) d'.orders
quiet-Settled env user r d d' quiet money h (u, s) =
    rw (money.earnings, money.deliveries)
      (Effect-All (IsSettled d.courier_earnings d.delivery_records) env user r d d'
        (λ x m old. write-IsSettled _ _ env user r x (quiet x m) m old) h u s)

pub advanced-money :
    (env : Env) (id : ℕ) (t : OrderStatus) (user : AuthUser) (o : Order) (d : Db)
    → same_status t completed ≡ false
    → SameMoney d (advanced_db env id t user o d)
advanced-money env id t user o d n =
    let a =
      audited_only env id user (record { from = o.status; to = t; reason = none })
        (advanced_rows env id t user o d) in
    record { earnings = a.earnings ∙ ground arith; deliveries = a.deliveries ∙ ground arith }

pub moved-SameMoney : (d d' e : Db) → d' ≡ e → SameMoney d e → SameMoney d d'
moved-SameMoney d d' e p m = subst (SameMoney d) (sym p) m

Settled-money :
    (env : Env) (user : AuthUser) (r : Request) (d d' : Db)
    → Effect env user r d d'
    → Settled d
    → All (IsSettled d'.courier_earnings d'.delivery_records) d'.orders
Settled-money env user (claims id) d d' h s =
    quiet-Settled env user (claims id) d d' (λ x m. refl)
      (elim h [
        | inl e ↦ ground arith
        | inr (can, e) ↦ ground (
          arith,
          audited_only env id user (record { from = created; to = assigned; reason = none })
              (claimed_orders env id user d),
        )
      ])
      h s
Settled-money env user (cancels id reason) d d' h s =
    quiet-Settled env user (cancels id reason) d d' (λ x m. refl)
      (elim h [
        | inl e ↦ ground arith
        | inr (o, can, e) ↦ ground (
          arith,
          audited_only env id user (record { from = o.status; to = cancelled; reason = reason })
              (record d {
                orders = update (is_cancellable id user.owner_id) (set_cancelled env) d.orders;
              }),
        )
      ])
      h s
Settled-money env user (advances id t) d d' (inl e) s =
    subst (λ x. All (IsSettled x.courier_earnings x.delivery_records) x.orders) (sym e) s.1
Settled-money env user (advances id completed) d d' (inr (o, can, free, e)) s =
    subst (λ x. All (IsSettled x.courier_earnings x.delivery_records) x.orders) (sym e)
      (let a =
          audited_only env id user (record { from = o.status; to = completed; reason = none })
            (advanced_rows env id completed user o d) in
        rw (a.orders, a.earnings, a.deliveries)
          (completion-Settled env id user d o can (free refl) s))
Settled-money env user (advances id t) d d' (inr (o, can, free, e)) s =
    quiet-Settled env user (advances id t) d d' (λ x m. ap completions (set_status-status env t x))
      (moved-SameMoney d d' _ e (advanced-money env id t user o d refl)) (inr (o, can, free, e)) s

pub Effect-Settled :
    (env : Env) (user : AuthUser) (r : Request) (d d' : Db)
    → Effect env user r d d'
    → Settled d
    → Settled d'
Effect-Settled env user r d d' h s =
    (Effect-Distinct env user r d d' h s.0, Settled-money env user r d d' h s)

-- After any sequence of requests every completed order has exactly one delivery record and exactly
-- one earning, of its fee, for its courier, within its tenant, and every other order has none, if
-- that was so before.
pub run-Settled : (calls : List Call) (w : World) → Settled w.db → Settled (run calls w).db
run-Settled calls w h = run_induction Settled Effect-Settled calls w h
