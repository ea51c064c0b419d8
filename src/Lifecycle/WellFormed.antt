-- ===== src/Lifecycle/WellFormed.antt =====
-- The columns of an order for each status: who holds it, and which times are set
-- (src/orders/order-lifecycle.service.ts).
use couriers_server_node.Entities.{
  AuthUser, OrderStatus, Order, created, assigned, picked_up, in_delivery, completed, cancelled,
}
use couriers_server_node.Lifecycle.Diagram.{set_status-status}
use couriers_server_node.Lifecycle.Keys.{Distinct}
use couriers_server_node.Lifecycle.Requests.{
  Request, Call, run, Effect, run_induction, claims, advances, cancels,
}
use couriers_server_node.Lifecycle.Rows.{write, Met, Effect-All, Effect-Distinct}
use couriers_server_node.Lifecycle.Rules.{
  courier_transitions, leads_to, is_final, set_claimed, set_status, set_cancelled,
}
use couriers_server_node.Prelude.{is_some, All, ◌≡◌, sym, subst, true, false, none, List, arith}
use couriers_server_node.World.{Db, World, Env}

-- For each status, whether the courier and the five times are there.
abbrev pub Shape : OrderStatus → Order → Type 0
Shape created o =
    (o.courier_id ≡ none)
    × (o.assigned_at ≡ none)
    × (o.picked_up_at ≡ none)
    × (o.in_delivery_at ≡ none)
    × (o.completed_at ≡ none)
    × (o.cancelled_at ≡ none)
Shape assigned o =
    (is_some o.courier_id ≡ true)
    × (is_some o.assigned_at ≡ true)
    × (o.picked_up_at ≡ none)
    × (o.in_delivery_at ≡ none)
    × (o.completed_at ≡ none)
    × (o.cancelled_at ≡ none)
Shape picked_up o =
    (is_some o.courier_id ≡ true)
    × (is_some o.assigned_at ≡ true)
    × (is_some o.picked_up_at ≡ true)
    × (o.in_delivery_at ≡ none)
    × (o.completed_at ≡ none)
    × (o.cancelled_at ≡ none)
Shape in_delivery o =
    (is_some o.courier_id ≡ true)
    × (is_some o.assigned_at ≡ true)
    × (is_some o.picked_up_at ≡ true)
    × (is_some o.in_delivery_at ≡ true)
    × (o.completed_at ≡ none)
    × (o.cancelled_at ≡ none)
Shape completed o =
    (is_some o.courier_id ≡ true)
    × (is_some o.assigned_at ≡ true)
    × (is_some o.picked_up_at ≡ true)
    × (is_some o.in_delivery_at ≡ true)
    × (is_some o.completed_at ≡ true)
    × (o.cancelled_at ≡ none)
Shape cancelled o =
    (o.courier_id ≡ none) × (o.completed_at ≡ none) × (is_some o.cancelled_at ≡ true)

abbrev pub IsWellFormed : Order → Type 0
IsWellFormed o = Shape o.status o

claimed-IsWellFormed :
    (env : Env) (user : AuthUser) (o : Order)
    → o.status ≡ created
    → IsWellFormed o
    → IsWellFormed (set_claimed env user o)
claimed-IsWellFormed env user o e h = ground arith

cancelled-IsWellFormed :
    (env : Env) (o : Order)
    → is_final o.status ≡ false
    → IsWellFormed o
    → IsWellFormed (set_cancelled env o)
cancelled-IsWellFormed env o e h = ground arith

advanced-Shape :
    (env : Env) (s t : OrderStatus) (o : Order)
    → leads_to (courier_transitions s) t ≡ true
    → Shape s o
    → Shape t (set_status env t o)
advanced-Shape env created t o e h = absurd (cc)
advanced-Shape env assigned picked_up o e h = ground arith
advanced-Shape env assigned _ o e h = absurd (ground arith)
advanced-Shape env picked_up in_delivery o e h = ground arith
advanced-Shape env picked_up _ o e h = absurd (ground arith)
advanced-Shape env in_delivery completed o e h = ground arith
advanced-Shape env in_delivery _ o e h = absurd (ground arith)
advanced-Shape env completed t o e h = absurd (cc)
advanced-Shape env cancelled t o e h = absurd (cc)

write-IsWellFormed :
    (env : Env) (user : AuthUser) (r : Request) (o : Order)
    → Met user r o
    → IsWellFormed o
    → IsWellFormed (write env user r o)
write-IsWellFormed env user (claims id) o m h = claimed-IsWellFormed env user o m.2 h
write-IsWellFormed env user (advances id t) o m h =
    subst (λ s. Shape s (set_status env t o)) (sym (set_status-status env t o))
      (advanced-Shape env o.status t o m.2 h)
write-IsWellFormed env user (cancels id reason) o m h = cancelled-IsWellFormed env o m.2 h

abbrev pub AllWellFormed : Db → Type 0
AllWellFormed d = Distinct d.orders × All IsWellFormed d.orders

pub Effect-AllWellFormed :
    (env : Env) (user : AuthUser) (r : Request) (d d' : Db)
    → Effect env user r d d'
    → AllWellFormed d
    → AllWellFormed d'
Effect-AllWellFormed env user r d d' h p = (
  Effect-Distinct env user r d d' h p.0,
  Effect-All IsWellFormed env user r d d' (write-IsWellFormed env user r) h p.0 p.1,
)

-- After any sequence of requests, granted or refused, the keys of the orders are distinct and the
-- courier and the times of every order are those of its status, if they were before.
pub run-AllWellFormed :
    (calls : List Call) (w : World) → AllWellFormed w.db → AllWellFormed (run calls w).db
run-AllWellFormed calls w h = run_induction AllWellFormed Effect-AllWellFormed calls w h
