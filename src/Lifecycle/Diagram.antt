-- ===== src/Lifecycle/Diagram.antt =====
-- src/orders/order-lifecycle.service.ts: the diagram of statuses, and the requests against it.
use couriers_server_node.Entities.{
  AuthUser, OrderStatus, Order, created, assigned, picked_up, in_delivery, completed, cancelled,
}
use couriers_server_node.Lifecycle.Keys.{Distinct}
use couriers_server_node.Lifecycle.Requests.{
  Request, handle, Call, run, handle-Effect, run_induction, claims, advances, cancels,
}
use couriers_server_node.Lifecycle.Rows.{write, Met, Effect-Pointwise, Effect-Distinct}
use couriers_server_node.Lifecycle.Rules.{courier_transitions, leads_to, is_final, set_status}
use couriers_server_node.Prelude.{
  Pointwise, Pointwise-refl, Pointwise-trans, ◌≡◌, refl, sym, subst, ◌∙◌, ◌⊎◌, inl, inr, true,
  false, List, arith,
}
use couriers_server_node.World.{World, Env}

pub data Edge : OrderStatus → OrderStatus → Type 0 where
  taken : Edge created assigned
  picked : Edge assigned picked_up
  started : Edge picked_up in_delivery
  finished : Edge in_delivery completed
  dropped : {s : OrderStatus} → is_final s ≡ false → Edge s cancelled

ruleset edges = (taken, picked, started, finished, dropped)

-- What never changes of an order.
pub record SameOrder (o o' : Order) : Type 0 where
  pub same_id : o'.id ≡ o.id
  pub same_owner : o'.owner_id ≡ o.owner_id
  pub same_number : o'.order_number ≡ o.order_number
  pub same_fee : o'.delivery_fee ≡ o.delivery_fee
  pub same_callback : o'.callback_url ≡ o.callback_url

abbrev pub Moves : Order → Order → Type 0
Moves o o' = (o' ≡ o) ⊎ (Edge o.status o'.status × SameOrder o o')

pub courier-Edge : (s t : OrderStatus) → leads_to (courier_transitions s) t ≡ true → Edge s t
courier-Edge created t e = absurd (cc)
courier-Edge assigned picked_up e = picked
courier-Edge assigned _ e = absurd (ground arith)
courier-Edge picked_up in_delivery e = started
courier-Edge picked_up _ e = absurd (ground arith)
courier-Edge in_delivery completed e = finished
courier-Edge in_delivery _ e = absurd (ground arith)
courier-Edge completed t e = absurd (cc)
courier-Edge cancelled t e = absurd (cc)

pub set_status-SameOrder :
    (env : Env) (t : OrderStatus) (o : Order) → SameOrder o (set_status env t o)
set_status-SameOrder env created o = ground arith
set_status-SameOrder env _ o = ground arith

pub set_status-status : (env : Env) (t : OrderStatus) (o : Order) → (set_status env t o).status ≡ t
set_status-status env created o = refl
set_status-status env _ o = refl

pub set_status-courier :
    (env : Env) (t : OrderStatus) (o : Order) → (set_status env t o).courier_id ≡ o.courier_id
set_status-courier env created o = refl
set_status-courier env _ o = refl

pub not_final : (s t : OrderStatus) → leads_to (courier_transitions s) t ≡ true → is_final s ≡ false
not_final s t e = ground arith

advanced_row :
    (env : Env) (t : OrderStatus) (o : Order)
    → leads_to (courier_transitions o.status) t ≡ true
    → Moves o (set_status env t o)
advanced_row env t o e = inr (
  subst (λ s. Edge o.status s) (sym (set_status-status env t o)) (courier-Edge o.status t e),
  set_status-SameOrder env t o,
)

write-Moves :
    (env : Env) (user : AuthUser) (r : Request) (x : Order)
    → Met user r x
    → Moves x (write env user r x)
write-Moves env user (claims id) x m =
    inr (subst (λ s. Edge s assigned) (sym m.2) taken, ground arith)
write-Moves env user (advances id t) x m = advanced_row env t x m.2
write-Moves env user (cancels id reason) x m = inr (dropped m.2, ground arith)

-- A request, granted or refused, moves every order along an edge of the diagram and keeps its identity, its tenant, its
-- number, its fee and its callback, or leaves the order as it is; orders have distinct keys.
pub handle-Moves :
    (env : Env) (user : AuthUser) (r : Request) (w : World)
    → Distinct w.db.orders
    → Pointwise Moves w.db.orders (handle env user r w).1.db.orders
handle-Moves env user r w u =
    Effect-Pointwise Moves env user r w.db _ (λ x. inl refl) (write-Moves env user r)
      (handle-Effect env user r w) u

-- A completed or cancelled order stays as it is.
abbrev pub Frozen : Order → Order → Type 0
Frozen o o' = is_final o.status ≡ true → o' ≡ o

Moves-Frozen : (o o' : Order) → Moves o o' → Frozen o o'
Moves-Frozen o o' (inl e) f = e
Moves-Frozen o o' (inr (g, _)) f = absurd (no_edge o.status o'.status g f)
  where
    no_edge : (s t : OrderStatus) → Edge s t → ¬ (is_final s ≡ true)
    no_edge s t taken q = cc
    no_edge s t picked q = cc
    no_edge s t started q = cc
    no_edge s t finished q = cc
    no_edge s t (dropped n) q = cc

Frozen-trans : (x y z : Order) → Frozen x y → Frozen y z → Frozen x z
Frozen-trans x y z p q f = q (subst (λ o. is_final o.status ≡ true) (sym (p f)) f) ∙ p f

-- A completed or cancelled order is, after any sequence of requests, granted or refused, what it was
-- before, column by column; orders have distinct keys.
pub run-Frozen :
    (calls : List Call) (w : World)
    → Distinct w.db.orders
    → Pointwise Frozen w.db.orders (run calls w).db.orders
run-Frozen calls w u =
    (run_induction (λ d. Distinct d.orders × Pointwise Frozen w.db.orders d.orders)
      (λ env user r d d' h p. (
        Effect-Distinct env user r d d' h p.0,
        Pointwise-trans Frozen Frozen Frozen Frozen-trans w.db.orders d.orders d'.orders p.1 (
            Effect-Pointwise Frozen env user r d d' (λ x f. refl)
              (λ x m. Moves-Frozen x _ (write-Moves env user r x m)) h p.0),
      ))
      calls w (u, Pointwise-refl Frozen (λ x f. refl) w.db.orders)).1
