-- ===== src/Lifecycle/Delivery.antt =====
-- src/orders/order-lifecycle.controller.ts: the requests that a courier has left to make until an
-- order is delivered.
use couriers_server_node.Entities.{
  AuthUser, OrderStatus, same_status, Order, completed, created, assigned, picked_up, in_delivery,
  cancelled,
}
use couriers_server_node.Lifecycle.AdvanceEffect.{advanced_rows, advanced_db, IsUnpaid, CanAdvance}
use couriers_server_node.Lifecycle.Answers.{is_ok, load-advanced, advance_answers}
use couriers_server_node.Lifecycle.Calls.{load}
use couriers_server_node.Lifecycle.Diagram.{set_status-status, set_status-courier}
use couriers_server_node.Lifecycle.Effects.{audited_only}
use couriers_server_node.Lifecycle.Handlers.{courier_earning, advance_status}
use couriers_server_node.Lifecycle.Requests.{Request, handle, Call, run, claims, advances}
use couriers_server_node.Lifecycle.Rules.{
  courier_transitions, leads_to, is_final, is_open_shift, is_active_order, set_status,
}
use couriers_server_node.Lifecycle.SettledRuns.{advanced-money, moved-SameMoney}
use couriers_server_node.Lifecycle.Settlement.{earnings_of}
use couriers_server_node.Prelude.{
  ==_refl, holds, find, count, any-count, count_concat, ℕ, ◌≡◌, refl, sym, subst, ◌≢◌, Bool, true,
  false, ◌&&◌, none, some, List, ◌∷◌, map, arith, [],
}
use couriers_server_node.World.{Db, World, Env}

-- From a status to the end: claim, pickup, start-delivery, complete.
unfoldable pub steps_left : ℕ → OrderStatus → List Request
steps_left id created =
    claims id ∷ advances id picked_up ∷ advances id in_delivery ∷ advances id completed ∷ []
steps_left id assigned =
    advances id picked_up ∷ advances id in_delivery ∷ advances id completed ∷ []
steps_left id picked_up = advances id in_delivery ∷ advances id completed ∷ []
steps_left id in_delivery = advances id completed ∷ []
steps_left id completed = []
steps_left id cancelled = []

abbrev pub made_by : Env → AuthUser → List Request → List Call
made_by env user rs = map (λ r. (env, user, r)) rs

-- No request of a sequence is answered with an error.
unfoldable pub all_ok : Env → AuthUser → List Request → World → Bool
all_ok env user [] w = true
all_ok env user (r ∷ rs) w =
    let rest = all_ok env user rs (handle env user r w).1 in is_ok (handle env user r w).0 && rest

-- What a courier needs to bring an order to its end.
pub record CanFinish (d : Db) (id : ℕ) (user : AuthUser) (o : Order) : Type 0 where
  pub loaded : load d id user.owner_id ≡ some o
  pub running : is_final o.status ≡ false
  pub unpaid : IsUnpaid d id
  pub mine : same_status o.status created ≡ false → holds o.courier_id user.user_id ≡ true
  pub free : o.status ≡ created → o.courier_id ≡ none
  pub on_shift : o.status ≡ created → find (is_open_shift user) d.shifts ≢ none
  pub idle : o.status ≡ created → count (is_active_order user.user_id user.owner_id) d.orders ≡ 0

-- Every request is granted, and then the order is completed, by the courier, and paid for once.
pub record Finishes (env : Env) (user : AuthUser) (id : ℕ) (rs : List Request) (w : World)
    : Type 0 where
  pub answered : all_ok env user rs w ≡ true
  pub order : Order
  pub found : load (run (made_by env user rs) w).db id user.owner_id ≡ some order
  pub delivered : order.status ≡ completed
  pub courier : holds order.courier_id user.user_id ≡ true
  pub paid : count (earnings_of id) (run (made_by env user rs) w).db.courier_earnings ≡ 1

module _ (env : Env) (id : ℕ) (user : AuthUser) (ready : env.queue_ready ≡ true) where
  -- An order under way with the courier.
  pub record Held (s : OrderStatus) (o : Order) (w : World) : Type 0 where
    pub loaded : load w.db id user.owner_id ≡ some o
    pub status : o.status ≡ s
    pub mine : holds o.courier_id user.user_id ≡ true
    pub unpaid : IsUnpaid w.db id

  Held-CanAdvance :
      (s t : OrderStatus) (o : Order) (w : World)
      → leads_to (courier_transitions s) t ≡ true
      → Held s o w
      → CanAdvance w.db id t user o
  Held-CanAdvance s t o w e h = record {
    loaded = h.loaded;
    edge = rw (h.status) e;
    assigned_to = h.mine;
  }

  loaded_after :
      (t : OrderStatus) (o : Order) (w w' : World)
      → w'.db ≡ advanced_db env id t user o w.db
      → load w.db id user.owner_id ≡ some o
      → load w'.db id user.owner_id ≡ some (set_status env t o)
  loaded_after t o w w' e l =
      let a =
        audited_only env id user (record { from = o.status; to = t; reason = none })
          (advanced_rows env id t user o w.db) in
      subst (λ (d : Db). load d id user.owner_id ≡ some (set_status env t o)) (sym e)
        (rw (a.orders) (load-advanced env id t user o w.db l))

  advanced-Held :
      (t : OrderStatus) (o : Order) (w w' : World)
      → same_status t completed ≡ false
      → w'.db ≡ advanced_db env id t user o w.db
      → load w.db id user.owner_id ≡ some o
      → holds o.courier_id user.user_id ≡ true
      → IsUnpaid w.db id
      → Held t (set_status env t o) w'
  advanced-Held t o w w' n e l m u =
      let k = moved-SameMoney w.db w'.db _ e (advanced-money env id t user o w.db n) in
      record {
        loaded = loaded_after t o w w' e l;
        status = set_status-status env t o;
        mine = rw (set_status-courier env t o) m;
        unpaid = record {
          undelivered = rw (k.deliveries) (u.undelivered);
          unearned = rw (k.earnings) (u.unearned);
        };
      }

  paid_once :
      (o : Order) (w w' : World)
      → w'.db ≡ advanced_db env id completed user o w.db
      → IsUnpaid w.db id
      → count (earnings_of id) w'.db.courier_earnings ≡ 1
  paid_once o w w' e u =
      let a =
        audited_only env id user (record { from = o.status; to = completed; reason = none })
          (advanced_rows env id completed user o w.db) in
      subst (λ (d : Db). count (earnings_of id) d.courier_earnings ≡ 1) (sym e)
        (rw
          (
            a.earnings,
            count_concat (earnings_of id) w.db.courier_earnings (courier_earning env id user o),
            ==_refl id,
            any-count (earnings_of id) w.db.courier_earnings u.unearned,
          )
          refl)

  pub finish_last :
      (o : Order) (w : World)
      → Held in_delivery o w
      → Finishes env user id (advances id completed ∷ []) w
  unfolding all_ok run handle
  finish_last o w h =
      let q =
        advance_answers env id completed user o w ready
          (Held-CanAdvance in_delivery completed o w refl h) h.unpaid in
      let w' = (advance_status env id completed user w).1 in
      record {
        answered = ground (arith, q.0);
        order = set_status env completed o;
        found = loaded_after completed o w w' q.1 h.loaded;
        delivered = refl;
        courier = h.mine;
        paid = paid_once o w w' q.1 h.unpaid;
      }

  finish_step :
      (s t : OrderStatus) (rest : List Request) (o : Order) (w : World)
      → leads_to (courier_transitions s) t ≡ true
      → same_status t completed ≡ false
      → ((x : Order) (w' : World) → Held t x w' → Finishes env user id rest w')
      → Held s o w
      → Finishes env user id (advances id t ∷ rest) w
  unfolding all_ok run handle
  finish_step s t rest o w e n next h =
      let can = Held-CanAdvance s t o w e h in
      let q = advance_answers env id t user o w ready can h.unpaid in
      let w' = (advance_status env id t user w).1 in
      let f =
        next (set_status env t o) w' (advanced-Held t o w w' n q.1 h.loaded h.mine h.unpaid) in
      record {
        answered = ground (arith, q.0, f.answered);
        order = f.order;
        found = f.found;
        delivered = f.delivered;
        courier = f.courier;
        paid = f.paid;
      }

  pub finish_picked :
      (o : Order) (w : World)
      → Held picked_up o w
      → Finishes env user id (steps_left id picked_up) w
  unfolding steps_left
  finish_picked o w h = finish_step picked_up in_delivery _ o w refl refl finish_last h

  pub finish_assigned :
      (o : Order) (w : World) → Held assigned o w → Finishes env user id (steps_left id assigned) w
  unfolding steps_left
  finish_assigned o w h = finish_step assigned picked_up _ o w refl refl finish_picked h
