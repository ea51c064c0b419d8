-- ===== src/Lifecycle/Finish.antt =====
-- src/orders/order-lifecycle.service.ts: an order, from any status that is not final, to its end.
use couriers_server_node.Entities.{
  AuthUser, OrderStatus, Order, completed, created, assigned, picked_up, in_delivery, cancelled,
}
use couriers_server_node.Lifecycle.AdvanceEffect.{IsUnpaid}
use couriers_server_node.Lifecycle.Answers.{claim_answers}
use couriers_server_node.Lifecycle.Calls.{load}
use couriers_server_node.Lifecycle.Delivery.{
  steps_left, all_ok, CanFinish, Finishes, Held, finish_last, finish_picked, finish_assigned,
}
use couriers_server_node.Lifecycle.Effects.{claimed_orders, claimed_db, audited_only}
use couriers_server_node.Lifecycle.Handlers.{claim}
use couriers_server_node.Lifecycle.Requests.{handle, run}
use couriers_server_node.Lifecycle.Rules.{is_order, is_claimable, set_claimed}
use couriers_server_node.Prelude.{
  ==_refl, find_holds, find-update, ℕ, ◌≡◌, refl, sym, subst, true, none, some, arith,
}
use couriers_server_node.World.{Db, World, Env}

module _ (env : Env) (id : ℕ) (user : AuthUser) (ready : env.queue_ready ≡ true) where
  claimed-Held :
      (o : Order) (w w' : World)
      → w'.db ≡ claimed_db env id user w.db
      → load w.db id user.owner_id ≡ some o
      → is_claimable id user.owner_id o ≡ true
      → IsUnpaid w.db id
      → Held env id user ready assigned (set_claimed env user o) w'
  claimed-Held o w w' e l c u =
      let a =
        audited_only env id user (record { from = created; to = assigned; reason = none })
          (claimed_orders env id user w.db) in
      let q = is_order id user.owner_id in
      let p = is_claimable id user.owner_id in
      record {
        loaded =
            subst (λ (d : Db). load d id user.owner_id ≡ some (set_claimed env user o)) (sym e)
              (rw (a.orders, find-update q p (set_claimed env user) w.db.orders (λ x. refl), l, c)
                refl);
        status = refl;
        mine = ==_refl user.user_id;
        unpaid =
            subst (λ (d : Db). IsUnpaid d id) (sym e)
              (record {
                undelivered = rw (a.deliveries) (u.undelivered);
                unearned = rw (a.earnings) (u.unearned);
              });
      }

  finish_created :
      (o : Order) (w : World)
      → CanFinish w.db id user o
      → o.status ≡ created
      → Finishes env user id (steps_left id created) w
  unfolding all_ok run handle steps_left
  finish_created o w h s =
      let k = find_holds (is_order id user.owner_id) w.db.orders o h.loaded in
      let c : is_claimable id user.owner_id o ≡ true = rw (k, s, h.free s) refl in
      let q = claim_answers env id user o w (h.on_shift s) (h.idle s) h.loaded c in
      let w' = (claim env id user w).1 in
      let f =
        finish_assigned env id user ready (set_claimed env user o) w'
          (claimed-Held o w w' q.1 h.loaded c h.unpaid) in
      record {
        answered = ground (arith, q.0, f.answered);
        order = f.order;
        found = f.found;
        delivered = f.delivered;
        courier = f.courier;
        paid = f.paid;
      }

  finish_from :
      (s : OrderStatus) (o : Order) (w : World)
      → o.status ≡ s
      → CanFinish w.db id user o
      → Finishes env user id (steps_left id s) w
  unfolding steps_left
  finish_from created o w e h = finish_created o w h e
  finish_from assigned o w e h =
      finish_assigned env id user ready o w
        (record { loaded = h.loaded; status = e; mine = h.mine (rw e refl); unpaid = h.unpaid })
  finish_from picked_up o w e h =
      finish_picked env id user ready o w
        (record { loaded = h.loaded; status = e; mine = h.mine (rw e refl); unpaid = h.unpaid })
  finish_from in_delivery o w e h =
      finish_last env id user ready o w
        (record { loaded = h.loaded; status = e; mine = h.mine (rw e refl); unpaid = h.unpaid })
  finish_from completed o w e h = absurd (let r = h.running in ground arith)
  finish_from cancelled o w e h = absurd (let r = h.running in ground arith)

-- An order that is not final and not paid, and is held by the courier or is new while the courier is on shift without an
-- active order, can always be brought to its end: the requests left from its status (claim, pickup, start-delivery,
-- complete) are all granted one after the other, and then the order is completed, still by that courier, with one
-- earning; the queues take jobs.
pub order-Finishes :
    (env : Env) (id : ℕ) (user : AuthUser) (o : Order) (w : World)
    → env.queue_ready ≡ true
    → CanFinish w.db id user o
    → Finishes env user id (steps_left id o.status) w
order-Finishes env id user o w ready h = finish_from env id user ready o.status o w refl h
