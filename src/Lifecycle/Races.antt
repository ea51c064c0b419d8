-- ===== src/Lifecycle/Races.antt =====
-- src/orders/order-lifecycle.service.ts: a check that is out of date when its commit runs.
use couriers_server_node.Entities.{AuthUser, Order, CourierEarning, completed}
use couriers_server_node.Http.{ok}
use couriers_server_node.Lifecycle.AdvanceEffect.{
  advanced_rows, advanced_db, IsUnpaid, CanAdvance, advance_check_cases, complete_commit-db,
}
use couriers_server_node.Lifecycle.Calls.{load, load_order}
use couriers_server_node.Lifecycle.CancelEffect.{cancelled_db, cancel_commit_writes}
use couriers_server_node.Lifecycle.Diagram.{not_final}
use couriers_server_node.Lifecycle.Effects.{OnlyAudited, audited_only}
use couriers_server_node.Lifecycle.Handlers.{
  advance_check, courier_earning, advance_commit, cancel_check, cancel_commit, cancel,
}
use couriers_server_node.Lifecycle.Rules.{
  is_final, is_order, is_cancellable, set_status, set_cancelled,
}
use couriers_server_node.Lifecycle.Settlement.{earnings_of}
use couriers_server_node.Prelude.{
  ==_refl, find, count, update, find_holds, find_concat, find-update, any-count, count_concat,
  found-count, ℕ, String, ◌≡◌, refl, sym, ap, subst, ◌∙◌, inl, inr, true, false, Option, none, some,
  arith,
}
use couriers_server_node.World.{Db, World, Env}

cancel_check_passes :
    (id : ℕ) (user : AuthUser) (o : Order) (w : World)
    → load w.db id user.owner_id ≡ some o
    → is_final o.status ≡ false
    → cancel_check id user w ≡ (ok o, w)
unfolding cancel_check load_order
cancel_check_passes id user o w e f = ground arith

pub cancel_after_check :
    (env : Env) (id : ℕ) (reason : Option String) (user : AuthUser) (o : Order) (w : World)
    → cancel_check id user w ≡ (ok o, w)
    → cancel env id reason user w ≡ cancel_commit env id reason user o w
unfolding cancel
cancel_after_check env id reason user o w h = ground arith

module _ (env env' : Env) (id : ℕ) (reason : Option String) (staff user : AuthUser) (o : Order)
    (w : World) (tenant : staff.owner_id ≡ user.owner_id)
    (checked : advance_check id completed user w ≡ (ok o, w)) (unpaid : IsUnpaid w.db id) where
  can : CanAdvance w.db id completed user o
  can = elim (advance_check_cases id completed user w) [
    | inl (e, h) ↦ absurd (cc)
    | inr (y, c, h) ↦ subst (CanAdvance w.db id completed user) (ground arith) c
  ]

  running : is_final o.status ≡ false
  running = not_final o.status completed can.edge

  loaded_by_staff : load w.db id staff.owner_id ≡ some o
  loaded_by_staff = rw tenant can.loaded

  keyed : is_order id user.owner_id o ≡ true
  keyed = find_holds (is_order id user.owner_id) w.db.orders o can.loaded

  cancellable : is_cancellable id staff.owner_id o ≡ true
  cancellable = rw (tenant, keyed, running) refl

  cancelled_first-db : (cancel env id reason staff w).1.db ≡ cancelled_db env id reason staff o w.db
  cancelled_first-db =
      rw
        (cancel_after_check env id reason staff o w
          (cancel_check_passes id staff o w loaded_by_staff running))
        (cancel_commit_writes env id reason staff o w (
          found-count (is_order id staff.owner_id) (is_cancellable id staff.owner_id) w.db.orders o
            loaded_by_staff cancellable))

  between : Db
  between = (cancel env id reason staff w).1.db

  only :
      OnlyAudited
        (record (w.db) {
          orders = update (is_cancellable id staff.owner_id) (set_cancelled env) w.db.orders;
        })
        between
  unfolding between
  only = subst (OnlyAudited _) (sym cancelled_first-db) (audited_only env id staff _ _)

  still-IsUnpaid : IsUnpaid between id
  still-IsUnpaid = record {
    undelivered = rw only.deliveries unpaid.undelivered;
    unearned = rw only.earnings unpaid.unearned;
  }

  completed_then-db :
      (advance_commit env' id completed user o (cancel env id reason staff w).1).1.db
      ≡ advanced_db env' id completed user o between
  unfolding between
  completed_then-db =
      complete_commit-db env' id user o (cancel env id reason staff w).1 still-IsUnpaid

  final : Db
  final = (advance_commit env' id completed user o (cancel env id reason staff w).1).1.db

  finally : OnlyAudited (advanced_rows env' id completed user o between) final
  unfolding final
  finally = subst (OnlyAudited _) (sym completed_then-db) (audited_only env' id user _ _)

  final-orders :
      final.orders
      ≡ update
          (is_order id user.owner_id)
          (set_status env' completed)
          (update (is_cancellable id staff.owner_id) (set_cancelled env) w.db.orders)
  final-orders =
      finally.orders
      ∙ ap (update (is_order id user.owner_id) (set_status env' completed)) only.orders

  final-load : load final id user.owner_id ≡ some (set_status env' completed (set_cancelled env o))
  final-load =
      let q = is_order id user.owner_id in
      rw (final-orders) (
        rw
          (
            find-update q q (set_status env' completed)
                (update (is_cancellable id staff.owner_id) (set_cancelled env) w.db.orders)
                (λ x. refl),
            find-update q (is_cancellable id staff.owner_id) (set_cancelled env) w.db.orders
                (λ x. refl),
            can.loaded,
            cancellable,
            keyed,
          )
          refl)

  final-earnings : count (earnings_of id) final.courier_earnings ≡ 1
  final-earnings =
      rw
        (
          finally.earnings,
          count_concat (earnings_of id) between.courier_earnings (courier_earning env' id user o),
          ==_refl id,
          any-count (earnings_of id) between.courier_earnings still-IsUnpaid.unearned,
        )
        refl

  final-earning :
      find (earnings_of id) final.courier_earnings ≡ some (courier_earning env' id user o)
  final-earning = rw (finally.earnings) (
      find_concat (earnings_of id) between.courier_earnings (courier_earning env' id user o)
        still-IsUnpaid.unearned (==_refl id))

  -- A completion was checked, then the order was cancelled, then the completion commits: the
  -- cancelled order becomes completed and has no courier, and its one earning is the courier's, of the
  -- order's fee.
  pub cancel_overtaken :
      let w' = (advance_commit env' id completed user o (cancel env id reason staff w).1).1 in
      (x : Order) × (load w'.db id user.owner_id ≡ some x)
      × (x.status ≡ completed)
      × (x.courier_id ≡ none)
      × (count (earnings_of id) w'.db.courier_earnings ≡ 1)
      × ((e : CourierEarning) × (find (earnings_of id) w'.db.courier_earnings ≡ some e)
          × (e.courier_id ≡ user.user_id)
          × (e.amount ≡ o.delivery_fee))
  unfolding final
  cancel_overtaken = (
    set_status env' completed (set_cancelled env o),
    final-load,
    refl,
    refl,
    final-earnings,
    (courier_earning env' id user o, final-earning, refl, refl),
  )
