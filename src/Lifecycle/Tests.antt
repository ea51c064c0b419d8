-- ===== src/Lifecycle/Tests.antt =====
-- src/orders/order-lifecycle.service.ts: the handlers and the theorems on them, run on the sample.
use couriers_server_node.Entities.{Order, CourierEarning, completed}
use couriers_server_node.Http.{Message, HttpError, ok, err}
use couriers_server_node.Lifecycle.AdvanceEffect.{IsUnpaid}
use couriers_server_node.Lifecycle.Calls.{
  load, load_order, append_audit_entry, enqueue_callback_if_needed, map_to_dto,
}
use couriers_server_node.Lifecycle.Diagram.{Moves, handle-Moves, Frozen, run-Frozen}
use couriers_server_node.Lifecycle.DoubleClaim.{claims_overlap}
use couriers_server_node.Lifecycle.Exclusive.{Reach-Held}
use couriers_server_node.Lifecycle.Handlers.{
  claim_check, claim_refused, claim_granted, claim_commit, claim, advance_check, courier_earning,
  complete_rows, advance_rows, advance_report, advance_commit, advance_status, cancel,
}
use couriers_server_node.Lifecycle.Interleaving.{
  Pending, System, commit, Reach, claiming, advancing, claim_admitted, advance_admitted, admit,
  perform, here, next,
}
use couriers_server_node.Lifecycle.Keys.{Distinct}
use couriers_server_node.Lifecycle.OneActive.{OneActive, run-OneActive}
use couriers_server_node.Lifecycle.Payments.{PaidOnce, Reach-PaidOnce}
use couriers_server_node.Lifecycle.Races.{cancel_overtaken}
use couriers_server_node.Lifecycle.Requests.{handle, Call, run, claims, advances, cancels}
use couriers_server_node.Lifecycle.Rules.{is_active_order, is_claimable, set_claimed}
use couriers_server_node.Lifecycle.SettledRuns.{run-Settled}
use couriers_server_node.Lifecycle.Settlement.{completions, earnings_of, IsSettled, Settled}
use couriers_server_node.Lifecycle.Tenants.{Untouched, run-Untouched}
use couriers_server_node.Lifecycle.Trail.{replay, AllTold, run-AllTold}
use couriers_server_node.Lifecycle.WellFormed.{AllWellFormed, run-AllWellFormed}
use couriers_server_node.Prelude.{
  find, count, update, any, Pointwise, ℕ, ◌≤◌, ◌≡◌, refl, sym, ◌≢◌, ◌⊎◌, none, some, List, ◌∷◌,
  arith, [],
}
use couriers_server_node.Samples.{
  env, boss, anna, boris, first_order, second_order, order_on_way, db, world,
}
use couriers_server_node.World.{World, transaction}

claim_answers :
    (claim env 100 anna world).1.db.orders
    ≡ set_claimed env anna first_order ∷ second_order ∷ order_on_way ∷ []
unfolding claim claim_check claim_commit claim_refused claim_granted load_order append_audit_entry
    enqueue_callback_if_needed map_to_dto update find count
claim_answers = refl

second_claim_refused :
    (claim env 101 anna (claim env 100 anna world).1).0
    ≡ err (HttpError.conflict Message.courier_has_active_order)
unfolding claim claim_check claim_commit claim_refused claim_granted load_order append_audit_entry
    enqueue_callback_if_needed map_to_dto update find count
second_claim_refused = refl

completion_pays :
    (advance_status env 102 completed boris world).1.db.courier_earnings
    ≡ courier_earning env 102 boris order_on_way ∷ []
unfolding advance_status advance_check advance_commit advance_rows advance_report complete_rows
    transaction load_order append_audit_entry enqueue_callback_if_needed map_to_dto update find
    count any
completion_pays = refl

abbrev day : List Call
day =
    (env, anna, claims 100)
    ∷ (env, boris, advances 102 completed)
    ∷ (env, boss, cancels 100 none)
    ∷ []

sample-Distinct : Distinct db.orders
sample-Distinct = ((omega arith, (omega arith, tt)), ((omega arith, tt), (tt, tt)))

handle-Moves_example : Pointwise Moves db.orders (handle env anna (claims 100) world).1.db.orders
handle-Moves_example = handle-Moves env anna (claims 100) world sample-Distinct

run-Frozen_example : Pointwise Frozen db.orders (run day world).db.orders
run-Frozen_example = run-Frozen day world sample-Distinct

sample-AllWellFormed : AllWellFormed db
sample-AllWellFormed = (
  sample-Distinct,
  (
    (refl, refl, refl, refl, refl, refl),
    ((refl, refl, refl, refl, refl, refl), ((refl, refl, refl, refl, refl, refl), tt)),
  ),
)

run-AllWellFormed_example : AllWellFormed (run day world).db
run-AllWellFormed_example = run-AllWellFormed day world sample-AllWellFormed

sample-OneActive : OneActive db
unfolding count
sample-OneActive = (sample-Distinct, λ c owner. ground arith)

run-OneActive_example : OneActive (run day world).db
run-OneActive_example = run-OneActive day world sample-OneActive

sample-IsSettled : (o : Order) → completions o.status ≡ 0 → IsSettled [] [] o
unfolding count
sample-IsSettled o e = record { earned = sym e; delivered = sym e; paid = λ _. tt }

sample-Settled : Settled db
sample-Settled = (
  sample-Distinct,
  (
    sample-IsSettled first_order refl,
    (sample-IsSettled second_order refl, (sample-IsSettled order_on_way refl, tt)),
  ),
)

run-Settled_example : Settled (run day world).db
run-Settled_example = run-Settled day world sample-Settled

abbrev start : System
start = record { world = world; pending = [] }

abbrev claim_pending : Pending
claim_pending = claiming env 100 anna

abbrev completion_pending : Pending
completion_pending = advancing env 102 completed boris order_on_way

anna_may_claim : claim_check anna world ≡ (ok tt, world)
unfolding claim_check find count
anna_may_claim = refl

boris_may_complete : advance_check 102 completed boris world ≡ (ok order_on_way, world)
unfolding advance_check load_order find
boris_may_complete = refl

abbrev overlapped : World
overlapped = commit claim_pending (commit completion_pending world)

-- Both checks first, then both commits.
overlap : Reach start (record { world = overlapped; pending = [] })
overlap =
    next
      (next
        (next (next here (admit claim_pending (claim_admitted env 100 anna anna_may_claim))) (
          admit completion_pending
            (advance_admitted env 102 completed boris order_on_way boris_may_complete)))
        (perform [] (claim_pending ∷ []) completion_pending))
      (perform [] [] claim_pending)

sample-PaidOnce : PaidOnce db
unfolding count
sample-PaidOnce order = (omega arith, omega arith)

Reach-PaidOnce_example : PaidOnce overlapped.db
Reach-PaidOnce_example = Reach-PaidOnce sample-PaidOnce overlap

Reach-Held_example :
    Pointwise
      (λ o o'. (c : ℕ) → o.courier_id ≡ some c → (o'.courier_id ≡ some c) ⊎ (o'.courier_id ≡ none))
      db.orders
      overlapped.db.orders
Reach-Held_example = Reach-Held world (record { world = overlapped; pending = [] }) overlap

sample-IsUnpaid : IsUnpaid db 102
unfolding any
sample-IsUnpaid = record { undelivered = refl; unearned = refl }

cancel_overtaken_example :
    let w' =
      (advance_commit env 102 completed boris order_on_way (cancel env 102 none boss world).1).1 in
    (x : Order) × (load w'.db 102 1 ≡ some x)
    × (x.status ≡ completed)
    × (x.courier_id ≡ none)
    × (count (earnings_of 102) w'.db.courier_earnings ≡ 1)
    × ((e : CourierEarning) × (find (earnings_of 102) w'.db.courier_earnings ≡ some e)
        × (e.courier_id ≡ 21)
        × (e.amount ≡ 250))
cancel_overtaken_example =
    cancel_overtaken env env 102 none boss boris order_on_way world refl boris_may_complete
      sample-IsUnpaid

first_claimable : count (is_claimable 100 1) db.orders ≢ 0
unfolding count
first_claimable e = cc

second_claimable : count (is_claimable 101 1) db.orders ≢ 0
unfolding count
second_claimable e = cc

claims_overlap_example :
    let w' = (claim_commit env 101 anna (claim_commit env 100 anna world).1).1 in
    2 ≤ count (is_active_order 20 1) w'.db.orders
claims_overlap_example =
    claims_overlap env env 100 101 anna world anna_may_claim (omega arith) first_claimable
      second_claimable

abbrev new_orders : World
new_orders = record world {
  db = record db {
    orders = first_order ∷ second_order ∷ record first_order { id = 103; owner_id = 2 } ∷ [];
  };
}

new_orders-Distinct : Distinct new_orders.db.orders
new_orders-Distinct = ((omega arith, (omega arith, tt)), ((omega arith, tt), (tt, tt)))

new_orders-AllTold : AllTold new_orders.db
unfolding replay
new_orders-AllTold = (
  new_orders-Distinct,
  (
    record { chained = tt; ends = refl },
    (record { chained = tt; ends = refl }, (record { chained = tt; ends = refl }, tt)),
  ),
)

run-AllTold_example : AllTold (run day new_orders).db
run-AllTold_example = run-AllTold day new_orders new_orders-AllTold

run-Untouched_example : Pointwise (Untouched 2) new_orders.db.orders (run day new_orders).db.orders
run-Untouched_example =
    run-Untouched 2 day new_orders (omega arith, (omega arith, (omega arith, tt)))
      new_orders-Distinct
