-- ===== src/Lifecycle/ProgressTests.antt =====
-- src/orders/order-lifecycle.service.ts: runs of the sample to their end.
use couriers_server_node.Entities.{created}
use couriers_server_node.Lifecycle.Calls.{
  load_order, append_audit_entry, enqueue_callback_if_needed, map_to_dto,
}
use couriers_server_node.Lifecycle.Delivery.{steps_left, made_by, CanFinish, Finishes}
use couriers_server_node.Lifecycle.Finish.{order-Finishes}
use couriers_server_node.Lifecycle.Handlers.{
  claim_check, claim_refused, claim_granted, claim_commit, claim, advance_check, complete_rows,
  advance_rows, advance_report, advance_commit, advance_status,
}
use couriers_server_node.Lifecycle.Keys.{Distinct}
use couriers_server_node.Lifecycle.Rank.{rank_at, changes, changes_bounded}
use couriers_server_node.Lifecycle.Requests.{handle, Call, run}
use couriers_server_node.Prelude.{find, count, update, any, ◌+◌, ◌≤◌, ◌≡◌, refl, List, arith}
use couriers_server_node.Samples.{env, anna, first_order, db, world}
use couriers_server_node.World.{transaction}

abbrev to_the_end : List Call
to_the_end = made_by env anna (steps_left 100 created)

first_order-CanFinish : CanFinish world.db 100 anna first_order
unfolding find count any
first_order-CanFinish = record {
  loaded = refl;
  running = refl;
  unpaid = record { undelivered = refl; unearned = refl };
  mine = λ e. absurd (cc);
  free = λ e. refl;
  on_shift = λ e q. cc;
  idle = λ e. refl;
}

order-Finishes_example : Finishes env anna 100 (steps_left 100 created) world
order-Finishes_example = order-Finishes env 100 anna first_order world refl first_order-CanFinish

sample-Distinct : Distinct db.orders
sample-Distinct = ((omega arith, (omega arith, tt)), ((omega arith, tt), (tt, tt)))

changes_bounded_example :
    changes 100 to_the_end world + rank_at 100 (run to_the_end world).db.orders
    ≤ rank_at 100 db.orders
changes_bounded_example = changes_bounded 100 to_the_end world sample-Distinct

four_changes : changes 100 to_the_end world ≡ 4
unfolding changes steps_left handle claim claim_check claim_commit claim_refused claim_granted
    advance_status advance_check advance_commit advance_rows advance_report complete_rows
    transaction load_order append_audit_entry enqueue_callback_if_needed map_to_dto update find
    count any
four_changes = refl
