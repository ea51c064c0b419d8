-- ===== src/Panel/StaleTests.antt =====
-- admin/src/pages: a save of a courier who began a shift after the drawer had read the row, and the
-- filters of a table.
use couriers_server_node.Couriers.Admin.{
  CourierDetail, UpdateCourier, to_list_item, find_one_courier, save_courier, update_courier,
}
use couriers_server_node.Entities.{Courier, available, unavailable, opened}
use couriers_server_node.Panel.CourierForm.{
  CourierDrawer, DrawerEvent, open_drawer, handle_status_change, on_event, on_events, save_values,
  refetched, edit, types_text, picks_status, on_last_name, to_body, field_values,
}
use couriers_server_node.Panel.StaleForm.{stale_save}
use couriers_server_node.Panel.Tables.{TableState, handle_search, handle_status_filter, table_query}
use couriers_server_node.Prelude.{
  filter, find, update, any, sort, ◌≡◌, refl, false, none, some, List, ◌∷◌, [], map,
}
use couriers_server_node.Prelude.Int.{ℤ}
use couriers_server_node.Samples.{env, anna, courier_row, db, world}
use couriers_server_node.Shifts.Service.{is_courier, insert_shift, open_rows, open_shift}
use couriers_server_node.World.{World, transaction, catch_unique}

abbrev off_duty : World
off_duty = record world {
  db = record db { couriers = record (courier_row 20) { status = unavailable } ∷ []; shifts = [] };
}

abbrev on_duty : World
on_duty = (open_shift env anna off_duty).1

abbrev detail : Courier → CourierDetail
detail c = record {
  item = to_list_item c;
  telegram_chat_id = c.telegram_chat_id;
  current_position = none;
  current_shift = none;
}

abbrev as_read : CourierDetail
as_read = detail (record (courier_row 20) { status = unavailable })

abbrev renaming : List DrawerEvent
renaming = picks_status available ∷ types_text on_last_name "C" ∷ []

abbrev sent : UpdateCourier
sent = to_body (record (field_values as_read) { last_name = "C" })

abbrev saved : CourierDetail
saved =
    record (detail
      (record (courier_row 20) { last_name = "C"; status = unavailable; updated_at = 1000000 })) {
        current_shift =
            some (record {
              id = 500;
              status = opened;
              started_at = 1000000;
              elapsed_minutes = ℤ.pos 0;
            });
      }

off_again :
    map (λ c. c.status) (update_courier env 1 20 sent on_duty).1.db.couriers ≡ unavailable ∷ []
unfolding update_courier save_courier find_one_courier open_shift find any update transaction
    open_rows catch_unique insert_shift
off_again = refl

stale_save_example :
    let w' = (update_courier env 1 20 sent on_duty).1 in
    ((c : Courier) × (find (is_courier 20 1) w'.db.couriers ≡ some c) × (c.status ≡ unavailable))
    × (w'.db.shifts ≡ on_duty.db.shifts)
unfolding update_courier save_courier find_one_courier open_shift find any update transaction
    open_rows catch_unique insert_shift on_events on_event handle_status_change save_values sort
    filter
stale_save_example = stale_save env 1 20 edit as_read renaming sent on_duty saved refl refl

-- A change of the status, once confirmed and read again, takes the text typed before it.
abbrev typing : CourierDrawer
typing = on_events renaming (open_drawer edit as_read)

text_lost :
    (refetched (detail (courier_row 20)) typing).form
    ≡ some (field_values (detail (courier_row 20)))
unfolding refetched on_events on_event handle_status_change
text_lost = refl

abbrev all_orders : TableState
all_orders = record {
  current = none;
  page_size = some 20;
  sorters = ("created_at", false) ∷ [];
  filters = [];
}

-- A status chosen after a search takes the search away.
one_filter :
    (table_query (handle_status_filter (some "created") (handle_search "A-1" all_orders))).filters
    ≡ ("status", "created") ∷ []
unfolding table_query handle_status_filter handle_search
one_filter = refl
