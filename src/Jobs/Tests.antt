-- ===== src/Jobs/Tests.antt =====
-- src/orders/jobs and src/auth/code-delivery: jobs of the sample.
use couriers_server_node.Auth.Service.{SendCode}
use couriers_server_node.Entities.{picked_up}
use couriers_server_node.Jobs.Notices.{is_reached_by, is_push_to, process_new_order-Notified}
use couriers_server_node.Jobs.Processors.{
  Push, Outside, notify_each, process_new_order, process, response, done, thrown, callback_returned,
  order_notice,
}
use couriers_server_node.Prelude.{
  ◌==◌, filter, count, All, String, ◌≡◌, refl, Bool, false, not, ◌&&◌, none, some, List, ◌∷◌,
  str_eq, [],
}
use couriers_server_node.Samples.{courier_row, db}
use couriers_server_node.World.{Db, Job}

abbrev told_couriers : Db
told_couriers = record db {
  couriers =
      record (courier_row 20) { fcm_token = some "a" }
      ∷ courier_row 21
      ∷ record (courier_row 22) { fcm_token = some "b" }
      ∷ [];
}

-- Firebase refuses the token "a".
abbrev refuses_a : List Push → Push → Bool
refuses_a sent p = not (str_eq p.token "a")

abbrev outside : Outside
outside = record {
  app = some refuses_a;
  fetch = λ t b. response false 503;
  auth_code_fixed = none;
  telegram_bot_token = some "bot";
  now = 5;
}

process_new_order-Notified_example :
    let o = process_new_order outside 100 1 told_couriers in
    (o.result ≡ done)
    × All (λ (p : Push). p.data_of ≡ order_notice 100) o.pushes
    × ((t : String)
        → count (is_push_to t) o.pushes
          ≡ count (λ c. c.owner_id == 1 && is_reached_by t c) told_couriers.couriers)
process_new_order-Notified_example =
    process_new_order-Notified outside 100 1 told_couriers refuses_a refl

one_refused : (process_new_order outside 100 1 told_couriers).refused ≡ 20 ∷ []
unfolding process_new_order notify_each filter
one_refused = refl

callback_retried :
    (process outside db (Job.order_callback 100 "https://shop.test/hook" picked_up 1)).result
    ≡ thrown (callback_returned 503)
unfolding process
callback_retried = refl

abbrev by_sms : SendCode
by_sms = record { owner_id = 1; phone = "+10000000"; channel = none }
