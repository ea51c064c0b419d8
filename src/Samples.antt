-- ===== src/Samples.antt =====
-- A small tenant on which the tests of the other modules run: two couriers on shift, two new orders
-- and one in delivery, a closed payout period.
use couriers_server_node.Auth.Service.{AuthEnv}
use couriers_server_node.Entities.{
  UserRole, AuthUser, Courier, CourierShift, PayoutPeriod, OrderStatus, Order, created, in_delivery,
  available, opened, closed,
}
use couriers_server_node.Prelude.{
  ℕ, ◌+◌, ◌*◌, ◌/◌, true, false, Option, none, some, ◌∷◌, [], str_eq,
}
use couriers_server_node.Prelude.Int.{ℤ}
use couriers_server_node.World.{Db, World, Env}

abbrev pub env : Env
env = record {
  db_now = 1000000;
  app_now = 1000001;
  uuid = λ n. 500 + n;
  socket_ready = true;
  queue_ready = true;
  round_coordinate = λ z. z;
  round_price = λ n. n / 10 * 10;
  round_meters = λ n. n;
}

abbrev pub boss : AuthUser
boss = record { user_id = 10; owner_id = 1; role = UserRole.owner }

abbrev pub anna : AuthUser
anna = record { user_id = 20; owner_id = 1; role = UserRole.courier }

abbrev pub boris : AuthUser
boris = record { user_id = 21; owner_id = 1; role = UserRole.courier }

abbrev pub order_row : ℕ → OrderStatus → Option ℕ → Option ℕ → Order
order_row id status rider at = record {
  id = id;
  owner_id = 1;
  client_id = 5;
  order_number = "A-1";
  status = status;
  pickup_address = "Main 1";
  pickup_lat = ℤ.pos 1;
  pickup_lng = ℤ.pos 2;
  dropoff_address = "Main 2";
  dropoff_lat = ℤ.pos 3;
  dropoff_lng = ℤ.pos 4;
  delivery_fee = 250;
  callback_url = some "https://shop.test/hook";
  courier_id = rider;
  assigned_at = at;
  picked_up_at = at;
  in_delivery_at = at;
  completed_at = none;
  cancelled_at = none;
  created_by_id = 10;
  created_by_role = UserRole.owner;
  created_at = 900;
  updated_at = 900;
}

abbrev pub first_order : Order
first_order = order_row 100 created none none

abbrev pub second_order : Order
second_order = order_row 101 created none none

abbrev pub order_on_way : Order
order_on_way = order_row 102 in_delivery (some 21) (some 950)

abbrev pub courier_row : ℕ → Courier
courier_row id = record {
  id = id;
  owner_id = 1;
  first_name = "A";
  last_name = "B";
  phone = "+10000000";
  status = available;
  fcm_token = none;
  telegram_chat_id = none;
  login = some "ab";
  password_hash = some "hash";
  created_at = 1;
  updated_at = 1;
}

abbrev pub shift_row : ℕ → ℕ → CourierShift
shift_row id rider = record {
  id = id;
  owner_id = 1;
  courier_id = rider;
  status = opened;
  started_at = 800;
  ended_at = none;
  created_at = 800;
  updated_at = 800;
}

abbrev pub closed_month : PayoutPeriod
closed_month = record {
  id = 7;
  owner_id = 1;
  created_by = 10;
  start_date = 0;
  end_date = 30;
  status = closed;
  created_at = 2;
  updated_at = 3;
}

abbrev pub db : Db
db = record {
  owners = [];
  clients = [];
  staff_users = [];
  orders = first_order ∷ second_order ∷ order_on_way ∷ [];
  order_items = [];
  audit_entries = [];
  delivery_records = [];
  courier_earnings = [];
  couriers = courier_row 20 ∷ courier_row 21 ∷ [];
  shifts = shift_row 40 20 ∷ shift_row 41 21 ∷ [];
  positions = [];
  location_history = [];
  payout_periods = closed_month ∷ [];
  payouts = [];
  auth_codes = [];
  refresh_tokens = [];
}

abbrev pub world : World
world = record { db = db; jobs = []; emitted = [] }

abbrev pub auth : AuthEnv
auth = record {
  env = env;
  compare = λ password hash. str_eq password "tea";
  sign = λ courier tenant. "jwt";
  sha256 = λ t. t;
  raw_refresh_token = "refresh";
  generated_code = "123456";
  holds_job = λ id. false;
  login_limit = 2;
  login_ttl = 60;
  access_ttl = 900;
  refresh_ttl = 1000;
}
