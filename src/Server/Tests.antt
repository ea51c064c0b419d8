-- ===== src/Server/Tests.antt =====
-- The API of src: a tenant's first order, from its creation to its payment.
use couriers_server_node.Access.Endpoints.{required_roles}
use couriers_server_node.Access.Guards.{JwtPayload, authenticate, includes, can_activate}
use couriers_server_node.Entities.{Owner, UserRole}
use couriers_server_node.Http.{Message, HttpError, err}
use couriers_server_node.Orders.Responses.{CreateOrderDto}
use couriers_server_node.Prelude.{count, ◌≡◌, refl, false, Option, none, some, List, ◌∷◌, arith, []}
use couriers_server_node.Prelude.Int.{ℤ}
use couriers_server_node.Samples.{env, courier_row, shift_row, db, world}
use couriers_server_node.Server.Healthy.{IsHealthy}
use couriers_server_node.Server.Requests.{
  Site, serve, ApiCall, serve_all, creates_order, claims_order, picks_up, starts_delivery,
  completes_order, ends_period,
}
use couriers_server_node.Server.Runs.{Guarded, serve-Guarded, serve_all-IsHealthy}
use couriers_server_node.Server.Scope.{OutOfReach, serve-OutOfReach}
use couriers_server_node.World.{World}

abbrev shop : Owner
shop = record {
  id = 1;
  name = "S";
  email = "s@b.test";
  timezone = none;
  default_delivery_fee = 250;
  created_at = 1;
  updated_at = 1;
}

abbrev start : World
start = record world {
  db = record db {
    owners = shop ∷ [];
    orders = [];
    couriers = courier_row 20 ∷ [];
    shifts = shift_row 40 20 ∷ [];
    payout_periods = [];
  };
}

abbrev meal : CreateOrderDto
meal = record {
  order_number = "A-7";
  client_phone = "+2";
  pickup_address = "Main 1";
  pickup_lat = ℤ.pos 1;
  pickup_lng = ℤ.pos 2;
  dropoff_address = "Main 2";
  dropoff_lat = ℤ.pos 3;
  dropoff_lng = ℤ.pos 4;
  callback_url = none;
  items = [];
}

abbrev site : Site
site = record {
  env = env;
  usable = false;
  distance = λ a b c e. 0;
  hash = λ p. p;
  is_throttled = false;
  is_malformed = λ a. false;
}

abbrev by_boss : Option JwtPayload
by_boss = some (record { sub = 10; owner_id = 1; role = UserRole.owner })

abbrev by_anna : Option JwtPayload
by_anna = some (record { sub = 20; owner_id = 1; role = UserRole.courier })

abbrev delivery : List ApiCall
delivery =
    (site, by_boss, creates_order meal)
    ∷ (site, by_anna, claims_order 500)
    ∷ (site, by_anna, picks_up 500)
    ∷ (site, by_anna, starts_delivery 500)
    ∷ (site, by_anna, completes_order 500)
    ∷ []

start-IsHealthy : IsHealthy start.db
unfolding count
start-IsHealthy = record {
  on_orders = record {
    settled = (tt, tt);
    formed = (tt, tt);
    told = (tt, tt);
    one_active = (tt, λ c o. omega arith);
    unique = record { numbers = λ o n. omega arith; phones = λ o p. omega arith };
  };
  sound = record { once = λ p c. omega arith; backed = tt; dated = tt };
  on_staff = λ e. omega arith;
  on_shifts = record { one_open = λ c. ground arith; ended = (refl, tt) };
  on_couriers = record {
    one_phone = λ o p. ground arith;
    one_login = λ o l. ground arith;
    one_key = λ i. ground arith;
  };
  located = λ c. omega arith;
}

serve_all-IsHealthy_example : IsHealthy (serve_all delivery start).db
serve_all-IsHealthy_example =
    serve_all-IsHealthy delivery start
      (
        record { no_order = tt; no_entry = tt; no_delivery = tt; no_earning = tt },
        (tt, (tt, (tt, (tt, tt)))),
      )
      start-IsHealthy

serve-Guarded_example : Guarded site (completes_order 500) start by_boss
serve-Guarded_example = serve-Guarded site by_boss (completes_order 500) start

serve-OutOfReach_example : OutOfReach start.db (serve site by_anna (claims_order 500) start).1.db
serve-OutOfReach_example =
    serve-OutOfReach site (record { sub = 20; owner_id = 1; role = UserRole.courier })
      (claims_order 500) start refl

courier_kept_out :
    (serve site by_anna (ends_period 7) start)
    ≡ (err (HttpError.forbidden Message.no_permission), start)
unfolding serve authenticate can_activate includes required_roles
courier_kept_out = refl
