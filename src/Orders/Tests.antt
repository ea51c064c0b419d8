-- ===== src/Orders/Tests.antt =====
-- src/orders/orders.service.ts: `create`, run on the sample.
use couriers_server_node.Entities.{Owner, UserRole, AuditAction}
use couriers_server_node.Http.{Message, HttpError, ok, err}
use couriers_server_node.Orders.Effects.{
  create_taken, created_response, Granted, Refused, create-cases,
}
use couriers_server_node.Orders.Queries.{find_one}
use couriers_server_node.Orders.RoundTrip.{IsFresh, rounded, find_one-create}
use couriers_server_node.Orders.Responses.{CreateOrderDto, OrderResponse, map_to_order_response}
use couriers_server_node.Orders.Service.{
  is_numbered, recover, insert_client, find_or_create_client, id_of_existing, insert_order,
  item_rows, create_found, create_rows, create,
}
use couriers_server_node.Orders.Unique.{IsUnique, create-IsUnique}
use couriers_server_node.Prelude.{
  if◌then◌else◌, find, count, any, String, ◌≡◌, refl, ◌⊎◌, false, none, ◌∷◌, arith, [],
}
use couriers_server_node.Prelude.Int.{ℤ}
use couriers_server_node.Samples.{env, boss, db, world}
use couriers_server_node.World.{World, transaction}

abbrev tenant : Owner
tenant = record {
  id = 1;
  name = "Shop";
  email = "shop@shop.test";
  timezone = none;
  default_delivery_fee = 400;
  created_at = 0;
  updated_at = 0;
}

abbrev shop : World
shop = record world { db = record db { owners = tenant ∷ [] } }

abbrev request : String → CreateOrderDto
request number = record {
  order_number = number;
  client_phone = "+1555";
  pickup_address = "Main 1";
  pickup_lat = ℤ.pos 1;
  pickup_lng = ℤ.pos 2;
  dropoff_address = "Main 2";
  dropoff_lat = ℤ.pos 3;
  dropoff_lng = ℤ.pos 4;
  callback_url = none;
  items = (record { name = "Tea"; quantity = 2; price = 305 }) ∷ [];
}

create_taken_example :
    ((create env false (request "A-1") boss shop).1.db ≡ shop.db)
    × ((create env false (request "A-1") boss shop).1.jobs ≡ shop.jobs)
    × ((create env false (request "A-1") boss shop).0
        ≡ err (
            if false
            then HttpError.conflict (
                Message.order_number_taken
                  (id_of_existing (find (is_numbered 1 "A-1") shop.db.orders)))
            else HttpError.aborted_transaction))
unfolding find any
create_taken_example = create_taken env false (request "A-1") boss tenant shop refl refl

sample-IsUnique : IsUnique (record db { orders = [] })
unfolding count
sample-IsUnique = record {
  numbers = λ owner number. omega arith;
  phones = λ owner phone. omega arith;
}

abbrev empty_shop : World
empty_shop = record world { db = record db { owners = tenant ∷ []; orders = [] } }

abbrev empty-IsUnique : IsUnique empty_shop.db
empty-IsUnique = record { numbers = sample-IsUnique.numbers; phones = sample-IsUnique.phones }

create-IsUnique_example : IsUnique (create env false (request "B-1") boss empty_shop).1.db
create-IsUnique_example = create-IsUnique env false (request "B-1") boss empty_shop empty-IsUnique

create-cases_example :
    Refused env false (request "B-1") boss shop
    ⊎ ((o : Owner) × Granted env false (request "B-1") boss shop o)
create-cases_example = create-cases env false (request "B-1") boss shop

abbrev answer : OrderResponse
answer = created_response env (request "B-1") boss tenant none

answered : (create env false (request "B-1") boss shop).0 ≡ ok answer
unfolding create create_rows create_found find_or_create_client insert_client insert_order recover
    transaction find any map_to_order_response item_rows
answered = refl

fresh : IsFresh env (request "B-1") boss shop.db
unfolding any find
fresh = record {
  order = refl;
  items = refl;
  entries = refl;
  client = refl;
  keyed = λ c e. absurd (cc);
}

find_one-create_example :
    (find_one answer.id 1 (create env false (request "B-1") boss shop).1).0
    ≡ ok (record {
      order = rounded env answer;
      audit_entries =
          (record {
            id = 502;
            action = AuditAction.order_created;
            actor_id = 10;
            actor_role = UserRole.owner;
            created_at = 1000000;
          })
          ∷ [];
    })
find_one-create_example = find_one-create env false (request "B-1") boss shop answer fresh answered
