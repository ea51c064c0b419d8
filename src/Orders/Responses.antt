-- ===== src/Orders/Responses.antt =====
-- src/orders/dto: the body of `create` and the answers, with `mapToOrderResponse`.
use couriers_server_node.Entities.{Client, OrderStatus, Order, OrderItem}
use couriers_server_node.Prelude.{ℕ, String, Option, List, map}
use couriers_server_node.Prelude.Int.{ℤ}

pub record OrderItemDto : Type 0 where
  pub name : String
  pub quantity : ℕ
  pub price : ℕ

pub record CreateOrderDto : Type 0 where
  pub order_number : String
  pub client_phone : String
  pub pickup_address : String
  pub pickup_lat : ℤ
  pub pickup_lng : ℤ
  pub dropoff_address : String
  pub dropoff_lat : ℤ
  pub dropoff_lng : ℤ
  pub callback_url : Option String
  pub items : List OrderItemDto

pub record ClientSummary : Type 0 where
  pub id : ℕ
  pub phone : String
  pub name : Option String

pub record OrderItemResponse : Type 0 where
  pub id : ℕ
  pub name : String
  pub quantity : ℕ
  pub price : ℕ

pub record OrderResponse : Type 0 where
  pub id : ℕ
  pub owner_id : ℕ
  pub order_number : String
  pub status : OrderStatus
  pub client : ClientSummary
  pub pickup_address : String
  pub pickup_lat : ℤ
  pub pickup_lng : ℤ
  pub dropoff_address : String
  pub dropoff_lat : ℤ
  pub dropoff_lng : ℤ
  pub delivery_fee : ℕ
  pub callback_url : Option String
  pub items : List OrderItemResponse
  pub created_at : ℕ
  pub updated_at : ℕ

unfoldable pub map_to_item : OrderItem → OrderItemResponse
map_to_item i = record { id = i.id; name = i.name; quantity = i.quantity; price = i.price }

unfoldable pub map_to_order_response : Order → Client → List OrderItem → OrderResponse
map_to_order_response o c items = record {
  id = o.id;
  owner_id = o.owner_id;
  order_number = o.order_number;
  status = o.status;
  client = record { id = c.id; phone = c.phone; name = c.name };
  pickup_address = o.pickup_address;
  pickup_lat = o.pickup_lat;
  pickup_lng = o.pickup_lng;
  dropoff_address = o.dropoff_address;
  dropoff_lat = o.dropoff_lat;
  dropoff_lng = o.dropoff_lng;
  delivery_fee = o.delivery_fee;
  callback_url = o.callback_url;
  items = map map_to_item items;
  created_at = o.created_at;
  updated_at = o.updated_at;
}
