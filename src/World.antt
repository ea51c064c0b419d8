-- ===== src/World.antt =====
-- What a request handler sees and changes: the database (tables of src/*/entities), the BullMQ
-- queues (src/queues/queues.constants.ts) and the messages that the Socket.IO server was given.
-- A handler is a state passing function that may throw; what was written before a throw stays,
-- except inside a transaction.
use couriers_server_node.Prelude.{
  ℕ, String, Bool, true, false, Option, none, some, List, [], ◌∷◌, ◌++◌, if◌then◌else◌,
}
use couriers_server_node.Prelude.Int.{ℤ}
use couriers_server_node.Http.{HttpError, Result, ok, err}
use couriers_server_node.Entities.{
  Owner, Client, StaffUser, Order, OrderStatus, OrderItem, OrderAuditEntry, DeliveryRecord,
  CourierEarning, Courier, CourierShift, CourierPosition, CourierLocationHistory, PayoutPeriod,
  Payout, AuthCode, CourierRefreshToken, DeliveryChannel,
}

pub record Db : Type 0 where
  pub owners : List Owner
  pub clients : List Client
  pub staff_users : List StaffUser
  pub orders : List Order
  pub order_items : List OrderItem
  pub audit_entries : List OrderAuditEntry
  pub delivery_records : List DeliveryRecord
  pub courier_earnings : List CourierEarning
  pub couriers : List Courier
  pub shifts : List CourierShift
  pub positions : List CourierPosition
  pub location_history : List CourierLocationHistory
  pub payout_periods : List PayoutPeriod
  pub payouts : List Payout
  pub auth_codes : List AuthCode
  pub refresh_tokens : List CourierRefreshToken

-- The jobs of the five queues.
pub data Job : Type 0 where
  new_order_notify : (order_id owner_id : ℕ) → Job
  cancel_notify : (courier_id order_id owner_id : ℕ) → Job
  order_callback :
      (order_id : ℕ) (callback_url : String) (status : OrderStatus) (owner_id : ℕ) → Job
  location_callback :
      (courier_id order_id : ℕ) (callback_url : String) (lat lng : ℤ) (timestamp owner_id : ℕ) → Job
  deliver_code :
      (auth_code_id : ℕ) (phone : String) (channel : DeliveryChannel) (code : String)
      (chat_id : Option String)
      → Job

pub record StatusPayload : Type 0 where
  pub id : ℕ
  pub order_number : String
  pub status : OrderStatus
  pub previous_status : OrderStatus
  pub courier_id : Option ℕ
  pub updated_at : ℕ

pub record OrderPayload : Type 0 where
  pub id : ℕ
  pub order_number : String
  pub status : OrderStatus
  pub pickup_address : String
  pub dropoff_address : String
  pub delivery_fee : ℕ
  pub client_phone : String
  pub created_at : ℕ

pub record LocationPayload : Type 0 where
  pub courier_id : ℕ
  pub lat : ℤ
  pub lng : ℤ
  pub recorded_at : ℕ
  pub order_id : Option ℕ
  pub distance_meters : ℕ

pub data Event : Type 0 where
  order_created order_new_available : OrderPayload → Event
  order_status_changed order_cancelled : StatusPayload → Event
  location_updated : LocationPayload → Event
  shift_opened : (courier_id shift_id started_at : ℕ) → Event
  shift_closed :
      (courier_id shift_id started_at : ℕ) (ended_at : Option ℕ) (duration : Option ℤ) → Event

-- The rooms `tenant:<owner>:staff` and `tenant:<owner>:couriers`.
pub data Room : Type 0 where
  staff couriers : ℕ → Room

pub record World : Type 0 where
  pub db : Db
  pub jobs : List Job
  pub emitted : List (Room × Event)

-- What a request meets outside the program: the database's clock (`NOW()`) and the process's
-- (`new Date()`), the identifiers that `gen_random_uuid()` returns, whether the Socket.IO server
-- is there, whether the queues take jobs, and how PostgreSQL rounds a value to the places of its
-- column: seven for coordinates, two for amounts of money and for distances.
pub record Env : Type 0 where
  pub db_now : ℕ
  pub app_now : ℕ
  pub uuid : ℕ → ℕ
  pub socket_ready : Bool
  pub queue_ready : Bool
  pub round_coordinate : ℤ → ℤ
  pub round_price : ℕ → ℕ
  pub round_meters : ℕ → ℕ

abbrev pub Exec : Type 0 → Type 0
Exec A = World → Result A × World

module _ {A : Type 0} where
  abbrev pub pure : A → Exec A
  pure a w = (ok a, w)

  abbrev pub raise : HttpError → Exec A
  raise e w = (err e, w)

  -- A query.
  abbrev pub gets : (Db → A) → Exec A
  gets f w = (ok (f w.db), w)

  abbrev pub or_raise : Option A → HttpError → Exec A
  or_raise none e = raise e
  or_raise (some a) e = pure a

infixl 5 ◌>>=◌ ◌>>◌
abbrev pub ◌>>=◌ : {A B : Type 0} → Exec A → (A → Exec B) → Exec B
◌>>=◌ m f w = let (r, w') = m w in elim r [ ok a ↦ f a w' | err e ↦ (err e, w') ]

abbrev pub ◌>>◌ : {A B : Type 0} → Exec A → Exec B → Exec B
m >> k = m >>= λ _. k

abbrev pub raise_if : Bool → HttpError → Exec (Unit {0})
raise_if c e w = (if c then err e else ok tt, w)

-- A conditional between two actions.
abbrev pub branch : {A : Type 0} → Bool → Exec A → Exec A → Exec A
branch c m k w = if c then m w else k w

-- A statement that changes the tables.
abbrev pub modify : (Db → Db) → Exec (Unit {0})
modify f w = (ok tt, record w { db = f w.db })

-- An insert under unique indexes: `clash` says whether a row is in the way.
abbrev pub insert_unique : (Db → Bool) → (Db → Db) → Exec (Unit {0})
insert_unique clash f w = elim (clash w.db) [
  | true ↦ (err HttpError.unique_violation, w)
  | false ↦ (ok tt, record w { db = f w.db })
]

-- `queue.add(…)`
abbrev pub enqueue : Env → Job → Exec (Unit {0})
enqueue env job w =
    if env.queue_ready
    then (ok tt, record w { jobs = w.jobs ++ job ∷ [] })
    else (err HttpError.queue_unavailable, w)

-- `queue.add(…)` under a job id: `is_held` says whether the queue holds a job of that id, and then
-- BullMQ adds none.
abbrev pub enqueue_once : Env → Bool → Job → Exec (Unit {0})
enqueue_once env is_held job w =
    if env.queue_ready
    then (ok tt, if is_held then w else record w { jobs = w.jobs ++ job ∷ [] })
    else (err HttpError.queue_unavailable, w)

abbrev rolled_back : {A : Type 0} → Db → Result A × World → Result A × World
rolled_back d (ok a, w) = (ok a, w)
rolled_back d (err e, w) = (err e, record w { db = d })

-- `dataSource.transaction(…)`: a throw undoes the statements, not the jobs and messages.
unfoldable pub transaction : {A : Type 0} → Exec A → Exec A
transaction m w = rolled_back w.db (m w)

abbrev translated : {A : Type 0} → HttpError → Result A × World → Result A × World
translated e (ok a, w) = (ok a, w)
translated e (err HttpError.unique_violation, w) = (err e, w)
translated e (err f, w) = (err f, w)

-- `try { … } catch (err) { if (err is 23505) throw e; throw err; }`
unfoldable pub catch_unique : {A : Type 0} → HttpError → Exec A → Exec A
catch_unique e m w = translated e (m w)
