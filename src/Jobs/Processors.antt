-- ===== src/Jobs/Processors.antt =====
-- The processors of src/orders/jobs, src/couriers/jobs and src/auth/code-delivery, and `getMessaging`
-- of src/firebase/firebase.service.ts. What Firebase and the HTTP servers answer is an argument.
use couriers_server_node.Entities.{DeliveryChannel, Courier, OrderStatus, sms, telegram}
use couriers_server_node.Lifecycle.Calls.{filled}
use couriers_server_node.Prelude.{
  ◌==◌, if◌then◌else◌, filter, find, ℕ, String, Bool, true, false, Option, none, some, List, ◌∷◌,
  ◌++◌, [],
}
use couriers_server_node.Prelude.Int.{ℤ}
use couriers_server_node.World.{Db, Job}

pub data PushData : Type 0 where
  order_notice : (order_id : ℕ) → PushData
  order_cancelled_notice : (order_id : ℕ) → PushData

-- The argument of `messaging.send`.
pub record Push : Type 0 where
  pub token : String
  pub data_of : PushData

-- The body of a `fetch` with method POST.
pub data Body : Type 0 where
  order_status : (order_id : ℕ) (status : OrderStatus) (timestamp : ℕ) → Body
  location : (courier_id order_id : ℕ) (lat lng : ℤ) (timestamp : ℕ) → Body
  login_code : (chat_id code : String) → Body

pub data Target : Type 0 where
  url : String → Target
  telegram_bot : (token : String) → Target

-- What `fetch` ends with: an error of the network, the abort after ten seconds included, or a
-- response with its `ok` and `status`.
pub data Fetched : Type 0 where
  network_error : Fetched
  response : (is_success : Bool) (status : ℕ) → Fetched

pub data JobError : Type 0 where
  fetch_failed : JobError
  callback_returned : (status : ℕ) → JobError
  sms_not_configured telegram_not_configured no_chat_linked telegram_failed : JobError

pub data JobResult : Type 0 where
  done : JobResult
  thrown : JobError → JobResult

-- The outside of a worker. Firebase answers a message by whether it takes it, given those before it
-- in the job; without a Firebase app there is no `messaging`.
pub record Outside : Type 0 where
  pub app : Option (List Push → Push → Bool)
  pub fetch : Target → Body → Fetched
  pub auth_code_fixed : Option String
  pub telegram_bot_token : Option String
  pub now : ℕ

-- What a worker did on a job: the messages that it tried to send, the couriers whose message was
-- refused, the requests that it posted, and how it ended.
pub record Outcome : Type 0 where
  pub pushes : List Push
  pub refused : List ℕ
  pub posts : List (Target × Body)
  pub result : JobResult

abbrev pub nothing : Outcome
nothing = record { pushes = []; refused = []; posts = []; result = done }

abbrev pub order_push : ℕ → String → Push
order_push order token = record { token = token; data_of = order_notice order }

-- The loop over the couriers: a refused message is logged and the loop goes on.
unfoldable pub notify_each :
    (List Push → Push → Bool) → ℕ → List Courier → List Push → List ℕ → Outcome
notify_each send order [] sent failed = record {
  pushes = sent;
  refused = failed;
  posts = [];
  result = done;
}
notify_each send order (c ∷ cs) sent failed = elim (filled c.fcm_token) [
  | none ↦ notify_each send order cs sent failed
  | some token ↦
      notify_each send order cs (sent ++ order_push order token ∷ [])
        (if send sent (order_push order token) then failed else failed ++ c.id ∷ [])
]

unfoldable pub process_new_order : Outside → (order owner : ℕ) → Db → Outcome
process_new_order out order owner d = elim out.app [
  | none ↦ nothing
  | some send ↦ notify_each send order (filter (λ c. c.owner_id == owner) d.couriers) [] []
]

abbrev pub token_of : Option Courier → Option String
token_of none = none
token_of (some c) = filled c.fcm_token

abbrev pub cancel_push : ℕ → String → Push
cancel_push order token = record { token = token; data_of = order_cancelled_notice order }

unfoldable pub process_cancel : Outside → (courier order : ℕ) → Db → Outcome
process_cancel out courier order d = elim (token_of (find (λ c. c.id == courier) d.couriers)) [
  | none ↦ nothing
  | some token ↦ elim out.app [
    | none ↦ nothing
    | some send ↦
        let p = cancel_push order token in
        record {
          pushes = p ∷ [];
          refused = if send [] p then [] else courier ∷ [];
          posts = [];
          result = done;
        }
  ]
]

abbrev pub callback_result : Fetched → JobResult
callback_result network_error = thrown fetch_failed
callback_result (response true status) = done
callback_result (response false status) = thrown (callback_returned status)

-- One POST, whose response must be ok.
abbrev pub post_callback : Outside → String → Body → Outcome
post_callback out callback_url body = record {
  pushes = [];
  refused = [];
  posts = (url callback_url, body) ∷ [];
  result = callback_result (out.fetch (url callback_url) body);
}

abbrev pub telegram_result : Fetched → JobResult
telegram_result network_error = thrown fetch_failed
telegram_result (response true status) = done
telegram_result (response false status) = thrown telegram_failed

abbrev pub failed_with : JobError → Outcome
failed_with e = record { pushes = []; refused = []; posts = []; result = thrown e }

unfoldable pub deliver_via_telegram : Outside → Option String → String → Outcome
deliver_via_telegram out chat_id code = elim (filled out.telegram_bot_token) [
  | none ↦ failed_with telegram_not_configured
  | some token ↦ elim (filled chat_id) [
    | none ↦ failed_with no_chat_linked
    | some chat ↦
        let body = login_code chat code in
        record {
          pushes = [];
          refused = [];
          posts = (telegram_bot token, body) ∷ [];
          result = telegram_result (out.fetch (telegram_bot token) body);
        }
  ]
]

unfoldable pub process_code : Outside → DeliveryChannel → String → Option String → Outcome
process_code out channel code chat_id = elim (filled out.auth_code_fixed) [
  | some fixed ↦ nothing
  | none ↦ elim channel [
    | sms ↦ failed_with sms_not_configured
    | telegram ↦ deliver_via_telegram out chat_id code
  ]
]

-- The worker of the queue that the job is in.
unfoldable pub process : Outside → Db → Job → Outcome
process out d (Job.new_order_notify order owner) = process_new_order out order owner d
process out d (Job.cancel_notify courier order owner) = process_cancel out courier order d
process out d (Job.order_callback order callback_url status owner) =
    post_callback out callback_url (order_status order status out.now)
process out d (Job.location_callback courier order callback_url lat lng timestamp owner) =
    post_callback out callback_url (location courier order lat lng timestamp)
process out d (Job.deliver_code id phone channel code chat_id) =
    process_code out channel code chat_id
