-- ===== src/Http.antt =====
-- The exceptions that the services throw, as values: src/orders, src/couriers, src/payouts,
-- src/auth and src/users. A constructor of `Message` stands for one message text.
use couriers_server_node.Prelude.{ℕ, Option}
use couriers_server_node.Entities.{OrderStatus}

pub data Message : Type 0 where
  order_not_found owner_not_found courier_not_found period_not_found user_not_found : Message
  no_courier_account no_telegram_linked invalid_code code_without_courier invalid_credentials :
      Message
  courier_without_shift courier_has_active_order not_assigned_courier : Message
  order_unavailable : Option ℕ → Message
  order_number_taken : Option ℕ → Message
  cannot_transition : OrderStatus → Message
  shift_already_open no_open_shift_to_close : Message
  end_before_start period_already_closed period_not_closed courier_already_paid : Message
  email_in_use own_account unauthenticated validation_failed no_permission : Message

-- The exception classes of NestJS that the services use, and what escapes them: a failed query
-- (`QueryFailedError`, with whether its code is 23505, or 25P02: no query runs in a transaction that
-- has failed), a failed call of the job queue, and a property of `null` that is read.
pub data HttpError : Type 0 where
  bad_request unauthorized forbidden not_found conflict unprocessable internal : Message → HttpError
  too_many_requests : HttpError
  unique_violation aborted_transaction queue_unavailable type_error : HttpError

pub data Result {ℓ} (A : Type ℓ) : Type ℓ where
  ok : A → Result A
  err : HttpError → Result A
