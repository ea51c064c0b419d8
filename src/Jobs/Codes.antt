-- ===== src/Jobs/Codes.antt =====
-- src/auth/courier-auth.service.ts and src/auth/code-delivery: a code from its request to its delivery.
use couriers_server_node.Auth.Service.{AuthEnv, SendCode, is_telegram}
use couriers_server_node.Entities.{Courier, sms}
use couriers_server_node.Lifecycle.Calls.{filled}
use couriers_server_node.Prelude.{
  if◌then◌else◌, is_none, or_else, ℕ, String, ◌≡◌, false, Bool, ◌&&◌, Option, none, some, List, ◌∷◌,
  ◌++◌, [],
}
use couriers_server_node.World.{Job, World}

-- The job id that an `add` names.
abbrev pub job_id : Job → Option ℕ
job_id (Job.deliver_code id phone channel code chat_id) = some id
job_id _ = none

-- What is queued for the job of a code, given whether the queue holds one.
abbrev pub queued_once : Bool → Job → List Job → List Job
queued_once is_held job jobs = if is_held then jobs else jobs ++ job ∷ []

-- The job of a code that was asked for.
pub record Sent (a : AuthEnv) (dto : SendCode) (w w' : World) : Type 0 where
  id : ℕ
  code : String
  rider : Courier
  queued :
      w'.jobs
      ≡ queued_once
          (a.holds_job id)
          (Job.deliver_code id dto.phone (or_else dto.channel sms) code rider.telegram_chat_id)
          w.jobs
  linked :
      (is_telegram (or_else dto.channel sms) && is_none (filled rider.telegram_chat_id)) ≡ false
