-- ===== src/Auth/Service.antt =====
-- src/auth/courier-auth.service.ts: `sendCode`, `verifyCode`, `logout`, `loginWithPassword` and
-- `issueTokens`.
use couriers_server_node.Auth.Tracker.{Identity, Store, reset, is_blocked, record_failure}
use couriers_server_node.Entities.{
  DeliveryChannel, AuthCode, CourierRefreshToken, Courier, sms, telegram,
}
use couriers_server_node.Http.{Message, HttpError, Result, err}
use couriers_server_node.Lifecycle.Calls.{courier_of, filled}
use couriers_server_node.Prelude.{
  ltb, ◌==◌, is_none, or_else, find, update, ℕ, ◌+◌, ◌*◌, String, Bool, true, false, ◌&&◌, Option,
  none, some, ◌∷◌, ◌++◌, str_eq, [],
}
use couriers_server_node.World.{
  Job, World, Env, Exec, pure, gets, or_raise, raise_if, modify, enqueue_once, ◌>>=◌, ◌>>◌,
}

-- What the service takes from libraries and from the configuration: bcrypt's comparison, the signed
-- access token, SHA-256, a random UUID as a refresh token, a random or fixed code, whether the queue
-- of codes still holds a job of an id, one that waits or has failed, and four settings.
pub record AuthEnv : Type 0 where
  pub env : Env
  pub compare : String → String → Bool
  pub sign : ℕ → ℕ → String
  pub sha256 : String → String
  pub raw_refresh_token : String
  pub generated_code : String
  pub holds_job : ℕ → Bool
  pub login_limit : ℕ
  pub login_ttl : ℕ
  pub access_ttl : ℕ
  pub refresh_ttl : ℕ

pub record SendCode : Type 0 where
  pub owner_id : ℕ
  pub phone : String
  pub channel : Option DeliveryChannel

pub record VerifyCode : Type 0 where
  pub owner_id : ℕ
  pub phone : String
  pub code : String

-- The UUID that the text of `owner_id` spells, and the text, which may be in upper or lower case.
pub record LoginPassword : Type 0 where
  pub owner_id : ℕ
  pub owner_text : String
  pub login : String
  pub password : String

pub record AuthTokens : Type 0 where
  pub access_token : String
  pub refresh_token : String
  pub expires_in : ℕ

abbrev pub is_active_code : ℕ → ℕ → String → AuthCode → Bool
is_active_code now owner phone c =
    c.owner_id == owner && (str_eq c.phone phone && (is_none c.used_at && ltb now c.expires_at))

abbrev pub is_matching_code : ℕ → VerifyCode → AuthCode → Bool
is_matching_code now dto c = is_active_code now dto.owner_id dto.phone c && str_eq c.code dto.code

abbrev pub is_phone_of : ℕ → String → Courier → Bool
is_phone_of owner phone c = c.owner_id == owner && str_eq c.phone phone

abbrev pub is_telegram : DeliveryChannel → Bool
is_telegram telegram = true
is_telegram sms = false

abbrev pub new_code : AuthEnv → SendCode → Courier → AuthCode
new_code a dto c = record {
  id = a.env.uuid 0;
  owner_id = dto.owner_id;
  courier_id = some c.id;
  phone = dto.phone;
  code = a.generated_code;
  channel = or_else dto.channel sms;
  used_at = none;
  expires_at = a.env.app_now + 5 * 60 * 1000;
  created_at = a.env.db_now;
  updated_at = a.env.db_now;
}

-- `codeDeliveryService.enqueue`, whose job has the id of the code and is kept when it fails.
abbrev pub deliver : AuthEnv → SendCode → Courier → ℕ → String → Exec (Unit {0})
deliver a dto c id code =
    enqueue_once a.env (a.holds_job id)
      (Job.deliver_code id dto.phone (or_else dto.channel sms) code c.telegram_chat_id)

unfoldable pub send_found : AuthEnv → SendCode → Courier → Option AuthCode → Exec (Unit {0})
send_found a dto c (some x) = deliver a dto c x.id x.code
send_found a dto c none = do
  modify λ d. record d { auth_codes = d.auth_codes ++ new_code a dto c ∷ [] }
  deliver a dto c (new_code a dto c).id a.generated_code

unfoldable pub send_code : AuthEnv → SendCode → Exec (Unit {0})
send_code a dto = do
  c ←
      or_raise (← gets (λ d. find (is_phone_of dto.owner_id dto.phone) d.couriers))
        (HttpError.not_found Message.no_courier_account)
  raise_if (is_telegram (or_else dto.channel sms) && is_none (filled c.telegram_chat_id))
      (HttpError.bad_request Message.no_telegram_linked)
  existing ← gets (λ d. find (is_active_code a.env.app_now dto.owner_id dto.phone) d.auth_codes)
  send_found a dto c existing

abbrev pub new_refresh_token : AuthEnv → Courier → CourierRefreshToken
new_refresh_token a c = record {
  id = a.env.uuid 1;
  owner_id = c.owner_id;
  courier_id = c.id;
  token_hash = a.sha256 a.raw_refresh_token;
  revoked_at = none;
  expires_at = a.env.app_now + a.refresh_ttl * 1000;
  created_at = a.env.db_now;
}

unfoldable pub issue_tokens : AuthEnv → Courier → Exec AuthTokens
issue_tokens a c = do
  modify λ d. record d { refresh_tokens = d.refresh_tokens ++ new_refresh_token a c ∷ [] }
  pure (record {
    access_token = a.sign c.id c.owner_id;
    refresh_token = a.raw_refresh_token;
    expires_in = a.access_ttl;
  })

abbrev pub use_code : AuthEnv → AuthCode → AuthCode
use_code a c = record c { used_at = some a.env.app_now; updated_at = a.env.db_now }

-- The code's courier comes with the code; the code is marked as used before it is looked at.
unfoldable pub verify_code : AuthEnv → VerifyCode → Exec AuthTokens
verify_code a dto = do
  c ←
      or_raise (← gets (λ d. find (is_matching_code a.env.app_now dto) d.auth_codes))
        (HttpError.unauthorized Message.invalid_code)
  rider ← gets (λ d. courier_of d c.courier_id)
  modify λ d. record d { auth_codes = update (λ x. x.id == c.id) (use_code a) d.auth_codes }
  found ← or_raise rider (HttpError.internal Message.code_without_courier)
  issue_tokens a found

abbrev pub is_live_token : ℕ → ℕ → String → CourierRefreshToken → Bool
is_live_token now courier hash t =
    t.courier_id == courier
    && (str_eq t.token_hash hash && (is_none t.revoked_at && ltb now t.expires_at))

abbrev pub revoke : AuthEnv → CourierRefreshToken → CourierRefreshToken
revoke a t = record t { revoked_at = some a.env.app_now }

unfoldable pub revoke_found : AuthEnv → Option CourierRefreshToken → Exec (Unit {0})
revoke_found a none = pure tt
revoke_found a (some t) =
    modify λ d. record d { refresh_tokens = update (λ x. x.id == t.id) (revoke a) d.refresh_tokens }

unfoldable pub logout : AuthEnv → ℕ → String → Exec (Unit {0})
logout a courier refresh_token = do
  token ←
      gets
        (λ d. find (is_live_token a.env.app_now courier (a.sha256 refresh_token)) d.refresh_tokens)
  revoke_found a token

abbrev pub is_login_of : ℕ → String → Courier → Bool
is_login_of owner login c =
    c.owner_id == owner && elim c.login [ none ↦ false | some l ↦ str_eq l login ]

-- Whether the password is that of a courier with a password.
abbrev pub accepts : AuthEnv → String → Option Courier → Option Courier
accepts a password none = none
accepts a password (some c) = elim (filled c.password_hash) [
  | none ↦ none
  | some hash ↦ elim (a.compare password hash) [ true ↦ some c | false ↦ none ]
]

abbrev pub identity_of : LoginPassword → Identity
identity_of dto = record { owner_text = dto.owner_text; login = dto.login }

-- The answer, and the attempts and the world after it.
unfoldable pub login_checked :
    AuthEnv → LoginPassword → Option Courier → Store → World → Result AuthTokens × World × Store
login_checked a dto none s w = (
  err (HttpError.unauthorized Message.invalid_credentials),
  w,
  (record_failure a.env.app_now (identity_of dto) a.login_limit (a.login_ttl * 1000) s).1,
)
login_checked a dto (some c) s w =
    let (r, w') = issue_tokens a c w in (r, w', reset (identity_of dto) s)

unfoldable pub login_with_password :
    AuthEnv → LoginPassword → Store → World → Result AuthTokens × World × Store
login_with_password a dto s w =
    let b = is_blocked a.env.app_now (identity_of dto) a.login_limit s in
    elim b.0 [
      | true ↦ (err HttpError.too_many_requests, w, b.1)
      | false ↦
          login_checked a dto
            (accepts a dto.password (find (is_login_of dto.owner_id dto.login) w.db.couriers)) b.1 w
    ]
