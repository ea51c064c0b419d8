-- ===== src/Auth/Tests.antt =====
-- src/auth: codes and passwords, run on the sample.
use couriers_server_node.Auth.Codes.{
  IsOneTime, CodeRequest, handle_code, handle_codes, handle_code-IsOneTime, verify_code_once, sends,
  verifies,
}
use couriers_server_node.Auth.Service.{
  AuthEnv, SendCode, VerifyCode, LoginPassword, send_found, send_code, issue_tokens, verify_code,
  identity_of, login_checked, login_with_password,
}
use couriers_server_node.Auth.Throttle.{
  Login, run_logins, is_unauthorized, IsGuess, guesses_bounded,
}
use couriers_server_node.Auth.Tracker.{lookup, is_blocked, record_failure}
use couriers_server_node.Http.{Message, HttpError, ok, err}
use couriers_server_node.Prelude.{
  filter, find, count, update, ◌+◌, ◌≤◌, max, ◌≡◌, refl, ◌≢◌, none, List, ◌∷◌, arith, [],
}
use couriers_server_node.Samples.{auth, world}
use couriers_server_node.World.{World}

abbrev guess : LoginPassword
guess = record { owner_id = 1; owner_text = "a1"; login = "ab"; password = "coffee" }

abbrev logins : List Login
logins = (auth, guess) ∷ (auth, guess) ∷ (auth, guess) ∷ []

third_guess_refused :
    run_logins logins [] world
    ≡ err (HttpError.unauthorized Message.invalid_credentials)
      ∷ err (HttpError.unauthorized Message.invalid_credentials)
      ∷ err HttpError.too_many_requests
      ∷ []
unfolding run_logins login_with_password login_checked is_blocked record_failure find filter
third_guess_refused = refl

-- Another spelling of the owner has a count of its own.
respelled_guess :
    run_logins
      ((auth, guess) ∷ (auth, guess) ∷ (auth, record guess { owner_text = "A1" }) ∷ [])
      []
      world
    ≡ err (HttpError.unauthorized Message.invalid_credentials)
      ∷ err (HttpError.unauthorized Message.invalid_credentials)
      ∷ err (HttpError.unauthorized Message.invalid_credentials)
      ∷ []
unfolding run_logins login_with_password login_checked is_blocked record_failure find filter
respelled_guess = refl

is_guess : IsGuess (identity_of guess) 2 60000 (1000001 + 60000) world (auth, guess)
unfolding find
is_guess = record {
  identity = refl;
  same_limit = refl;
  same_ttl = refl;
  in_time = omega arith;
  wrong = refl;
}

no_record : lookup (identity_of guess) [] ≡ none
unfolding find
no_record = refl

guesses_bounded_example : count is_unauthorized (run_logins logins [] world) ≤ max 2 1
guesses_bounded_example =
    guesses_bounded (identity_of guess) 2 60000 auth guess ((auth, guess) ∷ (auth, guess) ∷ []) []
      world no_record (is_guess, (is_guess, (is_guess, tt)))

abbrev ask : SendCode
ask = record { owner_id = 1; phone = "+10000000"; channel = none }

abbrev enter : VerifyCode
enter = record { owner_id = 1; phone = "+10000000"; code = "123456" }

sample-IsOneTime : IsOneTime 0 world.db
unfolding count
sample-IsOneTime = record { active = λ owner phone. omega arith }

handle_code-IsOneTime_example : IsOneTime 1000001 (handle_code auth (sends ask) world).db
handle_code-IsOneTime_example =
    handle_code-IsOneTime auth (sends ask) 0 world (omega arith) sample-IsOneTime

abbrev code_sent : World
code_sent = handle_code auth (sends ask) world

code_accepted :
    (verify_code auth enter code_sent).0
    ≡ ok (record { access_token = "jwt"; refresh_token = "refresh"; expires_in = 900 })
unfolding handle_code send_code send_found verify_code issue_tokens find update
code_accepted = refl

not_refused :
    (verify_code auth enter code_sent).0 ≢ err (HttpError.unauthorized Message.invalid_code)
not_refused e = absurd (ground (arith, code_accepted))

-- Another code is sent, and the old one is tried.
abbrev between : List (AuthEnv × CodeRequest)
between = (record auth { generated_code = "654321" }, sends ask) ∷ (auth, verifies enter) ∷ []

verify_code_once_example :
    (verify_code auth enter (handle_codes between (verify_code auth enter code_sent).1)).0
    ≡ err (HttpError.unauthorized Message.invalid_code)
verify_code_once_example =
    verify_code_once auth auth enter between code_sent handle_code-IsOneTime_example (omega arith)
      (refl, (tt, tt)) not_refused
