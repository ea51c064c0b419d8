-- ===== src/Auth/Throttle.antt =====
-- src/auth: how many passwords the tracker lets through to the comparison.
use couriers_server_node.Auth.Service.{
  AuthEnv, LoginPassword, AuthTokens, is_login_of, accepts, identity_of, login_checked,
  login_with_password,
}
use couriers_server_node.Auth.Tracker.{
  Identity, AttemptRecord, Store, is_key, lookup, reset, set_record, is_blocked, record_failure,
}
use couriers_server_node.Http.{Message, HttpError, Result, err}
use couriers_server_node.Prelude.{
  ltb, leb, Bool-cases, find, count, All, find_hit, ℕ, suc, ◌+◌, ◌*◌, ◌≤◌, ◌<◌, max, ◌≡◌, refl, ap,
  ◌∙◌, ◌⊎◌, inl, inr, Bool, true, false, none, some, List, ◌∷◌, arith, str_eq_iff, [],
}
use couriers_server_node.World.{World}

abbrev pub Login : Type 0
Login = AuthEnv × LoginPassword

-- The answers to logins, one after the other.
unfoldable pub run_logins : List Login → Store → World → List (Result AuthTokens)
run_logins [] s w = []
run_logins ((a, dto) ∷ logins) s w =
    let (r, w', s') = login_with_password a dto s w in r ∷ run_logins logins s' w'

abbrev pub is_unauthorized : Result AuthTokens → Bool
is_unauthorized (err (HttpError.unauthorized _)) = true
is_unauthorized _ = false

-- A wrong password under the key, at a time not after the deadline.
pub record IsGuess (k : Identity) (limit ttl deadline : ℕ) (w : World) (l : Login) : Type 0 where
  pub identity : identity_of l.1 ≡ k
  pub same_limit : l.0.login_limit ≡ limit
  pub same_ttl : l.0.login_ttl * 1000 ≡ ttl
  pub in_time : l.0.env.app_now ≤ deadline
  pub wrong :
      accepts l.0 l.1.password (find (is_login_of l.1.owner_id l.1.login) w.db.couriers) ≡ none

is_key_refl : (r : AttemptRecord) → is_key r.key r ≡ true
is_key_refl r = ground (
  arith,
  (str_eq_iff r.key.owner_text r.key.owner_text).1 refl,
  (str_eq_iff r.key.login r.key.login).1 refl,
)

lookup-set_record : (r : AttemptRecord) (s : Store) → lookup r.key (set_record r s) ≡ some r
lookup-set_record r s = find_hit (is_key r.key) r (reset r.key s) (is_key_refl r)

-- The answer and the attempts after a wrong password.
abbrev guessed : ℕ → Identity → ℕ → ℕ → Store → World → Result AuthTokens × World × Store
guessed now k limit ttl s w =
    let b = is_blocked now k limit s in
    elim b.0 [
      | true ↦ (err HttpError.too_many_requests, w, b.1)
      | false ↦ (
        err (HttpError.unauthorized Message.invalid_credentials),
        w,
        (record_failure now k limit ttl b.1).1,
      )
    ]

login-guess :
    (k : Identity) (limit ttl deadline : ℕ) (a : AuthEnv) (dto : LoginPassword) (s : Store)
    (w : World)
    → IsGuess k limit ttl deadline w (a, dto)
    → login_with_password a dto s w ≡ guessed a.env.app_now k limit ttl s w
unfolding login_with_password login_checked
login-guess k limit ttl deadline a dto s w g =
    elim (Bool-cases (is_blocked a.env.app_now (identity_of dto) a.login_limit s).0) [
      | inl b ↦ ground (arith, g.wrong, g.identity, g.same_limit, g.same_ttl)
      | inr b ↦ ground (arith, g.wrong, g.identity, g.same_limit, g.same_ttl)
    ]

-- What is remembered of the identity while the window lasts.
record Remembers (k : Identity) (deadline f : ℕ) (s : Store) : Type 0 where
  kept : AttemptRecord
  found : lookup k s ≡ some kept
  lasts : deadline ≤ kept.reset_at
  failed : kept.failures ≡ f

guessed-blocked :
    (k : Identity) (now limit ttl deadline f : ℕ) (s : Store) (w : World)
    → Remembers k deadline f s
    → now ≤ deadline
    → limit ≤ f
    → guessed now k limit ttl s w ≡ (err HttpError.too_many_requests, w, s)
unfolding is_blocked
guessed-blocked k now limit ttl deadline f s w m t l =
    let e : ltb m.kept.reset_at now ≡ false = ground (arith, m.lasts) in
    let b : leb limit m.kept.failures ≡ true = ground (arith, m.failed) in
    ground (arith, m.found, e, b)

record Counted (k : Identity) (now limit ttl deadline f : ℕ) (s : Store) (w : World) : Type 0 where
  after : Store
  answer :
      guessed now k limit ttl s w
      ≡ (err (HttpError.unauthorized Message.invalid_credentials), w, after)
  remembers : Remembers k deadline (suc f) after

guessed-Counted :
    (k : Identity) (now limit ttl deadline f : ℕ) (s : Store) (w : World)
    → Remembers k deadline f s
    → now ≤ deadline
    → f < limit
    → Counted k now limit ttl deadline f s w
unfolding is_blocked record_failure
guessed-Counted k now limit ttl deadline f s w m t l =
    let e : ltb m.kept.reset_at now ≡ false = ground (arith, m.lasts) in
    let b : leb limit m.kept.failures ≡ false = ground (arith, m.failed) in
    let r : AttemptRecord = record {
      key = k;
      failures = suc m.kept.failures;
      reset_at = m.kept.reset_at;
    } in
    record {
      after = set_record r s;
      answer = ground (arith, m.found, e, b);
      remembers = record {
        kept = r;
        found = lookup-set_record r s;
        lasts = m.lasts;
        failed = ap (λ n. suc n) m.failed;
      };
    }

remembered_guesses :
    (k : Identity) (limit ttl deadline f : ℕ) (logins : List Login) (s : Store) (w : World)
    → Remembers k deadline f s
    → All (IsGuess k limit ttl deadline w) logins
    → count is_unauthorized (run_logins logins s w) + f ≤ max limit f
unfolding run_logins count
remembered_guesses k limit ttl deadline f [] s w m g = omega arith
remembered_guesses k limit ttl deadline f ((a, dto) ∷ logins) s w m g = elim (ℕ_cases limit f) [
  | inl l ↦
      let e =
        login-guess k limit ttl deadline a dto s w g.0
        ∙ guessed-blocked k a.env.app_now limit ttl deadline f s w m (g.0).in_time l in
      rw e (remembered_guesses k limit ttl deadline f logins s w m g.1)
  | inr l ↦
      let c = guessed-Counted k a.env.app_now limit ttl deadline f s w m (g.0).in_time l in
      let e = login-guess k limit ttl deadline a dto s w g.0 ∙ c.answer in
      rw e (
        omega (
          arith,
          remembered_guesses k limit ttl deadline (suc f) logins c.after w c.remembers g.1,
          l,
        ))
]
  where
    ℕ_cases : (m n : ℕ) → (m ≤ n) ⊎ (n < m)
    ℕ_cases m n = ground arith

first_failure :
    (k : Identity) (now limit ttl : ℕ) (s : Store) (w : World)
    → lookup k s ≡ none
    → Counted k now limit ttl (now + ttl) 0 s w
unfolding is_blocked record_failure
first_failure k now limit ttl s w n =
    let r : AttemptRecord = record { key = k; failures = 1; reset_at = now + ttl } in
    record {
      after = set_record r s;
      answer = ground (arith, n);
      remembers = record {
        kept = r;
        found = lookup-set_record r s;
        lasts = omega arith;
        failed = refl;
      };
    }

-- Of any sequence of logins with wrong passwords under one key, the owner's id in one spelling and the
-- login, all of them within the window that the first opens, at most `THROTTLE_LOGIN_LIMIT` reach the comparison and are answered 401
-- (one, if the limit is 0); nothing was remembered of the identity before.
pub guesses_bounded :
    (k : Identity) (limit ttl : ℕ) (a : AuthEnv) (dto : LoginPassword) (logins : List Login)
    (s : Store) (w : World)
    → lookup k s ≡ none
    → All (IsGuess k limit ttl (a.env.app_now + ttl) w) ((a, dto) ∷ logins)
    → count is_unauthorized (run_logins ((a, dto) ∷ logins) s w) ≤ max limit 1
unfolding run_logins count
guesses_bounded k limit ttl a dto logins s w n g =
    let c = first_failure k a.env.app_now limit ttl s w n in
    let e = login-guess k limit ttl (a.env.app_now + ttl) a dto s w g.0 ∙ c.answer in
    rw e (
      omega (
        arith,
        remembered_guesses k limit ttl (a.env.app_now + ttl) 1 logins c.after w c.remembers g.1,
      ))
