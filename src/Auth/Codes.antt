-- ===== src/Auth/Codes.antt =====
-- src/auth/courier-auth.service.ts: one-time codes, sent and verified.
use couriers_server_node.Auth.Service.{
  AuthEnv, SendCode, VerifyCode, is_active_code, is_matching_code, is_phone_of, is_telegram,
  new_code, send_found, send_code, issue_tokens, use_code, verify_code,
}
use couriers_server_node.Entities.{AuthCode, Courier, sms}
use couriers_server_node.Http.{Message, HttpError, err}
use couriers_server_node.Lifecycle.Calls.{courier_of, filled}
use couriers_server_node.Prelude.{
  ◌==◌, ==_refl, is_none, or_else, Bool-cases, Option-cases, find, count, update, All-of,
  find_holds, find-none-count, count-update-le, count_mono, count_concat, found-count, All,
  count-update-lt, ℕ, ◌≤◌, String, ◌≡◌, subst, ◌≢◌, ◌⊎◌, inl, inr, true, false, ◌&&◌, none, some,
  List, ◌∷◌, ◌++◌, arith, str_eq, str_eq_iff, [],
}
use couriers_server_node.World.{Db, World}

-- At most one code of a phone of a tenant is active at `now`.
pub record IsOneTime (now : ℕ) (d : Db) : Type 0 where
  pub active :
      (owner : ℕ) (phone : String) → count (is_active_code now owner phone) d.auth_codes ≤ 1

later_active :
    (now later owner : ℕ) (phone : String) (cs : List AuthCode)
    → now ≤ later
    → count (is_active_code later owner phone) cs ≤ count (is_active_code now owner phone) cs
later_active now later owner phone cs l =
    count_mono (is_active_code later owner phone) (is_active_code now owner phone) cs
      (λ c e. ground arith)

used_active :
    (a : AuthEnv) (id now owner : ℕ) (phone : String) (cs : List AuthCode)
    → count (is_active_code now owner phone) (update (λ x. x.id == id) (use_code a) cs)
      ≤ count (is_active_code now owner phone) cs
used_active a id now owner phone cs =
    count-update-le (is_active_code now owner phone) (λ x. x.id == id) (use_code a) cs
      (All-of _ (λ x p q. absurd (ground arith)) cs)

sent_active :
    (a : AuthEnv) (dto : SendCode) (c : Courier) (cs : List AuthCode)
    → find (is_active_code a.env.app_now dto.owner_id dto.phone) cs ≡ none
    → ((owner : ℕ) (phone : String) → count (is_active_code a.env.app_now owner phone) cs ≤ 1)
    → (owner : ℕ) (phone : String)
    → count (is_active_code a.env.app_now owner phone) (cs ++ new_code a dto c ∷ []) ≤ 1
sent_active a dto c cs n h owner phone =
    let p = is_active_code a.env.app_now owner phone in
    elim (Bool-cases (p (new_code a dto c))) [
      | inl e ↦
          let k : dto.owner_id ≡ owner = ground arith in
          let q : dto.phone ≡ phone = (str_eq_iff dto.phone phone).0 (ground arith) in
          let z : count p cs ≡ 0 = find-none-count p cs (
            subst (λ m. find (is_active_code a.env.app_now m phone) cs ≡ none) k
              (subst (λ m. find (is_active_code a.env.app_now dto.owner_id m) cs ≡ none) q n)) in
          rw (count_concat p cs (new_code a dto c), e) (omega (arith, z))
      | inr e ↦ rw (count_concat p cs (new_code a dto c), e) (h owner phone)
    ]

send_code-codes :
    (a : AuthEnv) (dto : SendCode) (w : World)
    → ((send_code a dto w).1.db.auth_codes ≡ w.db.auth_codes)
      ⊎ ((c : Courier) × (find (is_active_code a.env.app_now dto.owner_id dto.phone) w.db.auth_codes
            ≡ none)
          × ((send_code a dto w).1.db.auth_codes ≡ w.db.auth_codes ++ new_code a dto c ∷ []))
unfolding send_code send_found
send_code-codes a dto w =
    elim (Option-cases (find (is_phone_of dto.owner_id dto.phone) w.db.couriers)) [
      | inl e ↦ inl (ground arith)
      | inr (c, e) ↦
          elim (Bool-cases
            (is_telegram (or_else dto.channel sms) && is_none (filled c.telegram_chat_id))) [
              | inl f ↦ inl (ground arith)
              | inr f ↦
                  elim (Option-cases
                    (find (is_active_code a.env.app_now dto.owner_id dto.phone) w.db.auth_codes)) [
                      | inl g ↦ inr (c, g, ground arith)
                      | inr (x, g) ↦ inl (ground arith)
                    ]
            ]
    ]

verify_code-codes :
    (a : AuthEnv) (dto : VerifyCode) (w : World)
    → (((verify_code a dto w).0 ≡ err (HttpError.unauthorized Message.invalid_code))
        × ((verify_code a dto w).1 ≡ w))
      ⊎ ((c : AuthCode) × (find (is_matching_code a.env.app_now dto) w.db.auth_codes ≡ some c)
          × ((verify_code a dto w).1.db.auth_codes
              ≡ update (λ x. x.id == c.id) (use_code a) w.db.auth_codes))
unfolding verify_code issue_tokens
verify_code-codes a dto w =
    elim (Option-cases (find (is_matching_code a.env.app_now dto) w.db.auth_codes)) [
      | inl e ↦ inl (ground arith)
      | inr (c, e) ↦ inr (
        c,
        e,
        elim (Option-cases (courier_of w.db c.courier_id)) [
          | inl f ↦ ground arith
          | inr (r, f) ↦ ground arith
        ],
      )
    ]

pub data CodeRequest : Type 0 where
  sends : SendCode → CodeRequest
  verifies : VerifyCode → CodeRequest

unfoldable pub handle_code : AuthEnv → CodeRequest → World → World
handle_code a (sends dto) w = (send_code a dto w).1
handle_code a (verifies dto) w = (verify_code a dto w).1

-- Sending a code and verifying one, whatever they answer, keep at most one active code of each phone
-- of a tenant, if that was so at a moment not later than the request's.
pub handle_code-IsOneTime :
    (a : AuthEnv) (r : CodeRequest) (now : ℕ) (w : World)
    → now ≤ a.env.app_now
    → IsOneTime now w.db
    → IsOneTime a.env.app_now (handle_code a r w).db
unfolding handle_code
handle_code-IsOneTime a (sends dto) now w l u = record {
  active = λ owner phone.
      let h : (o : ℕ) (p : String) → count (is_active_code a.env.app_now o p) w.db.auth_codes ≤ 1 =
        λ o p. omega (arith, later_active now a.env.app_now o p w.db.auth_codes l, u.active o p) in
      elim (send_code-codes a dto w) [
        | inl e ↦ rw e (h owner phone)
        | inr (c, n, e) ↦ rw e (sent_active a dto c w.db.auth_codes n h owner phone)
      ];
}
handle_code-IsOneTime a (verifies dto) now w l u = record {
  active = λ owner phone.
      let h = later_active now a.env.app_now owner phone w.db.auth_codes l in
      elim (verify_code-codes a dto w) [
        | inl (_, e) ↦ rw e (omega (arith, h, u.active owner phone))
        | inr (c, _, e) ↦ rw e (
            omega (
              arith,
              h,
              u.active owner phone,
              used_active a c.id a.env.app_now owner phone w.db.auth_codes,
            ))
      ];
}

none_left :
    (a : AuthEnv) (dto : VerifyCode) (c : AuthCode) (cs : List AuthCode)
    → find (is_matching_code a.env.app_now dto) cs ≡ some c
    → count (is_active_code a.env.app_now dto.owner_id dto.phone) cs ≤ 1
    → count
        (is_active_code a.env.app_now dto.owner_id dto.phone)
        (update (λ x. x.id == c.id) (use_code a) cs)
      ≡ 0
none_left a dto c cs e h =
    let q = is_active_code a.env.app_now dto.owner_id dto.phone in
    let both : (c.id == c.id && q c) ≡ true =
      ground (arith, ==_refl c.id, find_holds (is_matching_code a.env.app_now dto) cs c e) in
    let n =
      found-count (is_matching_code a.env.app_now dto) (λ x. x.id == c.id && q x) cs c e both in
    let l = count-update-lt q (λ x. x.id == c.id) (use_code a) cs (λ x p. ground arith) n in
    omega (arith, l, h)

unfoldable pub handle_codes : List (AuthEnv × CodeRequest) → World → World
handle_codes [] w = w
handle_codes ((a, r) ∷ rs) w = handle_codes rs (handle_code a r w)

-- A request that generates another code.
abbrev pub OtherCode : String → AuthEnv × CodeRequest → Type 0
OtherCode code (a, sends dto) = str_eq a.generated_code code ≡ false
OtherCode code (a, verifies dto) = Unit

-- The number of codes that the one presented matches.
abbrev matching : ℕ → VerifyCode → World → ℕ
matching now dto w = count (is_matching_code now dto) w.db.auth_codes

used_matching :
    (a : AuthEnv) (id now : ℕ) (dto : VerifyCode) (cs : List AuthCode)
    → count (is_matching_code now dto) (update (λ x. x.id == id) (use_code a) cs)
      ≤ count (is_matching_code now dto) cs
used_matching a id now dto cs =
    count-update-le (is_matching_code now dto) (λ x. x.id == id) (use_code a) cs
      (All-of _ (λ x p q. absurd (ground arith)) cs)

-- A request that generates another code brings the one presented no match.
handle_code-matching :
    (a : AuthEnv) (r : CodeRequest) (now : ℕ) (dto : VerifyCode) (w : World)
    → OtherCode dto.code (a, r)
    → matching now dto w ≡ 0
    → matching now dto (handle_code a r w) ≡ 0
unfolding handle_code
handle_code-matching a (sends ask) now dto w o z = elim (send_code-codes a ask w) [
  | inl e ↦ rw e z
  | inr (c, n, e) ↦
      let other : is_matching_code now dto (new_code a ask c) ≡ false = ground (arith, o) in
      rw (e, count_concat (is_matching_code now dto) w.db.auth_codes (new_code a ask c), other) z
]
handle_code-matching a (verifies other) now dto w o z = elim (verify_code-codes a other w) [
  | inl (_, e) ↦ rw e z
  | inr (c, _, e) ↦ rw e (omega (arith, z, used_matching a c.id now dto w.db.auth_codes))
]

handle_codes-matching :
    (rs : List (AuthEnv × CodeRequest)) (now : ℕ) (dto : VerifyCode) (w : World)
    → All (OtherCode dto.code) rs
    → matching now dto w ≡ 0
    → matching now dto (handle_codes rs w) ≡ 0
unfolding handle_codes
handle_codes-matching [] now dto w o z = z
handle_codes-matching ((a, r) ∷ rs) now dto w o z =
    handle_codes-matching rs now dto (handle_code a r w) o.1
      (handle_code-matching a r now dto w o.0 z)

-- Once a code was presented and not answered with a 401 for an invalid code, none matches it.
none_matches :
    (a : AuthEnv) (later : ℕ) (dto : VerifyCode) (w : World)
    → IsOneTime a.env.app_now w.db
    → a.env.app_now ≤ later
    → (verify_code a dto w).0 ≢ err (HttpError.unauthorized Message.invalid_code)
    → matching later dto (verify_code a dto w).1 ≡ 0
none_matches a later dto w u l n = elim (verify_code-codes a dto w) [
  | inl (e, _) ↦ absurd (n e)
  | inr (c, e, f) ↦ rw f (
      let cs = update (λ x. x.id == c.id) (use_code a) w.db.auth_codes in
      let fewer =
        count_mono (is_matching_code later dto) (is_active_code later dto.owner_id dto.phone) cs
          (λ x h. ground arith) in
      omega (
        arith,
        none_left a dto c w.db.auth_codes e (u.active dto.owner_id dto.phone),
        later_active a.env.app_now later dto.owner_id dto.phone cs l,
        fewer,
      ))
]

-- A code that was presented and accepted, or marked as used before the request failed, is refused with 401 whenever
-- it is presented again, at the same time or later, whatever requests for codes and with codes came in between, as
-- long as none of them generates the same code anew; at most one code of each phone was active at first.
pub verify_code_once :
    (a a' : AuthEnv) (dto : VerifyCode) (rs : List (AuthEnv × CodeRequest)) (w : World)
    → IsOneTime a.env.app_now w.db
    → a.env.app_now ≤ a'.env.app_now
    → All (OtherCode dto.code) rs
    → (verify_code a dto w).0 ≢ err (HttpError.unauthorized Message.invalid_code)
    → (verify_code a' dto (handle_codes rs (verify_code a dto w).1)).0
      ≡ err (HttpError.unauthorized Message.invalid_code)
verify_code_once a a' dto rs w u l o n =
    let w' = handle_codes rs (verify_code a dto w).1 in
    let z : matching a'.env.app_now dto w' ≡ 0 =
      handle_codes-matching rs a'.env.app_now dto (verify_code a dto w).1 o
        (none_matches a a'.env.app_now dto w u l n) in
    elim (verify_code-codes a' dto w') [
      | inl (e, _) ↦ e
      | inr (c, e, _) ↦ absurd (
          found-count (is_matching_code a'.env.app_now dto) (is_matching_code a'.env.app_now dto)
            w'.db.auth_codes c e (find_holds (is_matching_code a'.env.app_now dto) _ c e) z)
    ]
