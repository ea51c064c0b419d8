-- ===== src/Payouts/Ledger.antt =====
-- src/payouts/payouts.service.ts: the three requests that write, and the tables between them.
use couriers_server_node.Entities.{AuthUser, PayoutPeriod, Payout, closed}
use couriers_server_node.Http.{Message, HttpError, ok, err}
use couriers_server_node.Payouts.Service.{
  CreatePayoutPeriod, CreatePayout, is_period, find_period_or_fail, new_period, create_period,
  close_period_row, close_period, is_payout_of, new_payout, stored_payout, insert_payout,
  record_payout,
}
use couriers_server_node.Prelude.{
  Bool-cases, Option-cases, find, count, update, any, All, All-update, All-of, All-mono, All-concat,
  find-update, any-count, count_concat, find-append, ℕ, ◌≤◌, ◌≡◌, refl, sym, subst, ◌≢◌, ◌⊎◌, inl,
  inr, true, false, Option, none, some, List, ◌∷◌, ◌++◌, arith, [],
}
use couriers_server_node.Shifts.Service.{is_opened, is_courier}
use couriers_server_node.World.{Db, World, Env, catch_unique}

pub data PayoutRequest : Type 0 where
  creates : AuthUser → CreatePayoutPeriod → PayoutRequest
  closes_period : (owner id : ℕ) → PayoutRequest
  records : (owner id : ℕ) → CreatePayout → PayoutRequest

unfoldable pub handle_payout : Env → PayoutRequest → World → World
handle_payout env (creates user dto) w = (create_period env user dto w).1
handle_payout env (closes_period owner id) w = (close_period env owner id w).1
handle_payout env (records owner id dto) w = (record_payout env owner id dto w).1

abbrev pub period_of : Db → ℕ → ℕ → Option PayoutPeriod
period_of d id owner = find (is_period id owner) d.payout_periods

-- The period of a payout is there and is closed.
abbrev pub IsBacked : List PayoutPeriod → Payout → Type 0
IsBacked ps p =
    (q : PayoutPeriod) × (find (is_period p.payout_period_id p.owner_id) ps ≡ some q)
    × (q.status ≡ closed)

pub record IsSound (d : Db) : Type 0 where
  pub once : (period courier : ℕ) → count (is_payout_of period courier) d.payouts ≤ 1
  pub backed : All (IsBacked d.payout_periods) d.payouts
  pub dated : All (λ p. p.start_date ≤ p.end_date) d.payout_periods

pub create_period-db :
    (env : Env) (user : AuthUser) (dto : CreatePayoutPeriod) (w : World)
    → ((create_period env user dto w).1.db ≡ w.db)
      ⊎ ((dto.start_date ≤ dto.end_date)
          × ((create_period env user dto w).1.db ≡ record (w.db) {
            payout_periods = w.db.payout_periods ++ new_period env user dto ∷ [];
          }))
unfolding create_period
create_period-db env user dto w = ground arith

pub close_period-db :
    (env : Env) (owner id : ℕ) (w : World)
    → ((close_period env owner id w).1.db ≡ w.db)
      ⊎ ((close_period env owner id w).1.db ≡ record (w.db) {
        payout_periods = update (is_period id owner) (close_period_row env) w.db.payout_periods;
      })
unfolding close_period find_period_or_fail
close_period-db env owner id w = ground arith

-- What `recordPayout` has checked when it writes.
pub record CanRecord (d : Db) (owner id : ℕ) (dto : CreatePayout) (p : PayoutPeriod) : Type 0 where
  pub found : period_of d id owner ≡ some p
  pub is_closed : p.status ≡ closed
  pub known : find (is_courier dto.courier_id owner) d.couriers ≢ none
  pub unpaid : any (is_payout_of id dto.courier_id) d.payouts ≡ false

abbrev pub recorded_db : Env → ℕ → ℕ → CreatePayout → Db → Db
recorded_db env owner id dto d = record d {
  payouts = d.payouts ++ stored_payout env (new_payout env owner id dto) ∷ [];
}

-- `recordPayout` answers an error and changes nothing, or the period is a closed one of the tenant,
-- the courier is the tenant's and not yet paid in the period, and then it adds the payout that it
-- answers, its amount to the places of its column, and changes nothing else.
pub record_payout-db :
    (env : Env) (owner id : ℕ) (dto : CreatePayout) (w : World)
    → (((record_payout env owner id dto w).1 ≡ w)
        × ((e : HttpError) × ((record_payout env owner id dto w).0 ≡ err e)))
      ⊎ ((p : PayoutPeriod) × CanRecord w.db owner id dto p
          × (record_payout env owner id dto w ≡ (
            ok (new_payout env owner id dto),
            record w { db = recorded_db env owner id dto w.db },
          )))
unfolding record_payout find_period_or_fail insert_payout catch_unique
record_payout-db env owner id dto w = elim (Option-cases (period_of w.db id owner)) [
  | inl e ↦ inl (ground arith, (HttpError.not_found Message.period_not_found, ground arith))
  | inr (p, e) ↦ elim (Bool-cases (is_opened p.status)) [
    | inl f ↦ inl (ground arith, (HttpError.unprocessable Message.period_not_closed, ground arith))
    | inr f ↦ elim (Option-cases (find (is_courier dto.courier_id owner) w.db.couriers)) [
      | inl g ↦ inl (ground arith, (HttpError.not_found Message.courier_not_found, ground arith))
      | inr (c, g) ↦ elim (Bool-cases (any (is_payout_of id dto.courier_id) w.db.payouts)) [
        | inl h ↦
            inl (ground arith, (HttpError.conflict Message.courier_already_paid, ground arith))
        | inr h ↦ inr (
          p,
          record { found = e; is_closed = ground arith; known = λ q. cc; unpaid = h },
          ground arith,
        )
      ]
    ]
  ]
]

IsBacked-append : (ps qs : List PayoutPeriod) (p : Payout) → IsBacked ps p → IsBacked (ps ++ qs) p
IsBacked-append ps qs p (q, e, c) =
    (q, find-append (is_period p.payout_period_id p.owner_id) ps qs q e, c)

IsBacked-close :
    (env : Env) (owner id : ℕ) (ps : List PayoutPeriod) (p : Payout)
    → IsBacked ps p
    → IsBacked (update (is_period id owner) (close_period_row env) ps) p
IsBacked-close env owner id ps p (q, e, c) =
    let u =
      find-update (is_period p.payout_period_id p.owner_id) (is_period id owner)
        (close_period_row env) ps (λ x. refl) in
    elim (Bool-cases (is_period id owner q)) [
      | inl h ↦ (close_period_row env q, ground (arith, u, e, h), refl)
      | inr h ↦ (q, ground (arith, u, e, h), c)
    ]

abbrev IsDated : PayoutPeriod → Type 0
IsDated p = p.start_date ≤ p.end_date

created-IsSound :
    (env : Env) (user : AuthUser) (dto : CreatePayoutPeriod) (d : Db)
    → dto.start_date ≤ dto.end_date
    → IsSound d
    → IsSound (record d { payout_periods = d.payout_periods ++ new_period env user dto ∷ [] })
created-IsSound env user dto d l s = record {
  once = s.once;
  backed =
      All-mono (IsBacked d.payout_periods)
        (IsBacked (d.payout_periods ++ new_period env user dto ∷ []))
        (IsBacked-append d.payout_periods (new_period env user dto ∷ [])) d.payouts s.backed;
  dated = All-concat IsDated d.payout_periods s.dated l;
}

closed-IsSound :
    (env : Env) (owner id : ℕ) (d : Db)
    → IsSound d
    → IsSound (record d {
      payout_periods = update (is_period id owner) (close_period_row env) d.payout_periods;
    })
closed-IsSound env owner id d s = record {
  once = s.once;
  backed =
      All-mono (IsBacked d.payout_periods)
        (IsBacked (update (is_period id owner) (close_period_row env) d.payout_periods))
        (IsBacked-close env owner id d.payout_periods) d.payouts s.backed;
  dated =
      All-update IsDated (is_period id owner) (close_period_row env) d.payout_periods
        (All-of (λ x. is_period id owner x ≡ true → IsDated x → IsDated (close_period_row env x))
          (λ x e l. l) d.payout_periods)
        s.dated;
}

once-recorded :
    (env : Env) (owner id : ℕ) (dto : CreatePayout) (ps : List Payout)
    → any (is_payout_of id dto.courier_id) ps ≡ false
    → ((period courier : ℕ) → count (is_payout_of period courier) ps ≤ 1)
    → (period courier : ℕ)
    → count
        (is_payout_of period courier)
        (ps ++ stored_payout env (new_payout env owner id dto) ∷ [])
      ≤ 1
once-recorded env owner id dto ps h o period courier =
    let c =
      count_concat (is_payout_of period courier) ps
        (stored_payout env (new_payout env owner id dto)) in
    let z = any-count (is_payout_of id dto.courier_id) ps h in
    let l = o period courier in ground (arith, c, z, l)

recorded-IsSound :
    (env : Env) (owner id : ℕ) (dto : CreatePayout) (d : Db) (p : PayoutPeriod)
    → CanRecord d owner id dto p
    → IsSound d
    → IsSound (recorded_db env owner id dto d)
recorded-IsSound env owner id dto d p c s = record {
  once = once-recorded env owner id dto d.payouts c.unpaid s.once;
  backed = All-concat (IsBacked d.payout_periods) d.payouts s.backed (p, c.found, c.is_closed);
  dated = s.dated;
}

-- Creating a period, closing one and recording a payout, whatever they answer, keep the ledger
-- sound: at most one payout per period and courier, every payout in a closed period of its tenant,
-- and every period's dates in order.
pub handle_payout-IsSound :
    (env : Env) (r : PayoutRequest) (w : World) → IsSound w.db → IsSound (handle_payout env r w).db
unfolding handle_payout
handle_payout-IsSound env (creates user dto) w s = elim (create_period-db env user dto w) [
  | inl e ↦ subst IsSound (sym e) s
  | inr (l, e) ↦ subst IsSound (sym e) (created-IsSound env user dto w.db l s)
]
handle_payout-IsSound env (closes_period owner id) w s = elim (close_period-db env owner id w) [
  | inl e ↦ subst IsSound (sym e) s
  | inr e ↦ subst IsSound (sym e) (closed-IsSound env owner id w.db s)
]
handle_payout-IsSound env (records owner id dto) w s = elim (record_payout-db env owner id dto w) [
  | inl (e, f) ↦ subst (λ v. IsSound (v.db)) (sym e) s
  | inr (p, c, e) ↦
      subst (λ v. IsSound (v.1.db)) (sym e) (recorded-IsSound env owner id dto w.db p c s)
]
