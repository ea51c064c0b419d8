-- ===== src/Lifecycle/Effects.antt =====
-- What `claim`, `advanceStatus` and `cancel` do to the database: nothing, or one abstract change of
-- it under the conditions that the code checks.
use couriers_server_node.Entities.{AuthUser, OrderStatus, Order, Transition, created, assigned}
use couriers_server_node.Lifecycle.Calls.{
  load, load_order, audit_entry, append_audit_entry, enqueue_callback_if_needed,
}
use couriers_server_node.Lifecycle.Handlers.{
  claim_check, claim_refused, claim_granted, claim_commit, claim, advance_check, cancel_check,
}
use couriers_server_node.Lifecycle.Rules.{
  is_order, is_open_shift, is_active_order, is_claimable, set_claimed,
}
use couriers_server_node.Prelude.{
  ◌==◌, if◌then◌else◌, Bool-cases, Option-cases, find, count, update, find_holds, update_none, ℕ,
  ◌≡◌, ◌≢◌, ◌⊎◌, inl, inr, none, some, ◌∷◌, ◌++◌, arith, [],
}
use couriers_server_node.World.{Db, World, Env}

-- An audit entry, if the order is there to be read again.
abbrev pub audited : Env → ℕ → AuthUser → Transition → Db → Db
audited env id user change d = elim (load d id user.owner_id) [
  | none ↦ d
  | some o ↦ record d { audit_entries = d.audit_entries ++ audit_entry env id user change ∷ [] }
]

enqueue_callback-db :
    (env : Env) (o : Order) (s : OrderStatus) (w : World)
    → (enqueue_callback_if_needed env o s w).1.db ≡ w.db
unfolding enqueue_callback_if_needed
enqueue_callback-db env o s w = ground arith

claim_check-db : (user : AuthUser) (w : World) → (claim_check user w).1 ≡ w
unfolding claim_check
claim_check-db user w = ground arith

advance_check-db :
    (id : ℕ) (t : OrderStatus) (user : AuthUser) (w : World) → (advance_check id t user w).1 ≡ w
unfolding advance_check load_order
advance_check-db id t user w = ground arith

cancel_check-db : (id : ℕ) (user : AuthUser) (w : World) → (cancel_check id user w).1 ≡ w
unfolding cancel_check load_order
cancel_check-db id user w = ground arith

-- The order that is read has the key that was asked for.
pub load_key :
    (d : Db) (id owner : ℕ) (o : Order)
    → load d id owner ≡ some o
    → (o.id ≡ id) × (o.owner_id ≡ owner)
load_key d id owner o e = ground (arith, find_holds (is_order id owner) d.orders o e)

pub claim_granted-db :
    (env : Env) (id : ℕ) (user : AuthUser) (w : World)
    → (claim_granted env id user w).1.db
      ≡ audited env id user (record { from = created; to = assigned; reason = none }) w.db
unfolding claim_granted load_order append_audit_entry enqueue_callback_if_needed
claim_granted-db env id user w = elim (Option-cases (load w.db id user.owner_id)) [
  | inl e ↦ ground arith
  | inr (o, e) ↦ ground (arith, load_key w.db id user.owner_id o e)
]

-- The update of `claim`, and its audit entry.
abbrev pub claimed_orders : Env → ℕ → AuthUser → Db → Db
claimed_orders env id user d = record d {
  orders = update (is_claimable id user.owner_id) (set_claimed env user) d.orders;
}

abbrev pub claimed_db : Env → ℕ → AuthUser → Db → Db
claimed_db env id user d =
    audited env id user (record { from = created; to = assigned; reason = none })
      (claimed_orders env id user d)

claim_refused-db : (id : ℕ) (user : AuthUser) (w : World) → (claim_refused id user w).1 ≡ w
unfolding claim_refused
claim_refused-db id user w = ground arith

pub claim_commit-db :
    (env : Env) (id : ℕ) (user : AuthUser) (w : World)
    → (claim_commit env id user w).1.db ≡ (
        if count (is_claimable id user.owner_id) w.db.orders == 0
        then w.db
        else claimed_db env id user w.db)
unfolding claim_commit
claim_commit-db env id user w =
    elim (Bool-cases (count (is_claimable id user.owner_id) w.db.orders == 0)) [
      | inl e ↦ rw e (
          ground (
            arith,
            claim_refused-db id user (record w { db = claimed_orders env id user w.db }),
            update_none (is_claimable id user.owner_id) (set_claimed env user) w.db.orders,
          ))
      | inr e ↦
          rw e (claim_granted-db env id user (record w { db = claimed_orders env id user w.db }))
    ]

-- What `claim` has checked when it writes.
pub record CanClaim (d : Db) (id : ℕ) (user : AuthUser) : Type 0 where
  pub on_shift : find (is_open_shift user) d.shifts ≢ none
  pub idle : count (is_active_order user.user_id user.owner_id) d.orders ≡ 0
  pub available : count (is_claimable id user.owner_id) d.orders ≢ 0

pub claim-db :
    (env : Env) (id : ℕ) (user : AuthUser) (w : World)
    → ((claim env id user w).1.db ≡ w.db)
      ⊎ (CanClaim w.db id user × ((claim env id user w).1.db ≡ claimed_db env id user w.db))
unfolding claim claim_check
claim-db env id user w = ground (arith, claim_commit-db env id user w)

-- The audit trail is a table of its own.
pub record OnlyAudited (d d' : Db) : Type 0 where
  pub orders : d'.orders ≡ d.orders
  pub deliveries : d'.delivery_records ≡ d.delivery_records
  pub earnings : d'.courier_earnings ≡ d.courier_earnings
  pub shifts : d'.shifts ≡ d.shifts
  pub couriers : d'.couriers ≡ d.couriers

pub audited_only :
    (env : Env) (id : ℕ) (user : AuthUser) (c : Transition) (d : Db)
    → OnlyAudited d (audited env id user c d)
audited_only env id user c d = ground arith
