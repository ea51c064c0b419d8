-- ===== src/Auth/Tracker.antt =====
-- src/auth/services/login-attempt-tracker.service.ts: failed logins by identity, in memory.
use couriers_server_node.Prelude.{
  ltb, leb, filter, find, ℕ, suc, ◌+◌, String, Bool, true, false, not, ◌&&◌, Option, none, some,
  List, ◌∷◌, str_eq,
}

-- The key `login:<owner_id>:<login>`, of the text of the owner as the request spells it; a UUID has
-- no colon, so the key determines both texts.
pub record Identity : Type 0 where
  pub owner_text : String
  pub login : String

pub record AttemptRecord : Type 0 where
  pub key : Identity
  pub failures : ℕ
  pub reset_at : ℕ

-- `store`, with at most one record of a key.
abbrev pub Store : Type 0
Store = List AttemptRecord

abbrev pub is_key : Identity → AttemptRecord → Bool
is_key k r = str_eq r.key.owner_text k.owner_text && str_eq r.key.login k.login

abbrev pub lookup : Identity → Store → Option AttemptRecord
lookup k s = find (is_key k) s

-- `this.store.delete(key)`
abbrev pub reset : Identity → Store → Store
reset k s = filter (λ r. not (is_key k r)) s

-- `this.store.set(key, record)`
abbrev pub set_record : AttemptRecord → Store → Store
set_record r s = r ∷ reset r.key s

abbrev blocked_by : ℕ → Identity → ℕ → Store → Option AttemptRecord → Bool × Store
blocked_by now k limit s none = (false, s)
blocked_by now k limit s (some r) = elim (ltb r.reset_at now) [
  | true ↦ (false, reset k s)
  | false ↦ (leb limit r.failures, s)
]

unfoldable pub is_blocked : ℕ → Identity → ℕ → Store → Bool × Store
is_blocked now k limit s = blocked_by now k limit s (lookup k s)

-- The record that a failure starts from.
abbrev pub current_record : ℕ → Identity → ℕ → Option AttemptRecord → AttemptRecord
current_record now k ttl none = record { key = k; failures = 0; reset_at = now + ttl }
current_record now k ttl (some r) = elim (ltb r.reset_at now) [
  | true ↦ record { key = k; failures = 0; reset_at = now + ttl }
  | false ↦ record { key = k; failures = r.failures; reset_at = r.reset_at }
]

unfoldable pub record_failure : ℕ → Identity → ℕ → ℕ → Store → Bool × Store
record_failure now k limit ttl s =
    let r = current_record now k ttl (lookup k s) in
    (leb limit (suc r.failures), set_record (record r { failures = suc r.failures }) s)
