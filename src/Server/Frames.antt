-- ===== src/Server/Frames.antt =====
-- The requests of src/orders/order-lifecycle.controller.ts and the tables that they leave alone.
use couriers_server_node.Entities.{AuthUser, Order, Transition}
use couriers_server_node.Lifecycle.AdvanceEffect.{advanced_rows}
use couriers_server_node.Lifecycle.Diagram.{set_status-SameOrder}
use couriers_server_node.Lifecycle.Effects.{audited, claimed_orders}
use couriers_server_node.Lifecycle.OneActive.{Effect-OneActive}
use couriers_server_node.Lifecycle.Requests.{Request, Effect, claims, advances, cancels}
use couriers_server_node.Lifecycle.Rows.{condition, write, Effect-orders}
use couriers_server_node.Lifecycle.Rules.{is_cancellable, set_cancelled}
use couriers_server_node.Lifecycle.SettledRuns.{Effect-Settled}
use couriers_server_node.Lifecycle.Trail.{Effect-AllTold}
use couriers_server_node.Lifecycle.WellFormed.{Effect-AllWellFormed}
use couriers_server_node.Orders.Service.{is_numbered}
use couriers_server_node.Prelude.{
  count, update, count-update, ℕ, ◌≤◌, String, ◌≡◌, refl, sym, subst, ◌∙◌, inl, inr, arith,
}
use couriers_server_node.Server.Healthy.{IsHealthy, IsSound-same}
use couriers_server_node.World.{Db, Env}

-- The tables that no request on an order writes.
pub record Elsewhere (d d' : Db) : Type 0 where
  pub clients : d'.clients ≡ d.clients
  pub staff_users : d'.staff_users ≡ d.staff_users
  pub shifts : d'.shifts ≡ d.shifts
  pub couriers : d'.couriers ≡ d.couriers
  pub positions : d'.positions ≡ d.positions
  pub periods : d'.payout_periods ≡ d.payout_periods
  pub payouts : d'.payouts ≡ d.payouts

audited-Elsewhere :
    (env : Env) (id : ℕ) (user : AuthUser) (c : Transition) (d : Db)
    → Elsewhere d (audited env id user c d)
audited-Elsewhere env id user c d = ground arith

moved-Elsewhere : (d between d' : Db) → Elsewhere d between → d' ≡ between → Elsewhere d d'
moved-Elsewhere d between d' h e = subst (Elsewhere d) (sym e) h

after-Elsewhere :
    (env : Env) (id : ℕ) (user : AuthUser) (c : Transition) (d between : Db)
    → Elsewhere d between
    → Elsewhere d (audited env id user c between)
after-Elsewhere env id user c d between h =
    let a = audited-Elsewhere env id user c between in
    record {
      clients = a.clients ∙ h.clients;
      staff_users = a.staff_users ∙ h.staff_users;
      shifts = a.shifts ∙ h.shifts;
      couriers = a.couriers ∙ h.couriers;
      positions = a.positions ∙ h.positions;
      periods = a.periods ∙ h.periods;
      payouts = a.payouts ∙ h.payouts;
    }

pub same-Elsewhere : (d d' : Db) → d' ≡ d → Elsewhere d d'
same-Elsewhere d d' e = let same : Elsewhere d d = ground arith in subst (Elsewhere d) (sym e) same

pub Effect-Elsewhere :
    (env : Env) (user : AuthUser) (r : Request) (d d' : Db)
    → Effect env user r d d'
    → Elsewhere d d'
Effect-Elsewhere env user (claims id) d d' (inl e) = same-Elsewhere d d' e
Effect-Elsewhere env user (claims id) d d' (inr (can, e)) =
    moved-Elsewhere d _ d'
      (after-Elsewhere env id user _ d (claimed_orders env id user d) (ground arith)) e
Effect-Elsewhere env user (advances id t) d d' (inl e) = same-Elsewhere d d' e
Effect-Elsewhere env user (advances id t) d d' (inr (o, can, free, e)) =
    moved-Elsewhere d _ d'
      (after-Elsewhere env id user _ d (advanced_rows env id t user o d) (ground arith)) e
Effect-Elsewhere env user (cancels id reason) d d' (inl e) = same-Elsewhere d d' e
Effect-Elsewhere env user (cancels id reason) d d' (inr (o, can, e)) =
    moved-Elsewhere d _ d'
      (after-Elsewhere env id user _ d
        (record d {
          orders = update (is_cancellable id user.owner_id) (set_cancelled env) d.orders;
        })
        (ground arith))
      e

write-numbered :
    (env : Env) (user : AuthUser) (r : Request) (owner : ℕ) (number : String) (x : Order)
    → is_numbered owner number (write env user r x) ≡ is_numbered owner number x
write-numbered env user (claims id) owner number x = refl
write-numbered env user (advances id t) owner number x =
    ground (arith, set_status-SameOrder env t x)
write-numbered env user (cancels id reason) owner number x = refl

Effect-numbers :
    (env : Env) (user : AuthUser) (r : Request) (d d' : Db)
    → Effect env user r d d'
    → ((owner : ℕ) (number : String) → count (is_numbered owner number) d.orders ≤ 1)
    → (owner : ℕ) (number : String) → count (is_numbered owner number) d'.orders ≤ 1
Effect-numbers env user r d d' h u owner number = elim (Effect-orders env user r d d' h) [
  | inl e ↦ rw e (u owner number)
  | inr (can, e) ↦
      rw
        (
          e,
          count-update (is_numbered owner number) (condition user r) (write env user r) d.orders
              (write-numbered env user r owner number),
        )
        (u owner number)
]

-- A request on an order, by whoever asks.
pub Effect-IsHealthy :
    (env : Env) (user : AuthUser) (r : Request) (d d' : Db)
    → Effect env user r d d'
    → IsHealthy d
    → IsHealthy d'
Effect-IsHealthy env user r d d' e h =
    let s = Effect-Elsewhere env user r d d' e in
    let o = h.on_orders in
    record {
      on_orders = record {
        settled = Effect-Settled env user r d d' e o.settled;
        formed = Effect-AllWellFormed env user r d d' e o.formed;
        told = Effect-AllTold env user r d d' e o.told;
        one_active = Effect-OneActive env user r d d' e o.one_active;
        unique = record {
          numbers = Effect-numbers env user r d d' e o.unique.numbers;
          phones = rw (s.clients) (o.unique.phones);
        };
      };
      sound = IsSound-same d d' (record { periods = s.periods; payouts = s.payouts }) h.sound;
      on_staff = rw (s.staff_users) (h.on_staff);
      on_shifts = rw (s.shifts) (h.on_shifts);
      on_couriers = rw (s.couriers) (h.on_couriers);
      located = rw (s.positions) (h.located);
    }
