-- ===== src/Panel/Pages.antt =====
-- admin/src/pages/orders: the cancellation of one order and of many, against the server.
use couriers_server_node.Access.Guards.{JwtPayload}
use couriers_server_node.Entities.{same_status, Order, completed, cancelled}
use couriers_server_node.Http.{Result, ok, err}
use couriers_server_node.Lifecycle.Calls.{filled}
use couriers_server_node.Panel.Json.{Json}
use couriers_server_node.Prelude.{
  ◌==◌, if◌then◌else◌, length, ℕ, ◌-◌, String, Bool, true, false, Option, none, some, List, ◌∷◌, [],
  ◌||◌,
}
use couriers_server_node.Server.Requests.{Site, serve, cancels_order}
use couriers_server_node.World.{World}

-- `TERMINAL_STATUSES.includes(order.status)`; without an order the drawer counts as terminal.
unfoldable pub is_terminal : Option Order → Bool
is_terminal none = true
is_terminal (some o) = same_status o.status completed || same_status o.status cancelled

pub data Notification : Type 0 where
  success : (message : String) → Notification
  bulk_success : (total : ℕ) → Notification
  bulk_error : (cancelled failed : ℕ) (ids : List ℕ) → Notification
  error : (message : String) → (description : Json) → Notification

-- One request of the loop: what it meets on the server, and whether its answer comes back.
pub record BulkCall : Type 0 where
  pub site : Site
  pub id : ℕ
  pub arrives : Bool

-- `mutateAsync` resolves when the answer comes back and is no error.
abbrev pub resolves : BulkCall → Result (Unit {0}) → Bool
resolves c (ok a) = c.arrives
resolves c (err e) = false

-- The loop of `handleConfirm`: the ids that failed, in their order.
unfoldable pub cancel_all : Option JwtPayload → List BulkCall → World → List ℕ × World
cancel_all token [] w = ([], w)
cancel_all token (c ∷ cs) w =
    let (r, w') = serve c.site token (cancels_order c.id none) w in
    let (failed, w'') = cancel_all token cs w' in
    (if resolves c r then failed else c.id ∷ failed, w'')

abbrev pub notify_of : ℕ → List ℕ → Notification
notify_of total failed =
    if length failed == 0
    then bulk_success total
    else bulk_error (total - length failed) (length failed) failed

unfoldable pub handle_confirm : Option JwtPayload → List BulkCall → World → Notification × World
handle_confirm token cs w =
    let (failed, w') = cancel_all token cs w in (notify_of (length cs) failed, w')

-- `values: reason ? { reason } : {}` of the cancellation of one order.
abbrev pub cancel_values : String → Option String
cancel_values reason = filled (some reason)

-- What the cancellation of one order tells the user, given the error of the data provider.
abbrev pub cancel_notification : Option Json → Notification
cancel_notification none = success "Order cancelled successfully"
cancel_notification (some m) = error "Failed to cancel order" m
