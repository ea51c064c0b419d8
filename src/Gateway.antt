-- ===== src/Gateway.antt =====
-- src/gateways/orders.gateway.ts: the messages to the rooms of a tenant. Every caller catches
-- what an absent server throws, so a message is then lost and nothing else happens.
use couriers_server_node.Prelude.{ℕ, List, [], ◌∷◌, ◌++◌, Option, none, some, if◌then◌else◌}
use couriers_server_node.Prelude.Int.{ℤ}
use couriers_server_node.Http.{ok}
use couriers_server_node.Entities.{UserRole}
use couriers_server_node.World.{
  Env, Exec, Room, Event, OrderPayload, StatusPayload, LocationPayload, staff, couriers,
}

-- `this.server.to(room).emit(event)`, each of the messages in turn.
abbrev pub emit : Env → List (Room × Event) → Exec (Unit {0})
emit env messages w =
    (ok tt, record w { emitted = if env.socket_ready then w.emitted ++ messages else w.emitted })

abbrev pub emit_order_created : Env → ℕ → OrderPayload → Exec (Unit {0})
emit_order_created env owner p =
    emit env
      ((staff owner, Event.order_created p) ∷ (couriers owner, Event.order_new_available p) ∷ [])

abbrev pub emit_status_changed : Env → ℕ → StatusPayload → Exec (Unit {0})
emit_status_changed env owner p = emit env ((staff owner, Event.order_status_changed p) ∷ [])

abbrev pub emit_location_updated : Env → ℕ → LocationPayload → Exec (Unit {0})
emit_location_updated env owner p = emit env ((staff owner, Event.location_updated p) ∷ [])

abbrev pub emit_shift_opened : Env → (owner courier_id shift_id started_at : ℕ) → Exec (Unit {0})
emit_shift_opened env owner c s t = emit env ((staff owner, Event.shift_opened c s t) ∷ [])

abbrev pub emit_shift_closed :
    Env → (owner courier_id shift_id started_at : ℕ) → Option ℕ → Option ℤ → Exec (Unit {0})
emit_shift_closed env owner c s t e d = emit env ((staff owner, Event.shift_closed c s t e d) ∷ [])

-- `handleConnection`: the room that a socket joins, or a disconnect where the token is refused.
-- The verified payload of the token is the argument.
unfoldable pub handle_connection : Option (ℕ × UserRole) → Option Room
handle_connection none = none
handle_connection (some (owner, UserRole.courier)) = some (couriers owner)
handle_connection (some (owner, _)) = some (staff owner)
