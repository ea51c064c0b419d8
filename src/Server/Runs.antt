-- ===== src/Server/Runs.antt =====
-- The authenticated requests of src/orders, src/couriers, src/payouts and src/users, one after the
-- other.
use couriers_server_node.Access.Endpoints.{
  Endpoint, required_roles, on_orders, on_lifecycle, on_couriers, on_tracking, on_shifts,
  on_own_payouts, on_payouts, on_users,
}
use couriers_server_node.Access.Guards.{JwtPayload, validate, authenticate, includes, can_activate}
use couriers_server_node.Couriers.Admin.{update_courier}
use couriers_server_node.Entities.{UserRole, AuthUser, picked_up, in_delivery, completed}
use couriers_server_node.Http.{Message, HttpError, ok, err}
use couriers_server_node.Lifecycle.Handlers.{claim, advance_status, cancel}
use couriers_server_node.Lifecycle.Requests.{
  Request, handle, handle-Effect, claims, advances, cancels,
}
use couriers_server_node.Orders.Service.{create}
use couriers_server_node.Payouts.Ledger.{handle_payout, creates, closes_period, records}
use couriers_server_node.Payouts.Service.{create_period, close_period, record_payout}
use couriers_server_node.Prelude.{
  Bool-cases, ◌≡◌, refl, sym, subst, ◌≢◌, ◌⊎◌, inl, inr, true, false, ◌&&◌, Option, none, some,
  List, ◌∷◌, arith, [],
}
use couriers_server_node.Server.Creation.{IsNew, create-IsHealthy}
use couriers_server_node.Server.Effects.{
  handle_payout-IsHealthy, handle_user-IsHealthy, submit_location-IsHealthy,
  update_courier-IsHealthy, handle_shift-IsHealthy,
}
use couriers_server_node.Server.Frames.{Effect-IsHealthy}
use couriers_server_node.Server.Healthy.{IsHealthy}
use couriers_server_node.Server.Requests.{
  Api, has_throttle, endpoint_of, Site, void, perform, serve, ApiCall, serve_all, creates_order,
  claims_order, picks_up, starts_delivery, completes_order, cancels_order, on_shift,
  submits_location, updates_courier, creates_period, ends_period, pays, on_staff,
}
use couriers_server_node.Shifts.Invariant.{handle_shift, opens, closes}
use couriers_server_node.Shifts.Service.{open_shift, close_shift}
use couriers_server_node.Tracking.Service.{submit_location}
use couriers_server_node.Users.Keys.{handle_user, creates_user, updates_user, removes_user}
use couriers_server_node.Users.Service.{create_user, update_user}
use couriers_server_node.World.{Db, World, Env, Exec}

pub void-world : {A : Type 0} (m : Exec A) (w : World) → (void m w).1 ≡ (m w).1
void-world m w = ground arith

-- Under an identifier that the request drew, nothing is stored yet.
abbrev pub Draws : Site → Api → Db → Type 0
Draws s (creates_order dto) d = IsNew (s.env.uuid 0) d
Draws s _ d = Unit

abbrev Keeps : {A : Type 0} → Exec A → World → Type 0
Keeps m w = IsHealthy (m w).1.db

void-IsHealthy : {A : Type 0} (m : Exec A) (w : World) → Keeps m w → Keeps (void m) w
void-IsHealthy m w h = subst (λ v. IsHealthy (v.db)) (sym (void-world m w)) h

lifecycle-IsHealthy :
    (env : Env) (user : AuthUser) (r : Request) (w : World)
    → IsHealthy w.db
    → Keeps (handle env user r) w
lifecycle-IsHealthy env user r w h =
    Effect-IsHealthy env user r w.db _ (handle-Effect env user r w) h

perform-IsHealthy :
    (s : Site) (user : AuthUser) (a : Api) (w : World)
    → Draws s a w.db
    → IsHealthy w.db
    → Keeps (perform s user a) w
unfolding perform handle handle_shift handle_payout handle_user
perform-IsHealthy s user (creates_order dto) w new h =
    void-IsHealthy (create s.env s.usable dto user) w
      (create-IsHealthy s.env s.usable dto user w new h)
perform-IsHealthy s user (claims_order id) w new h =
    void-IsHealthy (claim s.env id user) w (lifecycle-IsHealthy s.env user (claims id) w h)
perform-IsHealthy s user (picks_up id) w new h =
    void-IsHealthy (advance_status s.env id picked_up user) w
      (lifecycle-IsHealthy s.env user (advances id picked_up) w h)
perform-IsHealthy s user (starts_delivery id) w new h =
    void-IsHealthy (advance_status s.env id in_delivery user) w
      (lifecycle-IsHealthy s.env user (advances id in_delivery) w h)
perform-IsHealthy s user (completes_order id) w new h =
    void-IsHealthy (advance_status s.env id completed user) w
      (lifecycle-IsHealthy s.env user (advances id completed) w h)
perform-IsHealthy s user (cancels_order id reason) w new h =
    void-IsHealthy (cancel s.env id reason user) w
      (lifecycle-IsHealthy s.env user (cancels id reason) w h)
perform-IsHealthy s user (on_shift opens) w new h =
    void-IsHealthy (open_shift s.env user) w (handle_shift-IsHealthy s.env user opens w h)
perform-IsHealthy s user (on_shift closes) w new h =
    void-IsHealthy (close_shift s.env user) w (handle_shift-IsHealthy s.env user closes w h)
perform-IsHealthy s user (submits_location dto) w new h =
    void-IsHealthy (submit_location s.env s.distance dto user) w
      (submit_location-IsHealthy s.env s.distance dto user w h)
perform-IsHealthy s user (updates_courier id dto) w new h =
    void-IsHealthy (update_courier s.env user.owner_id id dto) w
      (update_courier-IsHealthy s.env user.owner_id id dto w h)
perform-IsHealthy s user (creates_period dto) w new h =
    void-IsHealthy (create_period s.env user dto) w
      (handle_payout-IsHealthy s.env (creates user dto) w h)
perform-IsHealthy s user (ends_period id) w new h =
    void-IsHealthy (close_period s.env user.owner_id id) w
      (handle_payout-IsHealthy s.env (closes_period user.owner_id id) w h)
perform-IsHealthy s user (pays id dto) w new h =
    void-IsHealthy (record_payout s.env user.owner_id id dto) w
      (handle_payout-IsHealthy s.env (records user.owner_id id dto) w h)
perform-IsHealthy s user (on_staff (creates_user dto)) w new h =
    void-IsHealthy (create_user s.env s.hash user.owner_id dto) w
      (handle_user-IsHealthy s.env s.hash user (creates_user dto) w h)
perform-IsHealthy s user (on_staff (updates_user id dto)) w new h =
    void-IsHealthy (update_user s.env user.owner_id id dto) w
      (handle_user-IsHealthy s.env s.hash user (updates_user id dto) w h)
perform-IsHealthy s user (on_staff (removes_user id)) w new h =
    handle_user-IsHealthy s.env s.hash user (removes_user id) w h

-- How the guards end.
pub data Guarded (s : Site) (a : Api) (w : World) : Option JwtPayload → Type 0 where
  unknown :
      serve s none a w ≡ (err (HttpError.unauthorized Message.unauthenticated), w)
      → Guarded s a w none
  barred :
      (p : JwtPayload)
      → includes p.role (required_roles (endpoint_of a)) ≡ false
      → serve s (some p) a w ≡ (err (HttpError.forbidden Message.no_permission), w)
      → Guarded s a w (some p)
  throttled :
      (p : JwtPayload)
      → includes p.role (required_roles (endpoint_of a)) ≡ true
      → (has_throttle a && s.is_throttled) ≡ true
      → serve s (some p) a w ≡ (err HttpError.too_many_requests, w)
      → Guarded s a w (some p)
  refused :
      (p : JwtPayload)
      → includes p.role (required_roles (endpoint_of a)) ≡ true
      → s.is_malformed a ≡ true
      → serve s (some p) a w ≡ (err (HttpError.bad_request Message.validation_failed), w)
      → Guarded s a w (some p)
  passed :
      (p : JwtPayload)
      → includes p.role (required_roles (endpoint_of a)) ≡ true
      → (has_throttle a && s.is_throttled) ≡ false
      → s.is_malformed a ≡ false
      → serve s (some p) a w ≡ perform s (validate p) a w
      → Guarded s a w (some p)

can_activate-cases :
    (rs : List UserRole) (user : AuthUser) (w : World)
    → ((includes user.role rs ≡ true) × (can_activate rs (some user) w ≡ (ok tt, w)))
      ⊎ ((rs ≡ [])
          ⊎ ((includes user.role rs ≡ false)
              × (can_activate rs (some user) w
                  ≡ (err (HttpError.forbidden Message.no_permission), w))))
unfolding can_activate
can_activate-cases [] user w = inr (inl refl)
can_activate-cases (r ∷ rs) user w = elim (Bool-cases (includes user.role (r ∷ rs))) [
  | inl e ↦ inl (e, rw e refl)
  | inr e ↦ inr (inr (e, rw e refl))
]

-- Every route that writes names the roles that it is for.
roles_named : (e : Endpoint) → required_roles e ≢ []
unfolding required_roles
roles_named (on_orders r) = ground arith
roles_named (on_lifecycle r) = ground arith
roles_named (on_couriers r) = ground arith
roles_named (on_tracking r) = ground arith
roles_named (on_shifts r) = ground arith
roles_named (on_own_payouts r) = ground arith
roles_named (on_payouts r) = ground arith
roles_named (on_users r) = ground arith

-- Every request of the routes of orders, couriers, payouts and users that write ends in one of five ways: without a
-- valid token in a 401; with a role that its route does not name in a 403; a location within the throttled time in a
-- 429; with parameters or a body that the pipes refuse in a 400, all four with nothing written, queued or sent; or its
-- handler runs for the user of the token, whose role the route names.
pub serve-Guarded :
    (s : Site) (token : Option JwtPayload) (a : Api) (w : World) → Guarded s a w token
unfolding serve authenticate
serve-Guarded s none a w = unknown refl
serve-Guarded s (some p) a w =
    elim (can_activate-cases (required_roles (endpoint_of a)) (validate p) w) [
      | inl (i, e) ↦ elim (Bool-cases (has_throttle a && s.is_throttled)) [
        | inl t ↦ throttled p i t (ground arith)
        | inr t ↦ elim (Bool-cases (s.is_malformed a)) [
          | inl m ↦ refused p i m (ground arith)
          | inr m ↦ passed p i t m (ground arith)
        ]
      ]
      | inr (inl n) ↦ absurd (roles_named (endpoint_of a) n)
      | inr (inr (i, e)) ↦ barred p i (ground arith)
    ]

-- A token that is valid: the handler does not run, or it runs.
abbrev Settles : Site → Api → World → Option JwtPayload → Type 0
Settles s a w none = Unit
Settles s a w (some p) =
    ((e : HttpError) × (serve s (some p) a w ≡ (err e, w)))
    ⊎ (serve s (some p) a w ≡ perform s (validate p) a w)

Guarded-Settles :
    (s : Site) (a : Api) (w : World) (token : Option JwtPayload)
    → Guarded s a w token
    → Settles s a w token
Guarded-Settles s a w _ (unknown e) = tt
Guarded-Settles s a w _ (barred p i e) = inl (HttpError.forbidden Message.no_permission, e)
Guarded-Settles s a w _ (throttled p i t e) = inl (HttpError.too_many_requests, e)
Guarded-Settles s a w _ (refused p i m e) = inl (HttpError.bad_request Message.validation_failed, e)
Guarded-Settles s a w _ (passed p i t m e) = inr e

pub serve_cases :
    (s : Site) (p : JwtPayload) (a : Api) (w : World)
    → ((e : HttpError) × (serve s (some p) a w ≡ (err e, w)))
      ⊎ (serve s (some p) a w ≡ perform s (validate p) a w)
serve_cases s p a w = Guarded-Settles s a w (some p) (serve-Guarded s (some p) a w)

serve-IsHealthy :
    (s : Site) (token : Option JwtPayload) (a : Api) (w : World)
    → Draws s a w.db
    → IsHealthy w.db
    → Keeps (serve s token a) w
serve-IsHealthy s token a w new h = ended s a w new h token (serve-Guarded s token a w)
  where
    ended :
        (s : Site) (a : Api) (w : World)
        → Draws s a w.db
        → IsHealthy w.db
        → (token : Option JwtPayload) → Guarded s a w token
        → Keeps (serve s token a) w
    ended s a w new h _ (unknown e) = subst (λ r. IsHealthy (r.1.db)) (sym e) h
    ended s a w new h _ (barred p i e) = subst (λ r. IsHealthy (r.1.db)) (sym e) h
    ended s a w new h _ (throttled p i t e) = subst (λ r. IsHealthy (r.1.db)) (sym e) h
    ended s a w new h _ (refused p i m e) = subst (λ r. IsHealthy (r.1.db)) (sym e) h
    ended s a w new h _ (passed p i t m e) =
        subst (λ r. IsHealthy (r.1.db)) (sym e) (perform-IsHealthy s (validate p) a w new h)

-- Each request of a sequence draws identifiers that are new when it runs.
abbrev pub AllDraw : List ApiCall → World → Type 0
AllDraw [] w = Unit
AllDraw ((s, token, a) ∷ calls) w = Draws s a w.db × AllDraw calls (serve s token a w).1

-- Any sequence of requests that write, of the routes of orders, couriers, payouts and users, whoever makes them and
-- whatever they are answered, keeps all of the following together: the money of completed orders, the columns and the audit trail of every order, at most one active
-- order of a courier, unique order numbers and client phones, the ledger of payouts, the emails of staff, the shifts,
-- the unique columns of couriers and their positions; the identifiers drawn for new orders are new.
pub serve_all-IsHealthy :
    (calls : List ApiCall) (w : World)
    → AllDraw calls w
    → IsHealthy w.db
    → IsHealthy (serve_all calls w).db
unfolding serve_all
serve_all-IsHealthy [] w new h = h
serve_all-IsHealthy ((s, token, a) ∷ calls) w new h =
    serve_all-IsHealthy calls (serve s token a w).1 new.1 (serve-IsHealthy s token a w new.0 h)
