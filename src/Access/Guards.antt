-- ===== src/Access/Guards.antt =====
-- src/auth/strategies/jwt.strategy.ts and src/auth/guards/roles.guard.ts. A token whose signature or
-- age passport-jwt refuses is `none`.
use couriers_server_node.Entities.{UserRole, AuthUser}
use couriers_server_node.Http.{Message, HttpError}
use couriers_server_node.Prelude.{
  ◌==◌, ℕ, Bool, false, not, Option, none, some, List, ◌∷◌, [], ◌||◌,
}
use couriers_server_node.Users.Service.{role_code}
use couriers_server_node.World.{Exec, pure, raise, raise_if}

pub record JwtPayload : Type 0 where
  pub sub : ℕ
  pub owner_id : ℕ
  pub role : UserRole

abbrev pub validate : JwtPayload → AuthUser
validate payload = record {
  user_id = payload.sub;
  owner_id = payload.owner_id;
  role = payload.role;
}

-- What `JwtAuthGuard` puts on the request, or its 401.
unfoldable pub authenticate : Option JwtPayload → Exec AuthUser
authenticate none = raise (HttpError.unauthorized Message.unauthenticated)
authenticate (some payload) = pure (validate payload)

-- `requiredRoles.includes(role)`
unfoldable pub includes : UserRole → List UserRole → Bool
includes role [] = false
includes role (r ∷ rs) = role_code r == role_code role || includes role rs

-- `RolesGuard.canActivate`
unfoldable pub can_activate : List UserRole → Option AuthUser → Exec (Unit {0})
can_activate [] user = pure tt
can_activate (r ∷ rs) none = raise (HttpError.forbidden Message.no_permission)
can_activate (r ∷ rs) (some user) =
    raise_if (not (includes user.role (r ∷ rs))) (HttpError.forbidden Message.no_permission)
