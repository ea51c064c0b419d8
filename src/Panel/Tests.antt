-- ===== src/Panel/Tests.antt =====
-- admin/src: errors on the screen, and a bulk cancellation on the sample.
use couriers_server_node.Access.Endpoints.{required_roles}
use couriers_server_node.Access.Guards.{JwtPayload, authenticate, includes, can_activate}
use couriers_server_node.Entities.{UserRole}
use couriers_server_node.Lifecycle.Calls.{
  load_order, append_audit_entry, enqueue_callback_if_needed, map_to_dto,
}
use couriers_server_node.Lifecycle.Handlers.{
  cancel_check, notify_courier, cancel_report, cancel_commit, cancel,
}
use couriers_server_node.Panel.Bulk.{AllReported, cancel_all-AllReported}
use couriers_server_node.Panel.Client.{
  Browser, UserIdentity, get_identity, on_rejected, list_result, responded,
}
use couriers_server_node.Panel.Filters.{HttpException}
use couriers_server_node.Panel.Json.{
  Json, get_field, property, text, number, array, object, field, no_field, item, no_item,
}
use couriers_server_node.Panel.Messages.{shown, message-lost}
use couriers_server_node.Panel.Pages.{is_terminal, BulkCall, cancel_all, handle_confirm, bulk_error}
use couriers_server_node.Prelude.{
  find, count, update, Option, ◌≡◌, refl, true, false, none, some, List, ◌∷◌, [],
}
use couriers_server_node.Samples.{env, first_order, world}
use couriers_server_node.Server.Requests.{Site, perform, serve}

abbrev taken : HttpException
taken = record {
  status = 409;
  response = object (field "message" (text "Email already in use") no_field);
  message = "Conflict";
}

abbrev at_users : Browser
at_users = record { access_token = some "t"; page = "/users" }

message-lost_example :
    (taken.status ≡ 409 → shown (λ j. "") taken at_users ≡ text "Conflict.")
    × (taken.status ≡ 422 → shown (λ j. "") taken at_users ≡ text "Validation error.")
message-lost_example = message-lost (λ j. "") taken at_users

session_over :
    (on_rejected (responded (record { status = 401; body = text "" })) at_users).0.access_token
    ≡ none
unfolding on_rejected
session_over = refl

first_page :
    (list_result
      (λ s. 0)
      (object (
        field "data"
          (array (item (number 1) no_item))
          (field "meta" (object (field "total" (number 41) no_field)) no_field)))).total
    ≡ some (number 41)
unfolding list_result property get_field
first_page = refl

abbrev site : Site
site = record {
  env = env;
  usable = false;
  distance = λ a b c e. 0;
  hash = λ p. p;
  is_throttled = false;
  is_malformed = λ a. false;
}

abbrev boss_token : JwtPayload
boss_token = record { sub = 10; owner_id = 1; role = UserRole.owner }

abbrev selected : List BulkCall
selected =
    record { site = site; id = 100; arrives = true }
    ∷ record { site = site; id = 777; arrives = true }
    ∷ record { site = site; id = 101; arrives = false }
    ∷ []

cancel_all-AllReported_example :
    AllReported boss_token selected (cancel_all (some boss_token) selected world)
cancel_all-AllReported_example = cancel_all-AllReported boss_token selected world

two_failed : (handle_confirm (some boss_token) selected world).0 ≡ bulk_error 1 2 (777 ∷ 101 ∷ [])
unfolding handle_confirm cancel_all serve authenticate can_activate required_roles includes perform
    cancel cancel_check cancel_commit cancel_report load_order append_audit_entry notify_courier
    enqueue_callback_if_needed map_to_dto find count update
two_failed = refl

drawer_final : is_terminal (some first_order) ≡ false
unfolding is_terminal
drawer_final = refl

abbrev map_name : Option UserIdentity → Option Json
map_name none = none
map_name (some i) = i.name

named_by_id :
    map_name (get_identity (λ t. object (field "sub" (text "u") no_field)) at_users)
    ≡ some (text "u")
unfolding get_identity property get_field
named_by_id = refl
