-- ===== src/Panel/Messages.antt =====
-- src/common/filters/http-exception.filter.ts and admin/src/dataProvider.ts: the text of an error, from
-- the service to the screen.
use couriers_server_node.Panel.Client.{Browser, on_rejected, responded}
use couriers_server_node.Panel.Filters.{HttpException, error_body, message_of, catch_http}
use couriers_server_node.Panel.Json.{Json, get_field, property, text}
use couriers_server_node.Prelude.{◌==◌, ℕ, String, ◌≡◌, refl, false, none}

-- What the interface shows of an exception that a service has thrown.
abbrev pub shown : (Json → String) → HttpException → Browser → Json
shown string_of e b = (on_rejected (responded (catch_http string_of e)) b).1

-- The body that the filter writes has no `message` of its own.
body_silent : (code : ℕ) (m : Json) → property "message" (error_body code m) ≡ none
unfolding property get_field
body_silent code m = refl

filtered :
    (string_of : Json → String) (e : HttpException)
    → (e.status == 400) ≡ false
    → catch_http string_of e
      ≡ record { status = e.status; body = error_body e.status (text (message_of string_of e)) }
unfolding catch_http
filtered string_of e n = rw n refl

-- The text that a service gives for a conflict or an unprocessable request is never shown: whatever it is, the interface
-- shows its own default text for the status.
pub message-lost :
    (string_of : Json → String) (e : HttpException) (b : Browser)
    → (e.status ≡ 409 → shown string_of e b ≡ text "Conflict.")
      × (e.status ≡ 422 → shown string_of e b ≡ text "Validation error.")
unfolding on_rejected
message-lost string_of e b = (
  λ s.
      let f = filtered string_of e (rw s refl) in
      rw (f, s, body_silent 409 (text (message_of string_of e))) refl,
  λ s.
      let f = filtered string_of e (rw s refl) in
      rw (f, s, body_silent 422 (text (message_of string_of e))) refl,
)
