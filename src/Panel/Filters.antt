-- ===== src/Panel/Filters.antt =====
-- src/common/filters: `HttpExceptionFilter` and `ThrottleExceptionFilter`.
use couriers_server_node.Panel.Json.{
  Json, property, truthy, is_object, text, number, object, field, no_field,
}
use couriers_server_node.Prelude.{◌==◌, if◌then◌else◌, ℕ, String, ◌&&◌, none, some}

-- An HttpException: `getStatus`, `getResponse` and `message`.
pub record HttpException : Type 0 where
  pub status : ℕ
  pub response : Json
  pub message : String

pub record HttpResponse : Type 0 where
  pub status : ℕ
  pub body : Json

abbrev pub error_body : ℕ → Json → Json
error_body code message = object (
    field "error" (object (field "code" (number code) (field "message" message no_field))) no_field)

-- `String(…)` of a value that is no text is an argument.
abbrev pub as_text : (Json → String) → Json → String
as_text string_of (text s) = s
as_text string_of v = string_of v

abbrev pub message_of : (Json → String) → HttpException → String
message_of string_of e = elim e.response [
  | text s ↦ s
  | _ ↦
      if truthy (property "message" e.response)
      then elim (property "message" e.response) [ none ↦ e.message | some m ↦ as_text string_of m ]
      else e.message
]

unfoldable pub catch_http : (Json → String) → HttpException → HttpResponse
catch_http string_of e =
    if e.status == 400 && is_object e.response
    then record { status = e.status; body = e.response }
    else record { status = e.status; body = error_body e.status (text (message_of string_of e)) }

unfoldable pub catch_throttler : HttpException → HttpResponse
catch_throttler e = record {
  status = 429;
  body = error_body 429 (text "Too many requests. Please try again later.");
}
