-- ===== src/Panel/Client.antt =====
-- admin/src/dataProvider.ts and admin/src/authProvider.ts. The browser is its stored token and the
-- page that it shows.
use couriers_server_node.Lifecycle.Calls.{filled}
use couriers_server_node.Panel.Filters.{HttpResponse, as_text}
use couriers_server_node.Panel.Json.{
  Json, Items, property, truthy, text, number, array, object, item, no_item,
}
use couriers_server_node.Prelude.{
  ◌==◌, if◌then◌else◌, holds, is_some, or_else, head_or_none, ℕ, suc, String, Bool, Option, none,
  some, List,
}

pub record Browser : Type 0 where
  pub access_token : Option String
  pub page : String

-- What an axios request ends with when it fails: no response, or one.
pub data Failure : Type 0 where
  no_response : Failure
  responded : HttpResponse → Failure

-- `Bearer ${token}`
pub data Header : Type 0 where
  bearer : String → Header

-- The header that the request interceptor adds.
abbrev pub authorization : Browser → Option Header
authorization b = elim (filled b.access_token) [ none ↦ none | some token ↦ some (bearer token) ]

-- `error.response?.data?.message`
abbrev pub server_message : Failure → Option Json
server_message no_response = none
server_message (responded r) = property "message" r.body

abbrev pub status_of : Failure → Option ℕ
status_of no_response = none
status_of (responded r) = some r.status

-- The entry of `humanMessages`.
abbrev pub human_message : ℕ → Option Json → Option Json
human_message status m =
    if status == 403
    then some (text "You do not have permission to perform this action.")
    else if status == 404
    then some (text "Record not found.")
    else if status == 409
    then some (or_else m (text "Conflict."))
    else if status == 422
    then some (or_else m (text "Validation error."))
    else if status == 500
    then some (text "An unexpected error occurred. Please try again.")
    else none

abbrev pub first_of : Option Json → Option Json → Json → Json
first_of (some m) n d = m
first_of none n d = or_else n d

abbrev pub shown_for : Failure → Option Json
shown_for no_response = none
shown_for (responded r) = human_message r.status (property "message" r.body)

-- The response interceptor: the browser after it, and the message of the error that it rejects with.
unfoldable pub on_rejected : Failure → Browser → Browser × Json
on_rejected f b = (
  if holds (status_of f) 401 then record { access_token = none; page = "/login" } else b,
  first_of (shown_for f) (server_message f) (text "An unexpected error occurred."),
)

-- `getList`: the query of a page, and what becomes of the answer.
pub record ListQuery : Type 0 where
  pub page : ℕ
  pub limit : ℕ
  pub sort : Option (String × Bool)
  pub filters : List (String × String)

-- The first sorter only, and every filter.
abbrev pub list_query :
    Option ℕ → Option ℕ → List (String × Bool) → List (String × String) → ListQuery
list_query current page_size sorters filters = record {
  page = or_else current 1;
  limit = or_else page_size 20;
  sort = head_or_none sorters;
  filters = filters;
}

pub record ListResult : Type 0 where
  pub data_of : Json
  pub total : Option Json

abbrev count_items : Items → ℕ
count_items no_item = 0
count_items (item j rest) = suc (count_items rest)

-- The `length` of a body, of which that of a text is an argument.
abbrev length_of : (String → ℕ) → Json → Option Json
length_of text_length (text s) = some (number (text_length s))
length_of text_length (number n) = none
length_of text_length (array items) = some (number (count_items items))
length_of text_length (object fields) = property "length" (object fields)

abbrev plain_result : (String → ℕ) → Json → ListResult
plain_result text_length body = record { data_of = body; total = length_of text_length body }

-- An answer with `data` and `meta`, or else a plain array.
unfoldable pub list_result : (String → ℕ) → Json → ListResult
list_result text_length body = elim (property "data" body) [
  | some rows ↦ elim (property "meta" body) [
    | some m ↦ record { data_of = rows; total = property "total" m }
    | none ↦ plain_result text_length body
  ]
  | none ↦ plain_result text_length body
]

pub data LoginAnswer : Type 0 where
  logged_in : LoginAnswer
  login_error : Json → LoginAnswer

-- What the request of a login ended with: an answer, a failure of axios, or another error.
pub data LoginOutcome : Type 0 where
  answered : Json → LoginOutcome
  failed : Failure → LoginOutcome
  other_error : LoginOutcome

-- The text that is stored for a value, if it is truthy.
abbrev token_text : (Json → String) → Option Json → Option String
token_text string_of none = none
token_text string_of (some j) = if truthy (some j) then some (as_text string_of j) else none

-- `login`, after its request.
unfoldable pub finish_login : (Json → String) → LoginOutcome → Browser → Browser × LoginAnswer
finish_login string_of (answered body) b =
    elim (token_text string_of (property "access_token" body)) [
      | some token ↦ (record { access_token = some token; page = "/orders" }, logged_in)
      | none ↦ (b, login_error (text "No token received."))
    ]
finish_login string_of (failed f) b =
    (b, login_error (or_else (server_message f) (text "Invalid credentials.")))
finish_login string_of other_error b = (b, login_error (text "Login failed."))

unfoldable pub log_out : Browser → Browser
log_out b = record { access_token = none; page = "/login" }

abbrev pub check : Browser → Bool
check b = is_some (filled b.access_token)

pub record UserIdentity : Type 0 where
  pub id : Option Json
  pub name : Option Json
  pub role : Option Json
  pub owner_id : Option Json

-- The entries of the payload of a token; `decodeJwt` is an argument, which answers no entries for
-- what it cannot read.
unfoldable pub get_identity : (String → Json) → Browser → Option UserIdentity
get_identity decode b = elim (filled b.access_token) [
  | none ↦ none
  | some token ↦
      let payload = decode token in
      let entry : String → Option Json = λ key. property key payload in
      some (record {
        id = entry "sub";
        name = elim (entry "name") [ none ↦ entry "sub" | some n ↦ some n ];
        role = entry "role";
        owner_id = entry "owner_id";
      })
]

-- `onError`, given the status that the error carries: whether to log out.
abbrev pub on_error : Option ℕ → Bool
on_error status = holds status 401
