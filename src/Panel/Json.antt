-- ===== src/Panel/Json.antt =====
-- The bodies of responses, as src/common/filters writes them and admin/src reads them.
use couriers_server_node.Prelude.{
  ◌==◌, if◌then◌else◌, ℕ, String, Bool, true, false, not, Option, none, some, str_eq,
}

mutual
  pub data Json : Type 0 where
    text : String → Json
    number : ℕ → Json
    array : Items → Json
    object : Fields → Json

  pub data Items : Type 0 where
    no_item : Items
    item : Json → Items → Items

  pub data Fields : Type 0 where
    no_field : Fields
    field : (name : String) (value : Json) → Fields → Fields

unfoldable pub get_field : String → Fields → Option Json
get_field key no_field = none
get_field key (field name value rest) =
    let later = get_field key rest in if str_eq name key then some value else later

-- `body.key`, and `body?.key`; a string and a number have no such property.
unfoldable pub property : String → Json → Option Json
property key (text s) = none
property key (number n) = none
property key (array items) = none
property key (object fields) = get_field key fields

-- Whether a value is truthy.
abbrev pub truthy : Option Json → Bool
truthy none = false
truthy (some (text s)) = not (str_eq s "")
truthy (some (number n)) = not (n == 0)
truthy (some (array items)) = true
truthy (some (object fields)) = true

-- `typeof value === 'object'`
abbrev pub is_object : Json → Bool
is_object (text s) = false
is_object (number n) = false
is_object (array items) = true
is_object (object fields) = true
