-- ===== src/Panel/CourierForm.antt =====
-- admin/src/pages/couriers: the drawer of a courier, open on one, with its form, and the dialog that
-- changes the status. The form of antd keeps the values of its fields.
use couriers_server_node.Couriers.Admin.{CourierDetail, UpdateCourier, same_courier_status}
use couriers_server_node.Entities.{CourierStatus}
use couriers_server_node.Panel.Json.{Json}
use couriers_server_node.Panel.Pages.{Notification, success, error}
use couriers_server_node.Prelude.{
  if◌then◌else◌, String, Bool, true, false, not, ◌&&◌, Option, none, some, List, ◌∷◌, str_eq, [],
}

pub data Mode : Type 0 where
  view : Mode
  edit : Mode

pub record FormValues : Type 0 where
  pub first_name : String
  pub last_name : String
  pub phone : String
  pub login : Option String
  pub telegram_chat_id : Option String
  pub status : CourierStatus

-- What the drawer shows and keeps: the courier that it has read, and the fields once they are set.
pub record CourierDrawer : Type 0 where
  pub mode : Mode
  pub courier : CourierDetail
  pub form : Option FormValues
  pub status_modal_open : Bool
  pub pending_status : Option CourierStatus

abbrev pub by_mode : Mode → (viewing editing : CourierDrawer) → CourierDrawer
by_mode view viewing editing = viewing
by_mode edit viewing editing = editing

-- `form.setFieldsValue` of the second effect.
abbrev pub field_values : CourierDetail → FormValues
field_values c = record {
  first_name = c.item.first_name;
  last_name = c.item.last_name;
  phone = c.item.phone;
  login = c.item.login;
  telegram_chat_id = c.telegram_chat_id;
  status = c.item.status;
}

-- The second effect, after a change of the courier or of the mode.
abbrev pub fill_form : CourierDrawer → CourierDrawer
fill_form s = by_mode s.mode s (record s { form = some (field_values s.courier) })

-- The drawer once its query has answered.
abbrev pub open_drawer : Mode → CourierDetail → CourierDrawer
open_drawer initial_mode c = fill_form (record {
  mode = initial_mode;
  courier = c;
  form = none;
  status_modal_open = false;
  pending_status = none;
})

-- A text field of the form.
pub data Field : Type 0 where
  on_first_name on_last_name on_phone on_login on_telegram_chat_id : Field

abbrev pub set_field : Field → String → FormValues → FormValues
set_field on_first_name text v = record v { first_name = text }
set_field on_last_name text v = record v { last_name = text }
set_field on_phone text v = record v { phone = text }
set_field on_login text v = record v { login = some text }
set_field on_telegram_chat_id text v = record v { telegram_chat_id = some text }

abbrev pub change_fields : (FormValues → FormValues) → Option FormValues → Option FormValues
change_fields f none = none
change_fields f (some v) = some (f v)

-- The select has set the field when it calls `handleStatusChange`.
unfoldable pub handle_status_change : CourierStatus → CourierDrawer → CourierDrawer
handle_status_change value s =
    if same_courier_status value s.courier.item.status
    then record s { form = change_fields (λ v. record v { status = value }) s.form }
    else record s {
      pending_status = some value;
      status_modal_open = true;
      form = change_fields (λ v. record v { status = s.courier.item.status }) s.form;
    }

-- `resetFields` and `setMode('view')`, of the Cancel button and of a save that succeeded.
abbrev pub leave_form : CourierDrawer → CourierDrawer
leave_form s = record s { form = none; mode = view }

abbrev pub close_modal : CourierDrawer → CourierDrawer
close_modal s = record s { status_modal_open = false; pending_status = none }

-- What the user can do in the drawer before a request.
pub data DrawerEvent : Type 0 where
  presses_edit presses_cancel dismisses_modal : DrawerEvent
  types_text : Field → String → DrawerEvent
  picks_status : CourierStatus → DrawerEvent

-- The Edit button is there while the drawer views, the Cancel button and the form while it edits.
unfoldable pub on_event : DrawerEvent → CourierDrawer → CourierDrawer
on_event presses_edit s = by_mode s.mode (fill_form (record s { mode = edit })) s
on_event presses_cancel s = by_mode s.mode s (leave_form s)
on_event dismisses_modal s = close_modal s
on_event (types_text field text) s = record s { form = change_fields (set_field field text) s.form }
on_event (picks_status value) s = by_mode s.mode s (handle_status_change value s)

unfoldable pub on_events : List DrawerEvent → CourierDrawer → CourierDrawer
on_events [] s = s
on_events (e ∷ es) s = on_events es (on_event e s)

-- `rules={[{ required: true }]}` of three fields.
abbrev pub is_valid : FormValues → Bool
is_valid v =
    not (str_eq v.first_name "") && (not (str_eq v.last_name "") && not (str_eq v.phone ""))

abbrev pub to_body : FormValues → UpdateCourier
to_body v = record {
  first_name = some v.first_name;
  last_name = some v.last_name;
  phone = some v.phone;
  status = some v.status;
  login = some v.login;
  telegram_chat_id = some v.telegram_chat_id;
}

-- `validateFields`; the form has its fields while the drawer edits.
abbrev pub validated : Option FormValues → Option UpdateCourier
validated none = none
validated (some v) = if is_valid v then some (to_body v) else none

-- The body of the request that `handleSave` sends; none when a rule fails.
unfoldable pub save_values : CourierDrawer → Option UpdateCourier
save_values s = validated s.form

-- The body of the request of `CourierStatusModal`.
abbrev pub status_values : CourierStatus → UpdateCourier
status_values new_status = record {
  first_name = none;
  last_name = none;
  phone = none;
  status = some new_status;
  login = none;
  telegram_chat_id = none;
}

-- `query.refetch()` with an answer that is not the courier as read before.
unfoldable pub refetched : CourierDetail → CourierDrawer → CourierDrawer
refetched c s = fill_form (record s { courier = c })

-- After the request of `handleSave`, given the error of the data provider.
unfoldable pub after_save : Option Json → CourierDrawer → Notification × CourierDrawer
after_save none s = (success "Courier updated", leave_form s)
after_save (some m) s = (error "Update failed" m, s)

-- After the request of `CourierStatusModal`.
unfoldable pub after_status : Option Json → CourierDrawer → Notification × CourierDrawer
after_status none s = (success "Courier status updated", close_modal s)
after_status (some m) s = (error "Failed to update status" m, s)
