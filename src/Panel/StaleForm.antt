-- ===== src/Panel/StaleForm.antt =====
-- admin/src/pages/couriers/CourierDrawer.tsx: the status that a save of the drawer writes.
use couriers_server_node.Couriers.Admin.{
  CourierDetail, UpdateCourier, same_courier_status, update_courier,
}
use couriers_server_node.Couriers.Keys.{update_courier-db}
use couriers_server_node.Couriers.Status.{same_status_eq, update_courier-status}
use couriers_server_node.Entities.{CourierStatus, Courier}
use couriers_server_node.Http.{ok}
use couriers_server_node.Panel.CourierForm.{
  Mode, FormValues, CourierDrawer, Field, DrawerEvent, by_mode, open_drawer, change_fields,
  set_field, handle_status_change, on_event, on_events, is_valid, to_body, validated, save_values,
  view, edit, presses_edit, presses_cancel, dismisses_modal, types_text, picks_status,
  on_first_name, on_last_name, on_phone, on_login, on_telegram_chat_id,
}
use couriers_server_node.Prelude.{
  Bool-cases, find, ℕ, ◌≡◌, refl, sym, ap, ◌∙◌, inl, inr, String, Option, none, some, List, ◌∷◌, [],
  arith,
}
use couriers_server_node.Shifts.Service.{is_courier}
use couriers_server_node.World.{World, Env}

-- The status field, while there is one, is that of the courier as it was read.
abbrev Shows : CourierStatus → Option FormValues → Type 0
Shows status none = Unit
Shows status (some v) = v.status ≡ status

abbrev Remembers : CourierStatus → CourierDrawer → Type 0
Remembers status s = (s.courier.item.status ≡ status) × Shows status s.form

set_field-status :
    (field : Field) (text : String) (v : FormValues) → (set_field field text v).status ≡ v.status
set_field-status on_first_name text v = refl
set_field-status on_last_name text v = refl
set_field-status on_phone text v = refl
set_field-status on_login text v = refl
set_field-status on_telegram_chat_id text v = refl

change_fields-Shows :
    (status : CourierStatus) (f : FormValues → FormValues) (form : Option FormValues)
    → ((v : FormValues) → v.status ≡ status → (f v).status ≡ status)
    → Shows status form
    → Shows status (change_fields f form)
change_fields-Shows status f none keeps h = h
change_fields-Shows status f (some v) keeps h = keeps v h

handle_status_change-Remembers :
    (status value : CourierStatus) (s : CourierDrawer)
    → Remembers status s
    → Remembers status (handle_status_change value s)
unfolding handle_status_change
handle_status_change-Remembers status value s h =
    elim (Bool-cases (same_courier_status value s.courier.item.status)) [
      | inl e ↦ rw e (
        h.0,
        change_fields-Shows status (λ v. record v { status = value }) s.form
            (λ v k. same_status_eq value s.courier.item.status e ∙ h.0) h.1,
      )
      | inr n ↦ rw n (
        h.0,
        change_fields-Shows status (λ v. record v { status = s.courier.item.status }) s.form
            (λ v k. h.0) h.1,
      )
    ]

by_mode-Remembers :
    (status : CourierStatus) (mode : Mode) (viewing editing : CourierDrawer)
    → Remembers status viewing
    → Remembers status editing
    → Remembers status (by_mode mode viewing editing)
by_mode-Remembers status view viewing editing v e = v
by_mode-Remembers status edit viewing editing v e = e

on_event-Remembers :
    (status : CourierStatus) (e : DrawerEvent) (s : CourierDrawer)
    → Remembers status s
    → Remembers status (on_event e s)
unfolding on_event
on_event-Remembers status presses_edit s h = by_mode-Remembers status s.mode _ s (h.0, h.0) h
on_event-Remembers status presses_cancel s h = by_mode-Remembers status s.mode s _ h (h.0, tt)
on_event-Remembers status dismisses_modal s h = h
on_event-Remembers status (types_text field text) s h = (
  h.0,
  change_fields-Shows status (set_field field text) s.form
      (λ v k. set_field-status field text v ∙ k) h.1,
)
on_event-Remembers status (picks_status value) s h =
    by_mode-Remembers status s.mode s _ h (handle_status_change-Remembers status value s h)

on_events-Remembers :
    (status : CourierStatus) (es : List DrawerEvent) (s : CourierDrawer)
    → Remembers status s
    → Remembers status (on_events es s)
unfolding on_events
on_events-Remembers status [] s h = h
on_events-Remembers status (e ∷ es) s h =
    on_events-Remembers status es (on_event e s) (on_event-Remembers status e s h)

open_drawer-Remembers :
    (mode : Mode) (c : CourierDetail) → Remembers c.item.status (open_drawer mode c)
open_drawer-Remembers view c = (refl, tt)
open_drawer-Remembers edit c = (refl, refl)

validated-status :
    (status : CourierStatus) (form : Option FormValues) (dto : UpdateCourier)
    → Shows status form
    → validated form ≡ some dto
    → dto.status ≡ some status
validated-status status none dto h e = absurd (cc)
validated-status status (some v) dto h e = elim (Bool-cases (is_valid v)) [
  | inl t ↦ let same : to_body v ≡ dto = ground arith in ap (λ d. d.status) (sym same) ∙ ap some h
  | inr n ↦ absurd (ground arith)
]

save_values-status :
    (status : CourierStatus) (s : CourierDrawer) (dto : UpdateCourier)
    → Remembers status s
    → save_values s ≡ some dto
    → dto.status ≡ some status
unfolding save_values
save_values-status status s dto h e = validated-status status s.form dto h.1 e

-- Whatever the user did in the drawer since it read the courier, a save that is answered without an error leaves
-- the courier with the status that the drawer read, and the shifts as they were: a shift opened or closed in between
-- keeps its row and loses its status.
pub stale_save :
    (env : Env) (tenant id : ℕ) (mode : Mode) (read : CourierDetail) (es : List DrawerEvent)
    (dto : UpdateCourier) (w : World) (answer : CourierDetail)
    → save_values (on_events es (open_drawer mode read)) ≡ some dto
    → (update_courier env tenant id dto w).0 ≡ ok answer
    → let w' = (update_courier env tenant id dto w).1 in
      ((c : Courier) × (find (is_courier id tenant) w'.db.couriers ≡ some c)
        × (c.status ≡ read.item.status))
      × (w'.db.shifts ≡ w.db.shifts)
stale_save env tenant id mode read es dto w answer s r =
    let kept : Remembers read.item.status (on_events es (open_drawer mode read)) =
      on_events-Remembers read.item.status es (open_drawer mode read)
        (open_drawer-Remembers mode read) in
    let sent : dto.status ≡ some read.item.status =
      save_values-status read.item.status _ dto kept s in
    (
      update_courier-status env tenant id dto w read.item.status answer sent r,
      ap (λ d. d.shifts) (update_courier-db env tenant id dto w),
    )
