-- ===== src/Couriers/Tests.antt =====
-- src/couriers/couriers-admin.service.ts: the requests on couriers, run on the sample.
use couriers_server_node.Couriers.Admin.{
  find_one_courier, UpdateCourier, save_courier, update_courier,
}
use couriers_server_node.Couriers.Keys.{has_phone, has_login, IsIndexed}
use couriers_server_node.Entities.{Courier}
use couriers_server_node.Http.{Message, HttpError, err}
use couriers_server_node.Prelude.{
  Bool-cases, find, count, update, any, ◌≤◌, String, ◌≡◌, refl, subst, inl, inr, none, some, ◌∷◌,
  map, arith, str_eq, str_eq_iff, [],
}
use couriers_server_node.Samples.{env, courier_row, db, world}
use couriers_server_node.World.{World}

abbrev named : String → String → Courier → Courier
named phone login c = record c { phone = phone; login = some login }

abbrev listed : World
listed = record world {
  db = record db {
    couriers = named "+1" "ab" (courier_row 20) ∷ named "+2" "cd" (courier_row 21) ∷ [];
  };
}

abbrev no_change : UpdateCourier
no_change = record {
  first_name = none;
  last_name = none;
  phone = none;
  status = none;
  login = none;
  telegram_chat_id = none;
}

abbrev moved_away : UpdateCourier
moved_away = record no_change { phone = some "+3"; login = some none }

listed-IsIndexed : IsIndexed listed.db.couriers
unfolding count
listed-IsIndexed = record {
  one_phone = λ owner phone. elim (Bool-cases (str_eq "+1" phone)) [
    | inl e ↦
        let s : "+1" ≡ phone = (str_eq_iff "+1" phone).0 e in
        subst (λ q. count (has_phone owner q) listed.db.couriers ≤ 1) s (ground arith)
    | inr e ↦ ground arith
  ];
  one_login = λ owner login. elim (Bool-cases (str_eq "ab" login)) [
    | inl e ↦
        let s : "ab" ≡ login = (str_eq_iff "ab" login).0 e in
        subst (λ q. count (has_login owner q) listed.db.couriers ≤ 1) s (ground arith)
    | inr e ↦ ground arith
  ];
  one_key = λ id. ground arith;
}

phone_taken :
    (update_courier env 1 20 (record no_change { phone = some "+2" }) listed).0
    ≡ err HttpError.unique_violation
unfolding update_courier save_courier find any
phone_taken = refl

foreign_courier :
    (update_courier env 2 20 moved_away listed).0
    ≡ err (HttpError.not_found Message.courier_not_found)
unfolding update_courier find
foreign_courier = refl

login_removed :
    map (λ c. c.login) (update_courier env 1 20 moved_away listed).1.db.couriers
    ≡ none ∷ some "cd" ∷ []
unfolding update_courier save_courier find_one_courier find any update
login_removed = refl
