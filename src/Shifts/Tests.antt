-- ===== src/Shifts/Tests.antt =====
-- src/couriers/shift-management.service.ts: the requests on shifts, run on the sample.
use couriers_server_node.Http.{Message, HttpError, err}
use couriers_server_node.Prelude.{count, any, ◌≡◌, refl, arith}
use couriers_server_node.Prelude.Int.{ℤ}
use couriers_server_node.Samples.{env, anna, db, world}
use couriers_server_node.Shifts.Agreement.{Consistent, IsMember, handle_shift-Consistent}
use couriers_server_node.Shifts.Invariant.{handle_shift, closes}
use couriers_server_node.Shifts.Service.{
  round_minutes, shift_to_dto, insert_shift, open_rows, open_shift,
}
use couriers_server_node.World.{transaction, catch_unique}

rounding :
    (round_minutes 0 90000 ≡ ℤ.pos 2)
    × (round_minutes 90000 0 ≡ ℤ.negsuc 0)
    × (round_minutes 30000 0 ≡ ℤ.pos 0)
unfolding round_minutes
rounding = (refl, refl, refl)

second_opening_refused :
    (open_shift env anna world).0 ≡ err (HttpError.conflict Message.shift_already_open)
unfolding open_shift open_rows insert_shift catch_unique transaction shift_to_dto any
second_opening_refused = refl

IsMember-couriers : IsMember anna db
IsMember-couriers = record {
  as_courier = (λ _. refl, (λ _. refl, tt));
  on_shifts = (λ _. refl, (λ _. refl, tt));
}

sample-Consistent : Consistent db
unfolding count any
sample-Consistent = record {
  one_open = λ k. ground arith;
  ended = (refl, (refl, tt));
  agree = (refl, (refl, tt));
}

handle_shift-Consistent_example : Consistent (handle_shift env anna closes world).db
handle_shift-Consistent_example =
    handle_shift-Consistent env anna closes world IsMember-couriers sample-Consistent
