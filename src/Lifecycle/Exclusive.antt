-- ===== src/Lifecycle/Exclusive.antt =====
-- The holder of an order under interleavings of requests (src/orders/order-lifecycle.service.ts).
use couriers_server_node.Entities.{OrderStatus, Order, created}
use couriers_server_node.Lifecycle.AdvanceEffect.{advance_check_cases}
use couriers_server_node.Lifecycle.Diagram.{set_status-status, set_status-courier}
use couriers_server_node.Lifecycle.Interleaving.{
  Pending, System, commit, Admitted, Step, Reach, env_of, user_of, request_of, commit-orders, admit,
  perform, here, next, claim_admitted, advance_admitted, cancel_admitted, claiming, advancing,
  cancelling,
}
use couriers_server_node.Lifecycle.Rows.{condition, write}
use couriers_server_node.Lifecycle.Rules.{courier_transitions, leads_to}
use couriers_server_node.Prelude.{
  is_some, All, Pointwise, Pointwise-refl, Pointwise-mono, Pointwise-update, All-append,
  All-append_left, All-append_right, ℕ, ◌≡◌, refl, sym, subst, ◌≢◌, ◌⊎◌, inl, inr, true, none, some,
  List, ◌∷◌, arith, [],
}
use couriers_server_node.World.{World}

-- What an order that had a courier may become: it keeps the courier, or it has none and cannot be
-- claimed again.
abbrev Held : Order → Order → Type 0
Held o o' =
    is_some o.courier_id ≡ true
    → (o'.courier_id ≡ o.courier_id) ⊎ ((o'.courier_id ≡ none) × (o'.status ≢ created))

-- A pending advance does not lead back to the start.
abbrev IsForward : Pending → Type 0
IsForward (claiming env id user) = Unit
IsForward (advancing env id t user o) = t ≢ created
IsForward (cancelling env id reason user o) = Unit

write-Held :
    (p : Pending) (o x : Order)
    → IsForward p
    → condition (user_of p) (request_of p) x ≡ true
    → Held o x
    → Held o (write (env_of p) (user_of p) (request_of p) x)
write-Held (claiming env id user) o x f c h s = absurd (ground (arith, h s))
write-Held (advancing env id t user y) o x f c h s =
    ground (arith, h s, set_status-courier env t x, set_status-status env t x)
write-Held (cancelling env id reason user y) o x f c h s = inr (refl, λ e. cc)

-- The invariant of an interleaving that began with the orders `os`.
record IsExclusive (os : List Order) (s : System) : Type 0 where
  forward : All IsForward s.pending
  held : Pointwise Held os s.world.db.orders

commit-Held :
    (os : List Order) (p : Pending) (w : World)
    → IsForward p
    → Pointwise Held os w.db.orders
    → Pointwise Held os (commit p w).db.orders
commit-Held os p w f h = elim (commit-orders p w) [
  | inl e ↦ subst (λ d. Pointwise Held os d.orders) (sym e) h
  | inr e ↦
      subst (Pointwise Held os) (sym e)
        (Pointwise-update Held _ _ (λ o x c k. write-Held p o x f c k) os w.db.orders h)
]

Admitted-IsForward : {w : World} {p : Pending} → Admitted w p → IsForward p
Admitted-IsForward (claim_admitted env id user e) = tt
Admitted-IsForward (cancel_admitted env id reason user o e) = tt
Admitted-IsForward {w} (advance_admitted env id t user o e) = λ q.
    elim (advance_check_cases id t user w) [
      | inl (x, h) ↦ cc
      | inr (y, can, h) ↦ no_start y.status t can.edge q
    ]
  where
    no_start : (s t : OrderStatus) → leads_to (courier_transitions s) t ≡ true → t ≢ created
    no_start s t k q = ground arith

Step-IsExclusive : (os : List Order) {s t : System} → Step s t → IsExclusive os s → IsExclusive os t
Step-IsExclusive os (admit p a) v = record {
  forward = (Admitted-IsForward a, v.forward);
  held = v.held;
}
Step-IsExclusive os (perform {w} before after p) v =
    let rest = All-append_right IsForward before (p ∷ after) v.forward in
    record {
      forward =
          All-append IsForward before after (All-append_left IsForward before (p ∷ after) v.forward)
            rest.1;
      held = commit-Held os p w rest.0 v.held;
    }

Reach-IsExclusive :
    (os : List Order) {s t : System} → IsExclusive os s → Reach s t → IsExclusive os t
Reach-IsExclusive os v here = v
Reach-IsExclusive os v (next r st) = Step-IsExclusive os st (Reach-IsExclusive os v r)

-- An order that a courier holds has that courier, or none, after any interleaving of claims,
-- advances and cancellations that starts with nothing pending: it never passes to another.
pub Reach-Held :
    (w : World) (s : System)
    → Reach (record { world = w; pending = [] }) s
    → Pointwise
        (λ o o'.
          (c : ℕ) → o.courier_id ≡ some c → (o'.courier_id ≡ some c) ⊎ (o'.courier_id ≡ none))
        w.db.orders
        s.world.db.orders
Reach-Held w s r =
    Pointwise-mono Held _ (λ x y h c e. ground (arith, h (ground arith))) w.db.orders
      s.world.db.orders
      (Reach-IsExclusive w.db.orders
        (record { forward = tt; held = Pointwise-refl Held (λ x h. inl refl) w.db.orders }) r).held
