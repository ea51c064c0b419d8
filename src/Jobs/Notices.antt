-- ===== src/Jobs/Notices.antt =====
-- src/orders/jobs/new-order-notify.processor.ts: who is told of a new order.
use couriers_server_node.Entities.{Courier}
use couriers_server_node.Jobs.Processors.{
  Push, Outside, Outcome, order_push, notify_each, process_new_order, order_notice, done,
}
use couriers_server_node.Lifecycle.Calls.{filled}
use couriers_server_node.Prelude.{
  ◌==◌, if◌then◌else◌, Option-cases, filter, count, All, All-concat, count_concat, count-filter, ℕ,
  ◌+◌, String, ◌≡◌, refl, sym, subst, ◌∙◌, inl, inr, Bool, false, ◌&&◌, Option, none, some, List,
  ◌∷◌, ◌++◌, arith, str_eq, [],
}
use couriers_server_node.World.{Db}

abbrev pub token_is : String → Option String → Bool
token_is t none = false
token_is t (some x) = str_eq x t

abbrev pub is_reached_by : String → Courier → Bool
is_reached_by t c = token_is t (filled c.fcm_token)

abbrev pub is_push_to : String → Push → Bool
is_push_to t p = str_eq p.token t

-- The outcome of a loop that began with some messages sent.
record Notified (order : ℕ) (cs : List Courier) (sent : List Push) (o : Outcome) : Type 0 where
  told :
      (t : String)
      → count (is_push_to t) o.pushes ≡ count (is_push_to t) sent + count (is_reached_by t) cs
  about : All (λ (p : Push). p.data_of ≡ order_notice order) o.pushes
  ends : o.result ≡ done

notify_each-Notified :
    (send : List Push → Push → Bool) (order : ℕ) (cs : List Courier) (sent : List Push)
    (failed : List ℕ)
    → All (λ (p : Push). p.data_of ≡ order_notice order) sent
    → Notified order cs sent (notify_each send order cs sent failed)
unfolding notify_each count
notify_each-Notified send order [] sent failed a = record {
  told = λ t. omega arith;
  about = a;
  ends = refl;
}
notify_each-Notified send order (c ∷ cs) sent failed a = elim (Option-cases (filled c.fcm_token)) [
  | inl e ↦
      let n = notify_each-Notified send order cs sent failed a in
      let step : notify_each send order (c ∷ cs) sent failed
          ≡ notify_each send order cs sent failed =
        ground arith in
      subst (Notified order (c ∷ cs) sent) (sym step)
        (record { told = λ t. ground (arith, e, n.told t); about = n.about; ends = n.ends })
  | inr (token, e) ↦
      let p = order_push order token in
      let failed' : List ℕ = if send sent p then failed else failed ++ c.id ∷ [] in
      let n =
        notify_each-Notified send order cs (sent ++ p ∷ []) failed'
          (All-concat (λ (x : Push). x.data_of ≡ order_notice order) sent a refl) in
      let step : notify_each send order (c ∷ cs) sent failed
          ≡ notify_each send order cs (sent ++ p ∷ []) failed' =
        ground arith in
      subst (Notified order (c ∷ cs) sent) (sym step) (record {
        told = λ t. ground (arith, e, n.told t, count_concat (is_push_to t) sent p);
        about = n.about;
        ends = n.ends;
      })
]

all_told :
    (send : List Push → Push → Bool) (order : ℕ) (cs : List Courier) (t : String)
    → count (is_push_to t) (notify_each send order cs [] []).pushes ≡ count (is_reached_by t) cs
unfolding count
all_told send order cs t =
    let n = notify_each-Notified send order cs [] [] tt in omega (arith, n.told t)

loops :
    (out : Outside) (order owner : ℕ) (d : Db) (send : List Push → Push → Bool)
    → out.app ≡ some send
    → process_new_order out order owner d
      ≡ notify_each send order (filter (λ c. c.owner_id == owner) d.couriers) [] []
unfolding process_new_order
loops out order owner d send e = ground (arith, e)

-- Whether Firebase takes or refuses each message, the job of a new order ends without an error, and every token is sent
-- as many messages as couriers of the tenant have it, each with the order's id: a refused message stops no other.
pub process_new_order-Notified :
    (out : Outside) (order owner : ℕ) (d : Db) (send : List Push → Push → Bool)
    → out.app ≡ some send
    → let o = process_new_order out order owner d in
      (o.result ≡ done)
      × All (λ (p : Push). p.data_of ≡ order_notice order) o.pushes
      × ((t : String)
          → count (is_push_to t) o.pushes
            ≡ count (λ c. c.owner_id == owner && is_reached_by t c) d.couriers)
process_new_order-Notified out order owner d send e =
    let cs = filter (λ c. c.owner_id == owner) d.couriers in
    let n = notify_each-Notified send order cs [] [] tt in
    let s = loops out order owner d send e in
    (
      subst (λ (o : Outcome). o.result ≡ done) (sym s) n.ends,
      subst (λ (o : Outcome). All (λ (p : Push). p.data_of ≡ order_notice order) o.pushes) (sym s)
          n.about,
      λ t.
          subst
            (λ (o : Outcome).
              count (is_push_to t) o.pushes
              ≡ count (λ c. c.owner_id == owner && is_reached_by t c) d.couriers)
            (sym s)
            (all_told send order cs t
              ∙ count-filter (is_reached_by t) (λ c. c.owner_id == owner) d.couriers),
    )
