-- ===== src/Orders/Unique.antt =====
-- src/orders/orders.service.ts: the numbers of a tenant's orders and the phones of its clients.
use couriers_server_node.Entities.{Owner, Client, AuthUser, Order}
use couriers_server_node.Orders.Effects.{created_db, found_client, create-cases}
use couriers_server_node.Orders.Responses.{CreateOrderDto}
use couriers_server_node.Orders.Service.{
  is_client_of, is_numbered, new_client, new_order, stored_order, create,
}
use couriers_server_node.Prelude.{
  Bool-cases, count, any, any-count, count_concat, none-any-find, ℕ, ◌≤◌, String, ◌≡◌, refl, sym,
  subst, inl, inr, Bool, true, false, Option, none, some, List, ◌∷◌, ◌++◌, arith, str_eq,
  str_eq_iff, [],
}
use couriers_server_node.World.{Db, World, Env}

pub record IsUnique (d : Db) : Type 0 where
  pub numbers : (owner : ℕ) (number : String) → count (is_numbered owner number) d.orders ≤ 1
  pub phones : (owner : ℕ) (phone : String) → count (is_client_of owner phone) d.clients ≤ 1

same_number : (a b : String) → str_eq a b ≡ true → a ≡ b
same_number a b e = (str_eq_iff a b).0 e

numbered-count :
    (o : Order) (os : List Order)
    → any (is_numbered o.owner_id o.order_number) os ≡ false
    → ((owner : ℕ) (number : String) → count (is_numbered owner number) os ≤ 1)
    → (owner : ℕ) (number : String) → count (is_numbered owner number) (os ++ o ∷ []) ≤ 1
numbered-count o os free h owner number = elim (Bool-cases (is_numbered owner number o)) [
  | inl e ↦
      let n : o.order_number ≡ number = same_number o.order_number number (ground arith) in
      let k : o.owner_id ≡ owner = ground arith in
      rw (count_concat (is_numbered owner number) os o, e)
        (let z : count (is_numbered owner number) os ≡ 0 = any-count (is_numbered owner number) os (
            subst (λ m. any (is_numbered m number) os ≡ false) k
              (subst (λ m. any (is_numbered o.owner_id m) os ≡ false) n free)) in
          omega arith)
  | inr e ↦ rw (count_concat (is_numbered owner number) os o, e) (h owner number)
]

phoned-count :
    (c : Client) (cs : List Client)
    → any (is_client_of c.owner_id c.phone) cs ≡ false
    → ((owner : ℕ) (phone : String) → count (is_client_of owner phone) cs ≤ 1)
    → (owner : ℕ) (phone : String) → count (is_client_of owner phone) (cs ++ c ∷ []) ≤ 1
phoned-count c cs free h owner phone = elim (Bool-cases (is_client_of owner phone c)) [
  | inl e ↦
      let n : c.phone ≡ phone = same_number c.phone phone (ground arith) in
      let k : c.owner_id ≡ owner = ground arith in
      rw (count_concat (is_client_of owner phone) cs c, e)
        (let z : count (is_client_of owner phone) cs ≡ 0 = any-count (is_client_of owner phone) cs (
            subst (λ m. any (is_client_of m phone) cs ≡ false) k
              (subst (λ m. any (is_client_of c.owner_id m) cs ≡ false) n free)) in
          omega arith)
  | inr e ↦ rw (count_concat (is_client_of owner phone) cs c, e) (h owner phone)
]

pub created-phones :
    (env : Env) (dto : CreateOrderDto) (user : AuthUser) (o : Owner) (d : Db)
    (found : Option Client)
    → found_client dto user d ≡ found
    → IsUnique d
    → (owner : ℕ) (phone : String)
    → count (is_client_of owner phone) (created_db env dto user o found d).clients ≤ 1
created-phones env dto user o d none e u =
    phoned-count (new_client env dto user) d.clients
      (none-any-find (is_client_of user.owner_id dto.client_phone) d.clients e) u.phones
created-phones env dto user o d (some c) e u = u.phones

pub created-numbers :
    (env : Env) (dto : CreateOrderDto) (user : AuthUser) (o : Owner) (d : Db)
    (found : Option Client)
    → any (is_numbered user.owner_id dto.order_number) d.orders ≡ false
    → IsUnique d
    → (owner : ℕ) (number : String)
    → count (is_numbered owner number) (created_db env dto user o found d).orders ≤ 1
created-numbers env dto user o d none free u =
    numbered-count (stored_order env (new_order env dto user o (new_client env dto user))) d.orders
      free u.numbers
created-numbers env dto user o d (some c) free u =
    numbered-count (stored_order env (new_order env dto user o c)) d.orders free u.numbers

-- After `create`, whatever it answers, a tenant has at most one order of each number and at most one
-- client of each phone, if that was so before.
pub create-IsUnique :
    (env : Env) (usable : Bool) (dto : CreateOrderDto) (user : AuthUser) (w : World)
    → IsUnique w.db
    → IsUnique (create env usable dto user w).1.db
create-IsUnique env usable dto user w u = elim (create-cases env usable dto user w) [
  | inl r ↦ subst IsUnique (sym r.same_db) u
  | inr (o, g) ↦ subst IsUnique (sym g.written) (record {
    numbers = created-numbers env dto user o w.db (found_client dto user w.db) g.can.free u;
    phones = created-phones env dto user o w.db (found_client dto user w.db) refl u;
  })
]
