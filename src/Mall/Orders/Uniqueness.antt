-- ===== src/Mall/Orders/Uniqueness.antt =====
-- One order for each request of a user.
use liveclass.Prelude.{
  ◌≡◌, ◌≢◌, ap, sym, ◌∙◌, ◌⊎◌, inl, inr, String, none, some, arith, lookup, put, lookup-put,
  Bool-cases, List, [], ◌∷◌, ◌==◌, int_eq, string_eq,
}
use liveclass.Prelude.Int.{ℤ}
use liveclass.Mall.Sql.{committed-keeps}
use liveclass.Mall.Orders.{
  Order, Orders, OrderCall, find_request, order_of, apply_order, call_order, run_orders,
}
use liveclass.Mall.Orders.Lifecycle.{Change, stays, opens, turns, apply_order-Change}

-- No two rows belong to the same request.
abbrev pub IsUnique : Orders → Type 0
IsUnique t =
    (k j : String) (o q : Order)
    → lookup k t ≡ some o
    → lookup j t ≡ some q
    → o.user_id ≡ q.user_id
    → o.request_id ≡ q.request_id
    → k ≡ j

find_request-none :
    (u : ℤ) (r : String) (k : String) (o : Order) (t : Orders)
    → find_request u r t ≡ none
    → lookup k t ≡ some o
    → o.user_id ≡ u
    → o.request_id ≡ r
    → ⊥
unfolding find_request lookup
find_request-none u r k o [] h f eu er = cc
find_request-none u r k o ((j, q) ∷ t) h f eu er = ground (
  arith,
  find_request-none u r k o t,
  int_eq.same_key_iff q.user_id u,
  string_eq.same_key_iff q.request_id r,
)

-- What a lookup after a write finds: the new row under its key, or an old row.
put_cases :
    (k j : String) (v o : Order) (t t' : Orders)
    → t' ≡ put k v t
    → lookup j t' ≡ some o
    → ((k ≡ j) × (o ≡ v)) ⊎ ((k ≢ j) × (lookup j t ≡ some o))
put_cases k j v o t t' e h =
    let now = sym (ap (lookup j) e ∙ lookup-put k j v t) ∙ h in
    elim (Bool-cases (k == j)) [
      | inl hit ↦ inl ((string_eq.same_key_iff k j).0 hit, ground arith)
      | inr miss ↦ inr ((λ q. cc (miss, (string_eq.same_key_iff k j).1 q)), ground arith)
    ]

Change-IsUnique : (t t' : Orders) → Change t t' → IsUnique t → IsUnique t'
Change-IsUnique t t' (stays e) u k j o q fk fj eu er =
    u k j o q (sym (ap (lookup k) e) ∙ fk) (sym (ap (lookup j) e) ∙ fj) eu er
Change-IsUnique t t' (opens p fresh unused e) u k j o q fk fj eu er =
    elim (put_cases p.order_id k (order_of p) o t t' e fk) [
      | inl (a, b) ↦ elim (put_cases p.order_id j (order_of p) q t t' e fj) [
        | inl (c, d) ↦ sym a ∙ c
        | inr (c, d) ↦ absurd (find_request-none p.user_id p.request_id j q t unused d (cc) (cc))
      ]
      | inr (a, b) ↦ elim (put_cases p.order_id j (order_of p) q t t' e fj) [
        | inl (c, d) ↦ absurd (find_request-none p.user_id p.request_id k o t unused b (cc) (cc))
        | inr (c, d) ↦ u k j o q b d eu er
      ]
    ]
Change-IsUnique t t' (turns k' o' new found legal e) u k j o q fk fj eu er =
    elim (put_cases k' k (record o' { status = new }) o t t' e fk) [
      | inl (a, b) ↦ elim (put_cases k' j (record o' { status = new }) q t t' e fj) [
        | inl (c, d) ↦ sym a ∙ c
        | inr (c, d) ↦ sym a ∙ u k' j o' q found d (cc) (cc)
      ]
      | inr (a, b) ↦ elim (put_cases k' j (record o' { status = new }) q t t' e fj) [
        | inl (c, d) ↦ u k k' o o' b found (cc) (cc) ∙ c
        | inr (c, d) ↦ u k j o q b d eu er
      ]
    ]

-- From a table in which a user's request has one order at most, any sequence of branch calls,
-- whatever payloads and faults they meet, leads to such a table.
pub run_orders-IsUnique :
    (t : Orders) (cs : List OrderCall) → IsUnique t → IsUnique (run_orders t cs)
unfolding run_orders call_order
run_orders-IsUnique t [] u = u
run_orders-IsUnique t (c ∷ cs) u = run_orders-IsUnique (call_order t c) cs (
    committed-keeps IsUnique t (apply_order c.operation c.faults c.payload t) u
      λ t' e. Change-IsUnique t t' (apply_order-Change c.operation c.faults c.payload t t' e) u)
