-- ===== src/Mall/Orders/Lifecycle.antt =====
-- The status of an order: pending, then confirmed or compensated, and compensated for good.
use liveclass.Prelude.{
  ◌≡◌, ◌≢◌, refl, ap, sym, ◌∙◌, ◌⊎◌, inl, inr, String, none, some, arith, lookup, put, lookup-put,
  lookup-put_self, lookup-put_kept, Option-cases, Bool-cases, beq_refl, List, [], ◌∷◌, ◌==◌, int_eq,
  string_eq,
}
use liveclass.Mall.Sql.{
  Status, pending, confirmed, compensated, Faults, no_faults, ok, committed-keeps,
}
use liveclass.Mall.Inventory.{is_status}
use liveclass.Mall.Payload.{SagaPayload}
use liveclass.Mall.Orders.{
  Order, Orders, OrderCall, OrderOperation, find_request, has_gid, clamp_int32, order_of,
  insert_order, update_order, prepare_order, cancel_order, confirm_order, apply_order, call_order,
  run_orders,
}

-- What a successful branch has done to the table.
pub data Change (t t' : Orders) : Type 0 where
  stays : t' ≡ t → Change t t'
  opens :
      (p : SagaPayload)
      → lookup p.order_id t ≡ none
      → find_request p.user_id p.request_id t ≡ none
      → t' ≡ put p.order_id (order_of p) t
      → Change t t'
  turns :
      (k : String) (o : Order) (new : Status)
      → lookup k t ≡ some o
      → ((o.status ≡ pending) × (new ≡ confirmed))
        ⊎ ((o.status ≢ compensated) × (new ≡ compensated))
      → t' ≡ put k (record o { status = new }) t
      → Change t t'

prepare-Change :
    (f : Faults) (p : SagaPayload) (t t' : Orders) → prepare_order f p t ≡ ok (tt, t') → Change t t'
unfolding prepare_order insert_order
prepare-Change f p t t' h = elim (Option-cases (lookup p.order_id t)) [
  | inr (o, old) ↦ stays (ground arith)
  | inl fresh ↦ elim (Option-cases (find_request p.user_id p.request_id t)) [
    | inr (o, old) ↦ stays (ground arith)
    | inl unused ↦ elim (Bool-cases (has_gid p.saga_gid t)) [
      | inl taken ↦ stays (ground arith)
      | inr free ↦ opens p fresh unused (ground arith)
    ]
  ]
]

cancel-Change :
    (f : Faults) (p : SagaPayload) (t t' : Orders) → cancel_order f p t ≡ ok (tt, t') → Change t t'
unfolding cancel_order update_order
cancel-Change f p t t' h = elim (Option-cases (lookup p.order_id t)) [
  | inl missing ↦ stays (ground arith)
  | inr (o, found) ↦ elim (Bool-cases (is_status o.status compensated)) [
    | inl over ↦ stays (ground arith)
    | inr live ↦
        turns p.order_id o compensated found (inr ((λ e. ground arith), refl)) (ground arith)
  ]
]

confirm-Change :
    (f : Faults) (p : SagaPayload) (t t' : Orders) → confirm_order f p t ≡ ok (tt, t') → Change t t'
unfolding confirm_order update_order
confirm-Change f p t t' h = elim (Option-cases (lookup p.order_id t)) [
  | inl missing ↦ stays (ground arith)
  | inr (o, found) ↦ elim (Bool-cases (is_status o.status pending)) [
    | inl waits ↦ turns p.order_id o confirmed found (inl (ground arith, refl)) (ground arith)
    | inr moved ↦ stays (ground arith)
  ]
]

pub apply_order-Change :
    (op : OrderOperation) (f : Faults) (p : SagaPayload) (t t' : Orders)
    → apply_order op f p t ≡ ok (tt, t')
    → Change t t'
unfolding apply_order
apply_order-Change OrderOperation.prepare f p t t' h = prepare-Change f p t t' h
apply_order-Change OrderOperation.cancel f p t t' h = cancel-Change f p t t' h
apply_order-Change OrderOperation.confirm f p t t' h = confirm-Change f p t t' h

-- An order that is compensated stays so.
abbrev pub IsCompensated : String → Orders → Type 0
IsCompensated k t = (o : Order) × (lookup k t ≡ some o) × (o.status ≡ compensated)

Change-IsCompensated :
    (k : String) (t t' : Orders) → Change t t' → IsCompensated k t → IsCompensated k t'
Change-IsCompensated k t t' (stays e) v = rw e v
Change-IsCompensated k t t' (opens p fresh unused e) (o, found, over) =
    (o, e' ∙ lookup-put_kept p.order_id k (order_of p) o t fresh found, over)
  where
    e' : lookup k t' ≡ lookup k (put p.order_id (order_of p) t)
    e' = ap (lookup k) e
Change-IsCompensated k t t' (turns k' o' new found' legal e) (o, found, over) =
    elim (Bool-cases (k' == k)) [
      | inl hit ↦
          let key : k' ≡ k = (string_eq.same_key_iff k' k).0 hit in
          let same : some o' ≡ some o =
            sym found' ∙ (ap (λ (x : String). lookup x t) key ∙ found) in
          absurd (ground arith)
      | inr miss ↦ (
        o,
        ap (lookup k) e ∙ (lookup-put k' k (record o' { status = new }) t ∙ ground arith),
        over,
      )
    ]

-- An order that is compensated stays compensated through any sequence of branch calls.
pub run_orders-IsCompensated :
    (k : String) (t : Orders) (cs : List OrderCall)
    → IsCompensated k t
    → IsCompensated k (run_orders t cs)
unfolding run_orders call_order
run_orders-IsCompensated k t [] v = v
run_orders-IsCompensated k t (c ∷ cs) v = run_orders-IsCompensated k (call_order t c) cs (
    committed-keeps (IsCompensated k) t (apply_order c.operation c.faults c.payload t) v λ t' e.
      Change-IsCompensated k t t' (apply_order-Change c.operation c.faults c.payload t t' e) v)

-- The row of a new order is the one that its request finds.
find_request-put_new :
    (p : SagaPayload) (t : Orders)
    → lookup p.order_id t ≡ none
    → find_request p.user_id p.request_id t ≡ none
    → find_request p.user_id p.request_id (put p.order_id (order_of p) t)
      ≡ some (p.order_id, order_of p)
unfolding find_request lookup put
find_request-put_new p [] h u = ground (arith, beq_refl p.user_id, beq_refl p.request_id)
find_request-put_new p ((k, o) ∷ t) h u = ground (arith, find_request-put_new p t)

prepare-again :
    (f : Faults) (p : SagaPayload) (t t' : Orders)
    → clamp_int32 p.quantity ≡ p.quantity
    → prepare_order f p t ≡ ok (tt, t')
    → prepare_order no_faults p t' ≡ ok (tt, t')
unfolding prepare_order insert_order
prepare-again f p t t' q h = elim (Option-cases (lookup p.order_id t)) [
  | inr (o, old) ↦ ground arith
  | inl fresh ↦ elim (Option-cases (find_request p.user_id p.request_id t)) [
    | inr (o, old) ↦ ground arith
    | inl unused ↦ elim (Bool-cases (has_gid p.saga_gid t)) [
      | inl taken ↦ ground arith
      | inr free ↦
          let known = lookup-put_self p.order_id (order_of p) t in
          let found = find_request-put_new p t fresh unused in
          ground (
            arith,
            known,
            found,
            beq_refl p.order_id,
            beq_refl p.product_id,
            beq_refl p.quantity,
            beq_refl p.total_points,
          )
    ]
  ]
]

cancel-again :
    (f : Faults) (p : SagaPayload) (t t' : Orders)
    → cancel_order f p t ≡ ok (tt, t')
    → cancel_order no_faults p t' ≡ ok (tt, t')
unfolding cancel_order update_order
cancel-again f p t t' h = elim (Option-cases (lookup p.order_id t)) [
  | inl missing ↦ ground arith
  | inr (o, found) ↦
      ground (arith, lookup-put_self p.order_id (record o { status = compensated }) t)
]

confirm-again :
    (f : Faults) (p : SagaPayload) (t t' : Orders)
    → confirm_order f p t ≡ ok (tt, t')
    → confirm_order no_faults p t' ≡ ok (tt, t')
unfolding confirm_order update_order
confirm-again f p t t' h = elim (Option-cases (lookup p.order_id t)) [
  | inl missing ↦ ground arith
  | inr (o, found) ↦ ground (arith, lookup-put_self p.order_id (record o { status = confirmed }) t)
]

-- If the preparation of an order whose quantity fits its column, its confirmation or its
-- cancellation succeeded, the same call again, with no fault at its statements, succeeds too and
-- changes nothing.
pub apply_order-again :
    (op : OrderOperation) (f : Faults) (p : SagaPayload) (t t' : Orders)
    → clamp_int32 p.quantity ≡ p.quantity
    → apply_order op f p t ≡ ok (tt, t')
    → apply_order op no_faults p t' ≡ ok (tt, t')
unfolding apply_order
apply_order-again OrderOperation.prepare f p t t' q h = prepare-again f p t t' q h
apply_order-again OrderOperation.cancel f p t t' q h = cancel-again f p t t' h
apply_order-again OrderOperation.confirm f p t t' q h = confirm-again f p t t' h
