-- ===== src/Mall/Orders.antt =====
-- The order branches of internal/rpc/mall/domain/http.go (`prepareOrder`, `cancelOrder`,
-- `confirmOrder`) over the table mall_orders of model.go, keyed by its primary key. Two further
-- unique keys, (user_id, request_id) and saga_gid, are checked by the insert.
pub mod Lifecycle
pub mod Uniqueness
use liveclass.Prelude.{
  ℕ, zero, suc, Bool, true, false, not, ◌&&◌, ◌||◌, String, Option, none, some, List, [], ◌∷◌,
  Table, lookup, put, ◌==◌, string_eq, int_eq, if◌then◌else◌,
}
use liveclass.Prelude.Int.{ℤ, pos, ltb_ℤ}
use liveclass.Mall.Sql.{
  Status, pending, confirmed, compensated, idempotency_conflict, invalid_payload, status_refused,
  Result, ok, err, Faults, Tx, ◌>>=◌, ◌>>◌, pure, fail, fail_if, exec, select_row, committed,
}
use liveclass.Mall.Inventory.{is_status}
use liveclass.Mall.Payload.{SagaPayload, valid_payload}

pub record Order : Type 0 where
  pub user_id : ℤ
  pub request_id : String
  pub product_id : ℤ
  pub quantity : ℤ
  pub total_points : ℤ
  pub status : Status
  pub saga_gid : String

abbrev pub Orders : Type 0
Orders = Table String Order

abbrev pub is_request : ℤ → String → Order → Bool
is_request u r o = o.user_id == u && o.request_id == r

-- SELECT id, ... WHERE user_id=? AND request_id=?
unfoldable pub find_request : ℤ → String → Orders → Option (String × Order)
find_request u r [] = none
find_request u r ((k, o) ∷ t) = if is_request u r o then some (k, o) else find_request u r t

unfoldable pub has_gid : String → Orders → Bool
has_gid g [] = false
has_gid g ((k, o) ∷ t) = o.saga_gid == g || has_gid g t

-- The INT column `quantity`: INSERT IGNORE stores the largest value in place of a larger one.
unfoldable pub clamp_int32 : ℤ → ℤ
clamp_int32 q = if ltb_ℤ (pos 2147483647) q then pos 2147483647 else q

abbrev pub order_of : SagaPayload → Order
order_of p = record {
  user_id = p.user_id;
  request_id = p.request_id;
  product_id = p.product_id;
  quantity = clamp_int32 p.quantity;
  total_points = p.total_points;
  status = pending;
  saga_gid = p.saga_gid;
}

-- INSERT IGNORE INTO mall_orders: the number of rows inserted.
unfoldable pub insert_order : SagaPayload → Tx Orders ℕ
insert_order p t = elim (lookup p.order_id t) [
  | some o ↦ ok (0, t)
  | none ↦ elim (find_request p.user_id p.request_id t) [
    | some o ↦ ok (0, t)
    | none ↦ if has_gid p.saga_gid t then ok (0, t) else ok (1, put p.order_id (order_of p) t)
  ]
]

-- UPDATE mall_orders SET status=new WHERE id=? AND guard: the rows affected.
unfoldable pub update_order : String → Status → (Status → Bool) → Tx Orders ℕ
update_order k new guard t = elim (lookup k t) [
  | none ↦ ok (0, t)
  | some o ↦ if guard o.status then ok (1, put k (record o { status = new }) t) else ok (0, t)
]

-- The row that the conflict check of `prepareOrder` accepts.
abbrev pub same_order : SagaPayload → String × Order → Bool
same_order p (k, o) =
    k == p.order_id
    && (o.product_id == p.product_id
        && (o.quantity == p.quantity && o.total_points == p.total_points))

unfoldable pub prepare_order : Faults → SagaPayload → Tx Orders (Unit {0})
prepare_order f p = do
  fail_if (not (valid_payload p)) invalid_payload
  affected ← exec f 0 (insert_order p)
  elim affected [
    | suc _ ↦ pure tt
    | zero ↦ do
      row ← exec f 1 (select_row (find_request p.user_id p.request_id))
      fail_if (not (same_order p row)) idempotency_conflict
  ]

unfoldable pub cancel_order : Faults → SagaPayload → Tx Orders (Unit {0})
cancel_order f p = do
  _ ← exec f 0 (update_order p.order_id compensated (λ s. not (is_status s compensated)))
  pure tt

unfoldable pub confirm_order : Faults → SagaPayload → Tx Orders (Unit {0})
confirm_order f p = do
  affected ← exec f 0 (update_order p.order_id confirmed (λ s. is_status s pending))
  elim affected [
    | suc _ ↦ pure tt
    | zero ↦ do
      o ← exec f 1 (select_row (lookup p.order_id))
      fail_if (not (is_status o.status confirmed)) (status_refused o.status)
  ]

pub data OrderOperation : Type 0 where
  prepare cancel confirm : OrderOperation

unfoldable pub apply_order : OrderOperation → Faults → SagaPayload → Tx Orders (Unit {0})
apply_order prepare f p = prepare_order f p
apply_order cancel f p = cancel_order f p
apply_order confirm f p = confirm_order f p

-- One branch call, by what it leaves committed.
pub record OrderCall : Type 0 where
  pub operation : OrderOperation
  pub faults : Faults
  pub payload : SagaPayload

unfoldable pub call_order : Orders → OrderCall → Orders
call_order t c = committed t (apply_order c.operation c.faults c.payload t)

unfoldable pub run_orders : Orders → List OrderCall → Orders
run_orders t [] = t
run_orders t (c ∷ cs) = run_orders (call_order t c) cs
