-- ===== src/Mall/Tests.antt =====
-- The mall's theorems at concrete databases.
use liveclass.Prelude.{
  ◌≡◌, ◌≢◌, refl, List, [], ◌∷◌, some, arith, lookup, put, sum_rows, string_eq, int_eq,
}
use liveclass.Prelude.Int.{ℤ, pos, negsuc, ◌+ℤ◌, ◌-ℤ◌, fits_int64, neg_int64}
use liveclass.Mall.Sql.{
  reserved, released, pending, compensated, invariant_violation, deadlock, Faults, no_faults, ok,
  err,
}
use liveclass.Mall.Payload.{SagaPayload, valid_payload}
use liveclass.Mall.Inventory.{
  Inventory, InventoryDb, InventoryCall, InventoryOperation, apply_inventory, run_inventory,
  reserve_inventory, release_inventory, insert_reservation, update_inventory, update_status,
  lock_reservation, move_stock,
}
use liveclass.Mall.Inventory.Balance.{IsConsistent, stock}
use liveclass.Mall.Inventory.Consistency.{run_inventory-IsConsistent, run_inventory-stock}
use liveclass.Mall.Inventory.Violations.{apply_inventory-ne-violation}
use liveclass.Mall.Inventory.Idempotence.{apply_inventory-again}
use liveclass.Mall.Inventory.Compensation.{SameStock, release-reserve}
use liveclass.Mall.Points.{
  PointsDb, PointsCall, PointsOperation, debit_points, refund_points, apply_points, run_points,
  insert_debit, insert_refund, update_account, refund_debit,
}
use liveclass.Mall.Points.Soundness.{
  IsSound, balance_of, ledger_sum, run_points-IsSound, run_points-ledger,
}
use liveclass.Mall.Points.Repeats.{apply_points-again, refund-debit, debit-refund_uncharged}
use liveclass.Mall.Orders.{
  Order, Orders, OrderCall, OrderOperation, apply_order, run_orders, prepare_order, clamp_int32,
  insert_order, find_request, has_gid,
}
use liveclass.Mall.Orders.Lifecycle.{IsCompensated, run_orders-IsCompensated, apply_order-again}
use liveclass.Mall.Orders.Uniqueness.{IsUnique, run_orders-IsUnique}

abbrev payload : SagaPayload
payload = record {
  order_id = "o1";
  user_id = pos 7;
  request_id = "r1";
  product_id = pos 3;
  quantity = pos 2;
  points_price = pos 10;
  total_points = pos 20;
  saga_gid = "mall-o1";
  fail_at = "";
}

abbrev row : Inventory
row = record { available = pos 5; reserved = pos 0; sold = pos 0; version = pos 0 }

abbrev shop : InventoryDb
shop = record { inventories = (pos 3, row) ∷ []; reservations = [] }

shop-IsConsistent : IsConsistent shop
unfolding lookup sum_rows
shop-IsConsistent = record {
  reserved_sum = λ k. ground arith;
  sold_sum = λ k. ground arith;
  available_nonneg = λ k. ground arith;
  quantities = tt;
}

abbrev deadlocked : Faults
deadlocked n = some deadlock

abbrev calls : List InventoryCall
calls =
    record { operation = InventoryOperation.reserve; faults = no_faults; payload = payload }
    ∷ record { operation = InventoryOperation.confirm; faults = deadlocked; payload = payload }
    ∷ record { operation = InventoryOperation.release; faults = no_faults; payload = payload }
    ∷ []

run_inventory-IsConsistent_example : IsConsistent (run_inventory shop calls)
run_inventory-IsConsistent_example = run_inventory-IsConsistent shop calls shop-IsConsistent

run_inventory-stock_example : stock (pos 3) (run_inventory shop calls) ≡ stock (pos 3) shop
run_inventory-stock_example = run_inventory-stock (pos 3) shop calls

apply_inventory-ne-violation_example :
    apply_inventory InventoryOperation.release no_faults payload shop ≢ err invariant_violation
apply_inventory-ne-violation_example =
    apply_inventory-ne-violation InventoryOperation.release no_faults payload shop shop-IsConsistent

abbrev shop_reserved : InventoryDb
shop_reserved = record {
  inventories =
      (pos 3, record { available = pos 3; reserved = pos 2; sold = pos 0; version = pos 1 }) ∷ [];
  reservations = ("o1", record { product_id = pos 3; quantity = pos 2; status = reserved }) ∷ [];
}

shop_reserves :
    apply_inventory InventoryOperation.reserve no_faults payload shop ≡ ok (tt, shop_reserved)
unfolding apply_inventory reserve_inventory insert_reservation update_inventory lookup put ◌+ℤ◌ ◌-ℤ◌
    fits_int64
shop_reserves = refl

apply_inventory-again_example :
    apply_inventory InventoryOperation.reserve no_faults payload shop_reserved
    ≡ ok (tt, shop_reserved)
apply_inventory-again_example =
    apply_inventory-again InventoryOperation.reserve no_faults payload shop shop_reserved
      shop_reserves

abbrev shop_released : InventoryDb
shop_released = record {
  inventories =
      (pos 3, record { available = pos 5; reserved = pos 0; sold = pos 0; version = pos 2 }) ∷ [];
  reservations = ("o1", record { product_id = pos 3; quantity = pos 2; status = released }) ∷ [];
}

shop_reserves' : reserve_inventory no_faults payload shop ≡ ok (tt, shop_reserved)
unfolding reserve_inventory insert_reservation update_inventory lookup put ◌+ℤ◌ ◌-ℤ◌ fits_int64
shop_reserves' = refl

shop_releases : release_inventory no_faults payload shop_reserved ≡ ok (tt, shop_released)
unfolding release_inventory lock_reservation move_stock update_inventory update_status lookup put
    ◌+ℤ◌ ◌-ℤ◌ fits_int64
shop_releases = refl

release-reserve_example : SameStock shop shop_released
unfolding lookup
release-reserve_example =
    release-reserve no_faults no_faults payload shop shop_reserved shop_released refl shop_reserves'
      shop_releases

-- User 7 has 50 points.
abbrev bank : PointsDb
bank = record {
  accounts = (pos 7, record { balance = pos 50; version = pos 0 }) ∷ [];
  debits = [];
  refunds = [];
}

abbrev bank_debited : PointsDb
bank_debited = record {
  accounts = (pos 7, record { balance = pos 30; version = pos 1 }) ∷ [];
  debits = ("o1", record { user_id = pos 7; delta = negsuc 19 }) ∷ [];
  refunds = [];
}

abbrev bank_refunded : PointsDb
bank_refunded = record {
  accounts = (pos 7, record { balance = pos 50; version = pos 2 }) ∷ [];
  debits = ("o1", record { user_id = pos 7; delta = negsuc 19 }) ∷ [];
  refunds = ("o1", record { user_id = pos 7; delta = pos 20 }) ∷ [];
}

bank-IsSound : IsSound bank
unfolding lookup
bank-IsSound = record { balances = λ u. ground arith; debit_rows = tt; matched = λ k r h. cc }

abbrev points_calls : List PointsCall
points_calls =
    record { operation = PointsOperation.debit; faults = no_faults; payload = payload }
    ∷ record { operation = PointsOperation.refund; faults = deadlocked; payload = payload }
    ∷ record { operation = PointsOperation.refund; faults = no_faults; payload = payload }
    ∷ []

run_points-IsSound_example : IsSound (run_points bank points_calls)
unfolding fits_int64
run_points-IsSound_example =
    run_points-IsSound bank points_calls bank-IsSound (refl, (refl, (refl, tt)))

run_points-ledger_example :
    balance_of (pos 7) (run_points bank points_calls) +ℤ ledger_sum (pos 7) bank
    ≡ balance_of (pos 7) bank +ℤ ledger_sum (pos 7) (run_points bank points_calls)
unfolding fits_int64
run_points-ledger_example = run_points-ledger (pos 7) bank points_calls (refl, (refl, (refl, tt)))

bank_debits : debit_points no_faults payload bank ≡ ok (tt, bank_debited)
unfolding debit_points insert_debit update_account neg_int64 lookup put ◌+ℤ◌ ◌-ℤ◌ fits_int64
bank_debits = refl

bank_refunds : refund_points no_faults payload bank_debited ≡ ok (tt, bank_refunded)
unfolding refund_points refund_debit insert_refund update_account neg_int64 lookup put ◌+ℤ◌ ◌-ℤ◌
    fits_int64
bank_refunds = refl

bank_applies : apply_points PointsOperation.debit no_faults payload bank ≡ ok (tt, bank_debited)
unfolding apply_points
bank_applies = bank_debits

apply_points-again_example :
    apply_points PointsOperation.debit no_faults payload bank_debited ≡ ok (tt, bank_debited)
apply_points-again_example =
    apply_points-again PointsOperation.debit no_faults payload bank bank_debited bank_applies

refund-debit_example : balance_of (pos 7) bank_refunded ≡ balance_of (pos 7) bank
unfolding fits_int64 lookup
refund-debit_example =
    refund-debit no_faults no_faults payload bank bank_debited bank_refunded refl refl refl
      bank_debits bank_refunds (pos 7)

debit-refund_uncharged_example :
    (debit_points no_faults payload bank_refunded ≡ ok (tt, bank_refunded))
    × ((u : ℤ) → balance_of u bank_refunded ≡ balance_of u bank)
unfolding fits_int64 lookup
debit-refund_uncharged_example =
    debit-refund_uncharged no_faults no_faults payload bank bank_debited bank_refunded refl refl
      refl bank_debits bank_refunds

abbrev order_calls : List OrderCall
order_calls =
    record { operation = OrderOperation.confirm; faults = no_faults; payload = payload }
    ∷ record { operation = OrderOperation.prepare; faults = no_faults; payload = payload }
    ∷ []

abbrev cancelled_order : Order
cancelled_order = record {
  user_id = pos 7;
  request_id = "r1";
  product_id = pos 3;
  quantity = pos 2;
  total_points = pos 20;
  status = compensated;
  saga_gid = "mall-o1";
}

abbrev cancelled : Orders
cancelled = ("o1", cancelled_order) ∷ []

run_orders-IsCompensated_example : IsCompensated "o1" (run_orders cancelled order_calls)
unfolding lookup
run_orders-IsCompensated_example =
    run_orders-IsCompensated "o1" cancelled order_calls (cancelled_order, refl, refl)

run_orders-IsUnique_example : IsUnique (run_orders [] order_calls)
unfolding lookup
run_orders-IsUnique_example = run_orders-IsUnique [] order_calls (λ k j o q f g h e. cc)

abbrev ordered : Orders
ordered = ("o1", record cancelled_order { status = pending }) ∷ []

prepares : apply_order OrderOperation.prepare no_faults payload [] ≡ ok (tt, ordered)
unfolding apply_order prepare_order insert_order valid_payload find_request has_gid clamp_int32
    lookup put
prepares = refl

apply_order-again_example :
    apply_order OrderOperation.prepare no_faults payload ordered ≡ ok (tt, ordered)
unfolding clamp_int32
apply_order-again_example =
    apply_order-again OrderOperation.prepare no_faults payload [] ordered refl prepares
