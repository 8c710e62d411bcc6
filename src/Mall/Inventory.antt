-- ===== src/Mall/Inventory.antt =====
-- The inventory mutations of internal/rpc/mall/domain/mutations.go over the tables
-- mall_inventories and mall_inventory_reservations of model.go. Timestamps are left out: nothing
-- reads them.
pub mod Moves
pub mod Balance
pub mod Consistency
pub mod Violations
pub mod Idempotence
pub mod Compensation
use liveclass.Prelude.{
  ℕ, zero, suc, Bool, true, false, not, ◌&&◌, ◌||◌, String, Option, none, some, List, [], ◌∷◌,
  Table, lookup, put, ◌==◌, string_eq, int_eq, nat_beq, if◌then◌else◌,
}
use liveclass.Prelude.Int.{ℤ, pos, ◌+ℤ◌, ◌-ℤ◌, leb_ℤ, is_positive, fits_int64}
use liveclass.Mall.Sql.{
  Status, reserved, confirmed, released, pending, compensated, insufficient_stock,
  idempotency_conflict, invalid_mutation, unknown_operation, invariant_violation, status_refused,
  no_rows, Error, Result, ok, err, Faults, Tx, ◌>>=◌, ◌>>◌, pure, fail, fail_if, exec, select_row,
  committed, out_of_range,
}
use liveclass.Mall.Payload.{SagaPayload}

pub record Inventory : Type 0 where
  pub available : ℤ
  pub reserved : ℤ
  pub sold : ℤ
  pub version : ℤ

pub record InventoryReservation : Type 0 where
  pub product_id : ℤ
  pub quantity : ℤ
  pub status : Status

pub record InventoryDb : Type 0 where
  pub inventories : Table ℤ Inventory
  pub reservations : Table String InventoryReservation

pub data InventoryOperation : Type 0 where
  reserve release confirm unconfirm : InventoryOperation
  other : String → InventoryOperation

abbrev pub is_status : Status → Status → Bool
is_status pending pending = true
is_status reserved reserved = true
is_status confirmed confirmed = true
is_status released released = true
is_status compensated compensated = true
is_status _ _ = false

-- Sets a row, `INSERT` or `UPDATE`.
abbrev pub put_inventory : ℤ → Inventory → InventoryDb → InventoryDb
put_inventory k v db = record db { inventories = put k v db.inventories }

abbrev pub put_reservation : String → InventoryReservation → InventoryDb → InventoryDb
put_reservation k v db = record db { reservations = put k v db.reservations }

-- INSERT IGNORE INTO mall_inventory_reservations: the number of rows inserted.
unfoldable pub insert_reservation : SagaPayload → Tx InventoryDb ℕ
insert_reservation p db = elim (lookup p.order_id db.reservations) [
  | none ↦ ok (1, put_reservation p.order_id new_row db)
  | some r ↦ ok (0, db)
]
  where
    new_row : InventoryReservation
    new_row = record { product_id = p.product_id; quantity = p.quantity; status = reserved }

-- The columns that an UPDATE of mall_inventories sets, as expressions over the row.
pub record Assignment : Type 0 where
  pub available : Inventory → ℤ
  pub reserved : Inventory → ℤ
  pub sold : Inventory → ℤ

abbrev pub assigned : Assignment → Inventory → Inventory
assigned a row = record {
  available = a.available row;
  reserved = a.reserved row;
  sold = a.sold row;
  version = row.version +ℤ pos 1;
}

-- Each column within BIGINT.
abbrev pub fits_columns : Inventory → Bool
fits_columns row =
    fits_int64 row.available
    && (fits_int64 row.reserved && (fits_int64 row.sold && fits_int64 row.version))

-- UPDATE mall_inventories SET ..., version=version+1 WHERE product_id=? AND guard: the rows affected.
unfoldable pub update_inventory : ℤ → (Inventory → Bool) → Assignment → Tx InventoryDb ℕ
update_inventory k guard a db = elim (lookup k db.inventories) [
  | none ↦ ok (0, db)
  | some row ↦
      if guard row
      then if fits_columns (assigned a row)
        then ok (1, put_inventory k (assigned a row) db)
        else err out_of_range
      else ok (0, db)
]

-- UPDATE mall_inventory_reservations SET status=new WHERE order_id=? AND status=old
unfoldable pub update_status : String → Status → Status → Tx InventoryDb ℕ
update_status k new old db = elim (lookup k db.reservations) [
  | none ↦ ok (0, db)
  | some r ↦
      if is_status r.status old
      then ok (1, put_reservation k (record r { status = new }) db)
      else ok (0, db)
]

-- SELECT ... FOR UPDATE, as `lockReservation` and the conflict check of `reserveInventoryTx` do.
unfoldable pub lock_reservation : Faults → ℕ → String → Tx InventoryDb InventoryReservation
lock_reservation f n k = exec f n (select_row (λ db. lookup k db.reservations))

abbrev pub same_reservation : SagaPayload → InventoryReservation → Bool
same_reservation p r = r.product_id == p.product_id && r.quantity == p.quantity

-- The repeated request of `reserveInventoryTx`.
abbrev reserve_again : SagaPayload → InventoryReservation → Tx InventoryDb (Unit {0})
reserve_again p r = do
  fail_if (not (same_reservation p r)) idempotency_conflict
  fail_if (not (is_status r.status reserved || is_status r.status confirmed))
      (status_refused r.status)

unfoldable pub reserve_inventory : Faults → SagaPayload → Tx InventoryDb (Unit {0})
reserve_inventory f p = do
  fail_if (p.order_id == "" || (not (is_positive p.product_id) || not (is_positive p.quantity)))
      invalid_mutation
  affected ← exec f 0 (insert_reservation p)
  elim affected [
    | zero ↦ lock_reservation f 1 p.order_id >>= reserve_again p
    | suc _ ↦ do
      rows ← exec f 2 (
          update_inventory p.product_id (λ i. leb_ℤ p.quantity i.available)
            (record {
              available = λ i. i.available -ℤ p.quantity;
              reserved = λ i. i.reserved +ℤ p.quantity;
              sold = λ i. i.sold;
            }))
      fail_if (not (nat_beq rows 1)) insufficient_stock
  ]

-- A missing reservation is no error to `releaseInventoryTx` and `unconfirmInventoryTx`.
abbrev pub when_found :
    Tx InventoryDb InventoryReservation
    → (InventoryReservation → Tx InventoryDb (Unit {0}))
    → Tx InventoryDb (Unit {0})
when_found m k db = elim (m db) [
  | ok (r, db') ↦ k r db'
  | err e ↦ elim e [ no_rows ↦ ok (tt, db) | other_error ↦ err other_error ]
]

-- The two updates that move a reservation's quantity and set its status.
unfoldable pub move_stock :
    Faults
    → String
    → InventoryReservation
    → Status
    → Status
    → (Inventory → Bool)
    → Assignment
    → Tx InventoryDb (Unit {0})
move_stock f k r new old guard a = do
  rows ← exec f 1 (update_inventory r.product_id guard a)
  fail_if (not (nat_beq rows 1)) invariant_violation
  _ ← exec f 2 (update_status k new old)
  pure tt

abbrev release_found : Faults → SagaPayload → InventoryReservation → Tx InventoryDb (Unit {0})
release_found f p r = do
  fail_if (not (same_reservation p r)) idempotency_conflict
  elim r.status [
    | released ↦ pure tt
    | reserved ↦
        move_stock f p.order_id r released reserved (λ i. leb_ℤ r.quantity i.reserved)
          (record {
            available = λ i. i.available +ℤ r.quantity;
            reserved = λ i. i.reserved -ℤ r.quantity;
            sold = λ i. i.sold;
          })
    | s ↦ fail (status_refused s)
  ]

unfoldable pub release_inventory : Faults → SagaPayload → Tx InventoryDb (Unit {0})
release_inventory f p = when_found (lock_reservation f 0 p.order_id) (release_found f p)

abbrev confirm_found : Faults → SagaPayload → InventoryReservation → Tx InventoryDb (Unit {0})
confirm_found f p r = do
  fail_if (not (same_reservation p r)) idempotency_conflict
  elim r.status [
    | confirmed ↦ pure tt
    | reserved ↦
        move_stock f p.order_id r confirmed reserved (λ i. leb_ℤ r.quantity i.reserved)
          (record {
            available = λ i. i.available;
            reserved = λ i. i.reserved -ℤ r.quantity;
            sold = λ i. i.sold +ℤ r.quantity;
          })
    | s ↦ fail (status_refused s)
  ]

unfoldable pub confirm_inventory : Faults → SagaPayload → Tx InventoryDb (Unit {0})
confirm_inventory f p = lock_reservation f 0 p.order_id >>= confirm_found f p

abbrev unconfirm_found : Faults → SagaPayload → InventoryReservation → Tx InventoryDb (Unit {0})
unconfirm_found f p r = do
  fail_if (not (same_reservation p r)) idempotency_conflict
  elim r.status [
    | reserved ↦ pure tt
    | released ↦ pure tt
    | confirmed ↦
        move_stock f p.order_id r reserved confirmed (λ i. leb_ℤ r.quantity i.sold)
          (record {
            available = λ i. i.available;
            reserved = λ i. i.reserved +ℤ r.quantity;
            sold = λ i. i.sold -ℤ r.quantity;
          })
    | s ↦ fail (status_refused s)
  ]

unfoldable pub unconfirm_inventory : Faults → SagaPayload → Tx InventoryDb (Unit {0})
unconfirm_inventory f p = when_found (lock_reservation f 0 p.order_id) (unconfirm_found f p)

-- `ApplyInventoryMutation`
unfoldable pub apply_inventory :
    InventoryOperation → Faults → SagaPayload → Tx InventoryDb (Unit {0})
apply_inventory reserve f p = reserve_inventory f p
apply_inventory release f p = release_inventory f p
apply_inventory confirm f p = confirm_inventory f p
apply_inventory unconfirm f p = unconfirm_inventory f p
apply_inventory (other name) f p = fail unknown_operation

-- One call of `RunLocalMutation` or of a saga branch, by what it leaves committed.
pub record InventoryCall : Type 0 where
  pub operation : InventoryOperation
  pub faults : Faults
  pub payload : SagaPayload

unfoldable pub call_inventory : InventoryDb → InventoryCall → InventoryDb
call_inventory db c = committed db (apply_inventory c.operation c.faults c.payload db)

unfoldable pub run_inventory : InventoryDb → List InventoryCall → InventoryDb
run_inventory db [] = db
run_inventory db (c ∷ cs) = run_inventory (call_inventory db c) cs
