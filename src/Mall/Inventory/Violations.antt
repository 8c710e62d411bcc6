-- ===== src/Mall/Inventory/Violations.antt =====
-- On a consistent inventory the errors "inventory invariant violation while releasing / confirming /
-- unconfirming" do not occur.

use liveclass.Prelude.{
  ◌≡◌, ◌≢◌, refl, ap, Bool, true, String, some, arith, lookup, All, All-map, All-lookup,
  le-sum_rows, Option-cases, inl, inr, int_eq, string_eq, beq_refl,
}
use liveclass.Prelude.Int.{ℤ, pos, ◌+ℤ◌, ◌-ℤ◌, ◌≤ℤ◌, ◌<ℤ◌, leb_ℤ, int_laws}
use liveclass.Mall.Sql.{
  Status, pending, reserved, confirmed, released, compensated, invariant_violation, Faults, err,
}
use liveclass.Mall.Payload.{SagaPayload}
use liveclass.Mall.Inventory.{
  Inventory, InventoryReservation, InventoryDb, InventoryOperation, Assignment, apply_inventory,
  update_inventory, update_status, lock_reservation, move_stock, reserve_inventory,
  release_inventory, confirm_inventory, unconfirm_inventory, insert_reservation,
}
use liveclass.Mall.Inventory.Moves.{in_reserved, in_sold}
use liveclass.Mall.Inventory.Balance.{cell, column, share, total_share, IsPositive, IsConsistent}

-- A column that agrees with its shares covers each reservation whose quantity it holds.
column_covers :
    (c : Inventory → ℤ) (w : Status → ℤ → ℤ) (key : String) (r : InventoryReservation)
    (db : InventoryDb)
    → All (λ row. pos 0 ≤ℤ share w r.product_id row.1) db.reservations
    → lookup key db.reservations ≡ some r
    → w r.status r.quantity ≡ r.quantity
    → pos 0 <ℤ r.quantity
    → column c r.product_id db ≡ total_share w r.product_id db
    → (i : Inventory) × (lookup r.product_id db.inventories ≡ some i) × (r.quantity ≤ℤ c i)
column_covers c w key r db nonneg found held q agrees =
    let le = le-sum_rows (share w r.product_id) key r db.reservations nonneg found in
    let own : share w r.product_id r ≡ r.quantity = ground (arith, beq_refl r.product_id) in
    elim (Option-cases (lookup r.product_id db.inventories)) [
      | inl missing ↦
          let none_there : column c r.product_id db ≡ pos 0 = ap (cell c) missing in
          absurd (grind (int_laws, le, own))
      | inr (i, row) ↦
          let there : column c r.product_id db ≡ c i = ap (cell c) row in
          (i, row, grind (int_laws, le, own))
    ]

reserved_nonneg : (k : ℤ) (r : InventoryReservation) → IsPositive r → pos 0 ≤ℤ share in_reserved k r
reserved_nonneg k r h = ground arith

sold_nonneg : (k : ℤ) (r : InventoryReservation) → IsPositive r → pos 0 ≤ℤ share in_sold k r
sold_nonneg k r h = ground arith

module _ (key : String) (r : InventoryReservation) (db : InventoryDb) (v : IsConsistent db)
    (found : lookup key db.reservations ≡ some r) where
  reserved_covers :
      r.status ≡ reserved
      → (i : Inventory) × (lookup r.product_id db.inventories ≡ some i) × (r.quantity ≤ℤ i.reserved)
  reserved_covers st =
      column_covers (λ i. i.reserved) in_reserved key r db
        (All-map db.reservations (λ row h. reserved_nonneg r.product_id row.1 h) v.quantities) found
        (ap (λ s. in_reserved s r.quantity) st)
        (All-lookup IsPositive key r db.reservations v.quantities found)
        (v.reserved_sum r.product_id)

  sold_covers :
      r.status ≡ confirmed
      → (i : Inventory) × (lookup r.product_id db.inventories ≡ some i) × (r.quantity ≤ℤ i.sold)
  sold_covers st =
      column_covers (λ i. i.sold) in_sold key r db
        (All-map db.reservations (λ row h. sold_nonneg r.product_id row.1 h) v.quantities) found
        (ap (λ s. in_sold s r.quantity) st)
        (All-lookup IsPositive key r db.reservations v.quantities found) (v.sold_sum r.product_id)

move_stock-ne :
    (f : Faults) (k : String) (r : InventoryReservation) (new old : Status)
    (guard : Inventory → Bool) (a : Assignment) (db : InventoryDb) (i : Inventory)
    → lookup r.product_id db.inventories ≡ some i
    → guard i ≡ true
    → move_stock f k r new old guard a db ≢ err invariant_violation
unfolding move_stock update_inventory update_status
move_stock-ne f k r new old guard a db i row passes h = ground arith

reserve-ne :
    (f : Faults) (p : SagaPayload) (db : InventoryDb)
    → reserve_inventory f p db ≢ err invariant_violation
unfolding reserve_inventory insert_reservation update_inventory lock_reservation
reserve-ne f p db h = ground arith

release_found-ne :
    (f : Faults) (p : SagaPayload) (r : InventoryReservation) (db : InventoryDb) (st : Status)
    → IsConsistent db
    → lookup p.order_id db.reservations ≡ some r
    → r.status ≡ st
    → release_inventory f p db ≢ err invariant_violation
unfolding release_inventory lock_reservation
release_found-ne f p r db pending v found e h = ground arith
release_found-ne f p r db reserved v found e h =
    let (i, row, enough) = reserved_covers p.order_id r db v found e in
    ground (
      arith,
      move_stock-ne f p.order_id r released reserved (λ x. leb_ℤ r.quantity x.reserved)
          (record {
            available = λ i. i.available +ℤ r.quantity;
            reserved = λ i. i.reserved -ℤ r.quantity;
            sold = λ i. i.sold;
          })
          db i row,
    )
release_found-ne f p r db confirmed v found e h = ground arith
release_found-ne f p r db released v found e h = ground arith
release_found-ne f p r db compensated v found e h = ground arith

release-ne :
    (f : Faults) (p : SagaPayload) (db : InventoryDb)
    → IsConsistent db
    → release_inventory f p db ≢ err invariant_violation
unfolding release_inventory lock_reservation
release-ne f p db v h = elim (Option-cases (lookup p.order_id db.reservations)) [
  | inl missing ↦ ground arith
  | inr (r, found) ↦ release_found-ne f p r db r.status v found refl h
]

confirm_found-ne :
    (f : Faults) (p : SagaPayload) (r : InventoryReservation) (db : InventoryDb) (st : Status)
    → IsConsistent db
    → lookup p.order_id db.reservations ≡ some r
    → r.status ≡ st
    → confirm_inventory f p db ≢ err invariant_violation
unfolding confirm_inventory lock_reservation
confirm_found-ne f p r db pending v found e h = ground arith
confirm_found-ne f p r db reserved v found e h =
    let (i, row, enough) = reserved_covers p.order_id r db v found e in
    ground (
      arith,
      move_stock-ne f p.order_id r confirmed reserved (λ x. leb_ℤ r.quantity x.reserved)
          (record {
            available = λ i. i.available;
            reserved = λ i. i.reserved -ℤ r.quantity;
            sold = λ i. i.sold +ℤ r.quantity;
          })
          db i row,
    )
confirm_found-ne f p r db confirmed v found e h = ground arith
confirm_found-ne f p r db released v found e h = ground arith
confirm_found-ne f p r db compensated v found e h = ground arith

confirm-ne :
    (f : Faults) (p : SagaPayload) (db : InventoryDb)
    → IsConsistent db
    → confirm_inventory f p db ≢ err invariant_violation
unfolding confirm_inventory lock_reservation
confirm-ne f p db v h = elim (Option-cases (lookup p.order_id db.reservations)) [
  | inl missing ↦ ground arith
  | inr (r, found) ↦ confirm_found-ne f p r db r.status v found refl h
]

unconfirm_found-ne :
    (f : Faults) (p : SagaPayload) (r : InventoryReservation) (db : InventoryDb) (st : Status)
    → IsConsistent db
    → lookup p.order_id db.reservations ≡ some r
    → r.status ≡ st
    → unconfirm_inventory f p db ≢ err invariant_violation
unfolding unconfirm_inventory lock_reservation
unconfirm_found-ne f p r db pending v found e h = ground arith
unconfirm_found-ne f p r db reserved v found e h = ground arith
unconfirm_found-ne f p r db confirmed v found e h =
    let (i, row, enough) = sold_covers p.order_id r db v found e in
    ground (
      arith,
      move_stock-ne f p.order_id r reserved confirmed (λ x. leb_ℤ r.quantity x.sold)
          (record {
            available = λ i. i.available;
            reserved = λ i. i.reserved +ℤ r.quantity;
            sold = λ i. i.sold -ℤ r.quantity;
          })
          db i row,
    )
unconfirm_found-ne f p r db released v found e h = ground arith
unconfirm_found-ne f p r db compensated v found e h = ground arith

unconfirm-ne :
    (f : Faults) (p : SagaPayload) (db : InventoryDb)
    → IsConsistent db
    → unconfirm_inventory f p db ≢ err invariant_violation
unfolding unconfirm_inventory lock_reservation
unconfirm-ne f p db v h = elim (Option-cases (lookup p.order_id db.reservations)) [
  | inl missing ↦ ground arith
  | inr (r, found) ↦ unconfirm_found-ne f p r db r.status v found refl h
]

-- On a consistent inventory no mutation, with any payload and any faults, ends in one of the
-- source's "inventory invariant violation" errors.
pub apply_inventory-ne-violation :
    (op : InventoryOperation) (f : Faults) (p : SagaPayload) (db : InventoryDb)
    → IsConsistent db
    → apply_inventory op f p db ≢ err invariant_violation
unfolding apply_inventory
apply_inventory-ne-violation InventoryOperation.reserve f p db v = reserve-ne f p db
apply_inventory-ne-violation InventoryOperation.release f p db v = release-ne f p db v
apply_inventory-ne-violation InventoryOperation.confirm f p db v = confirm-ne f p db v
apply_inventory-ne-violation InventoryOperation.unconfirm f p db v = unconfirm-ne f p db v
apply_inventory-ne-violation (InventoryOperation.other name) f p db v = λ h. cc
