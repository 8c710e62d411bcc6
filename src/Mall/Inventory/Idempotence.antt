-- ===== src/Mall/Inventory/Idempotence.antt =====
-- A mutation that is repeated after it succeeded, as the saga's retries do, succeeds and changes
-- nothing; and a reservation that is released stays so.
use liveclass.Prelude.{
  ◌≡◌, refl, ap, ◌∙◌, some, arith, lookup, lookup-put_self, Option-cases, inl, inr, int_eq,
  string_eq, beq_refl,
}
use liveclass.Prelude.Int.{◌+ℤ◌, ◌-ℤ◌, leb_ℤ}
use liveclass.Mall.Sql.{
  Status, pending, reserved, confirmed, released, compensated, Faults, no_faults, ok,
}
use liveclass.Mall.Payload.{SagaPayload}
use liveclass.Mall.Inventory.{
  InventoryReservation, InventoryDb, InventoryOperation, apply_inventory, update_inventory,
  lock_reservation, reserve_inventory, release_inventory, confirm_inventory, unconfirm_inventory,
  insert_reservation,
}
use liveclass.Mall.Inventory.Moves.{new_status, move_stock-Moved}

reserve-again :
    (f : Faults) (p : SagaPayload) (db db' : InventoryDb)
    → reserve_inventory f p db ≡ ok (tt, db')
    → reserve_inventory no_faults p db' ≡ ok (tt, db')
unfolding reserve_inventory insert_reservation update_inventory lock_reservation
reserve-again f p db db' h = elim (Option-cases (lookup p.order_id db.reservations)) [
  | inl fresh ↦
      let r : InventoryReservation = record {
        product_id = p.product_id;
        quantity = p.quantity;
        status = reserved;
      } in
      ground (
        arith,
        lookup-put_self p.order_id r db.reservations,
        beq_refl p.product_id,
        beq_refl p.quantity,
      )
  | inr (r, old) ↦ ground arith
]

release_found-again :
    (f : Faults) (p : SagaPayload) (r : InventoryReservation) (db db' : InventoryDb) (st : Status)
    → lookup p.order_id db.reservations ≡ some r
    → r.status ≡ st
    → release_inventory f p db ≡ ok (tt, db')
    → release_inventory no_faults p db' ≡ ok (tt, db')
unfolding release_inventory lock_reservation
release_found-again f p r db db' pending found e h = ground arith
release_found-again f p r db db' reserved found e h =
    let (i, row, enough, done) =
      move_stock-Moved f p.order_id r released reserved (λ x. leb_ℤ r.quantity x.reserved)
        (record {
          available = λ i. i.available +ℤ r.quantity;
          reserved = λ i. i.reserved -ℤ r.quantity;
          sold = λ i. i.sold;
        })
        db db' found (ground arith) (ground arith) in
    let now =
      ap (λ (d : InventoryDb). lookup p.order_id d.reservations) done
      ∙ lookup-put_self p.order_id (new_status r released) db.reservations in
    ground (arith, now)
release_found-again f p r db db' confirmed found e h = ground arith
release_found-again f p r db db' released found e h = ground arith
release_found-again f p r db db' compensated found e h = ground arith

release-again :
    (f : Faults) (p : SagaPayload) (db db' : InventoryDb)
    → release_inventory f p db ≡ ok (tt, db')
    → release_inventory no_faults p db' ≡ ok (tt, db')
unfolding release_inventory lock_reservation
release-again f p db db' h = elim (Option-cases (lookup p.order_id db.reservations)) [
  | inl missing ↦ ground arith
  | inr (r, found) ↦ release_found-again f p r db db' r.status found refl h
]

confirm_found-again :
    (f : Faults) (p : SagaPayload) (r : InventoryReservation) (db db' : InventoryDb) (st : Status)
    → lookup p.order_id db.reservations ≡ some r
    → r.status ≡ st
    → confirm_inventory f p db ≡ ok (tt, db')
    → confirm_inventory no_faults p db' ≡ ok (tt, db')
unfolding confirm_inventory lock_reservation
confirm_found-again f p r db db' pending found e h = ground arith
confirm_found-again f p r db db' reserved found e h =
    let (i, row, enough, done) =
      move_stock-Moved f p.order_id r confirmed reserved (λ x. leb_ℤ r.quantity x.reserved)
        (record {
          available = λ i. i.available;
          reserved = λ i. i.reserved -ℤ r.quantity;
          sold = λ i. i.sold +ℤ r.quantity;
        })
        db db' found (ground arith) (ground arith) in
    let now =
      ap (λ (d : InventoryDb). lookup p.order_id d.reservations) done
      ∙ lookup-put_self p.order_id (new_status r confirmed) db.reservations in
    ground (arith, now)
confirm_found-again f p r db db' confirmed found e h = ground arith
confirm_found-again f p r db db' released found e h = ground arith
confirm_found-again f p r db db' compensated found e h = ground arith

confirm-again :
    (f : Faults) (p : SagaPayload) (db db' : InventoryDb)
    → confirm_inventory f p db ≡ ok (tt, db')
    → confirm_inventory no_faults p db' ≡ ok (tt, db')
unfolding confirm_inventory lock_reservation
confirm-again f p db db' h = elim (Option-cases (lookup p.order_id db.reservations)) [
  | inl missing ↦ ground arith
  | inr (r, found) ↦ confirm_found-again f p r db db' r.status found refl h
]

unconfirm_found-again :
    (f : Faults) (p : SagaPayload) (r : InventoryReservation) (db db' : InventoryDb) (st : Status)
    → lookup p.order_id db.reservations ≡ some r
    → r.status ≡ st
    → unconfirm_inventory f p db ≡ ok (tt, db')
    → unconfirm_inventory no_faults p db' ≡ ok (tt, db')
unfolding unconfirm_inventory lock_reservation
unconfirm_found-again f p r db db' pending found e h = ground arith
unconfirm_found-again f p r db db' reserved found e h = ground arith
unconfirm_found-again f p r db db' confirmed found e h =
    let (i, row, enough, done) =
      move_stock-Moved f p.order_id r reserved confirmed (λ x. leb_ℤ r.quantity x.sold)
        (record {
          available = λ i. i.available;
          reserved = λ i. i.reserved +ℤ r.quantity;
          sold = λ i. i.sold -ℤ r.quantity;
        })
        db db' found (ground arith) (ground arith) in
    let now =
      ap (λ (d : InventoryDb). lookup p.order_id d.reservations) done
      ∙ lookup-put_self p.order_id (new_status r reserved) db.reservations in
    ground (arith, now)
unconfirm_found-again f p r db db' released found e h = ground arith
unconfirm_found-again f p r db db' compensated found e h = ground arith

unconfirm-again :
    (f : Faults) (p : SagaPayload) (db db' : InventoryDb)
    → unconfirm_inventory f p db ≡ ok (tt, db')
    → unconfirm_inventory no_faults p db' ≡ ok (tt, db')
unfolding unconfirm_inventory lock_reservation
unconfirm-again f p db db' h = elim (Option-cases (lookup p.order_id db.reservations)) [
  | inl missing ↦ ground arith
  | inr (r, found) ↦ unconfirm_found-again f p r db db' r.status found refl h
]

-- Whatever mutation succeeded, the same one again, with no fault at its statements, succeeds too
-- and changes nothing.
pub apply_inventory-again :
    (op : InventoryOperation) (f : Faults) (p : SagaPayload) (db db' : InventoryDb)
    → apply_inventory op f p db ≡ ok (tt, db')
    → apply_inventory op no_faults p db' ≡ ok (tt, db')
unfolding apply_inventory
apply_inventory-again InventoryOperation.reserve f p db db' = reserve-again f p db db'
apply_inventory-again InventoryOperation.release f p db db' = release-again f p db db'
apply_inventory-again InventoryOperation.confirm f p db db' = confirm-again f p db db'
apply_inventory-again InventoryOperation.unconfirm f p db db' = unconfirm-again f p db db'
apply_inventory-again (InventoryOperation.other name) f p db db' = λ h. cc
