-- ===== src/Mall/Inventory/Moves.antt =====
-- What a successful mutation has done to the tables: nothing, a new reservation, or a reservation that
-- moved on to another status with its quantity.
use liveclass.Prelude.{
  ◌≡◌, refl, inl, inr, Bool, true, String, none, some, arith, lookup, Option-cases, Bool-cases,
  string_eq, int_eq,
}
use liveclass.Prelude.Int.{ℤ, pos, ◌+ℤ◌, ◌-ℤ◌, ◌≤ℤ◌, leb_ℤ, ◌<ℤ◌, int_laws}
use liveclass.Mall.Sql.{Status, pending, reserved, confirmed, released, compensated, Faults, ok}
use liveclass.Mall.Payload.{SagaPayload}
use liveclass.Mall.Inventory.{
  Inventory, InventoryReservation, InventoryDb, InventoryOperation, Assignment, assigned,
  put_inventory, put_reservation, insert_reservation, update_inventory, update_status,
  lock_reservation, move_stock, reserve_inventory, release_inventory, confirm_inventory,
  unconfirm_inventory, apply_inventory, is_status,
}

-- How much of a reservation's quantity each column of its product holds.
abbrev pub in_reserved : Status → ℤ → ℤ
in_reserved reserved q = q
in_reserved _ q = pos 0

abbrev pub in_sold : Status → ℤ → ℤ
in_sold confirmed q = q
in_sold _ q = pos 0

abbrev pub in_available : Status → ℤ → ℤ
in_available released q = q
in_available _ q = pos 0

abbrev pub new_status : InventoryReservation → Status → InventoryReservation
new_status r st = record r { status = st }

-- The row of the product after its quantity `q` has moved from one status to another.
abbrev pub Moved : Status → Status → ℤ → Inventory → Inventory → Type 0
Moved old new q i j =
    (j.available +ℤ in_available old q ≡ i.available +ℤ in_available new q)
    × (j.reserved +ℤ in_reserved old q ≡ i.reserved +ℤ in_reserved new q)
    × (j.sold +ℤ in_sold old q ≡ i.sold +ℤ in_sold new q)
    × (j.version ≡ i.version +ℤ pos 1)

pub data Legal : Status → Status → Type 0 where
  releases : Legal reserved released
  confirms : Legal reserved confirmed
  unconfirms : Legal confirmed reserved

pub data Move (db db' : InventoryDb) : Type 0 where
  stays : db' ≡ db → Move db db'
  adds :
      (k : String) (r : InventoryReservation) (i j : Inventory)
      → lookup k db.reservations ≡ none
      → lookup r.product_id db.inventories ≡ some i
      → r.status ≡ reserved
      → pos 0 <ℤ r.quantity
      → r.quantity ≤ℤ i.available
      → Moved released reserved r.quantity i j
      → db' ≡ put_inventory r.product_id j (put_reservation k r db)
      → Move db db'
  shifts :
      (k : String) (r : InventoryReservation) (old new : Status) (i j : Inventory)
      → lookup k db.reservations ≡ some r
      → lookup r.product_id db.inventories ≡ some i
      → r.status ≡ old
      → Legal old new
      → Moved old new r.quantity i j
      → db' ≡ put_reservation k (new_status r new) (put_inventory r.product_id j db)
      → Move db db'

-- The two updates of a reservation that is in its old status, both done.
pub move_stock-Moved :
    (f : Faults) (k : String) (r : InventoryReservation) (new old : Status)
    (guard : Inventory → Bool) (a : Assignment) (db db' : InventoryDb)
    → lookup k db.reservations ≡ some r
    → is_status r.status old ≡ true
    → move_stock f k r new old guard a db ≡ ok (tt, db')
    → (i : Inventory) × (lookup r.product_id db.inventories ≡ some i)
      × (guard i ≡ true)
      × (db' ≡ put_reservation k (new_status r new) (put_inventory r.product_id (assigned a i) db))
unfolding move_stock update_status update_inventory
move_stock-Moved f k r new old guard a db db' e st h =
    elim (Option-cases (lookup r.product_id db.inventories)) [
      | inl missing ↦ absurd (ground arith)
      | inr (i, found) ↦ elim (Bool-cases (guard i)) [
        | inl passes ↦ (i, found, passes, ground arith)
        | inr stops ↦ absurd (ground arith)
      ]
    ]

reserve-Move :
    (f : Faults) (p : SagaPayload) (db db' : InventoryDb)
    → reserve_inventory f p db ≡ ok (tt, db')
    → Move db db'
unfolding reserve_inventory insert_reservation update_inventory lock_reservation
reserve-Move f p db db' h = elim (Option-cases (lookup p.order_id db.reservations)) [
  | inl fresh ↦ elim (Option-cases (lookup p.product_id db.inventories)) [
    | inl missing ↦ absurd (ground arith)
    | inr (i, found) ↦
        adds p.order_id
          (record { product_id = p.product_id; quantity = p.quantity; status = reserved }) i
          (record {
            available = i.available -ℤ p.quantity;
            reserved = i.reserved +ℤ p.quantity;
            sold = i.sold;
            version = i.version +ℤ pos 1;
          })
          fresh found refl (ground arith) (ground arith) (omega int_laws) (ground arith)
  ]
  | inr (r, old) ↦ stays (ground arith)
]

release_found-Move :
    (f : Faults) (p : SagaPayload) (r : InventoryReservation) (db db' : InventoryDb) (st : Status)
    → lookup p.order_id db.reservations ≡ some r
    → r.status ≡ st
    → release_inventory f p db ≡ ok (tt, db')
    → Move db db'
unfolding release_inventory lock_reservation
release_found-Move f p r db db' pending found e h = absurd (ground arith)
release_found-Move f p r db db' reserved found e h =
    let a : Assignment = record {
      available = λ i. i.available +ℤ r.quantity;
      reserved = λ i. i.reserved -ℤ r.quantity;
      sold = λ i. i.sold;
    } in
    let (i, row, enough, done) =
      move_stock-Moved f p.order_id r released reserved (λ i. leb_ℤ r.quantity i.reserved) a db db'
        found (ground arith) (ground arith) in
    shifts p.order_id r reserved released i (assigned a i) found row e releases (omega int_laws)
      done
release_found-Move f p r db db' confirmed found e h = absurd (ground arith)
release_found-Move f p r db db' released found e h = stays (ground arith)
release_found-Move f p r db db' compensated found e h = absurd (ground arith)

release-Move :
    (f : Faults) (p : SagaPayload) (db db' : InventoryDb)
    → release_inventory f p db ≡ ok (tt, db')
    → Move db db'
unfolding release_inventory lock_reservation
release-Move f p db db' h = elim (Option-cases (lookup p.order_id db.reservations)) [
  | inl missing ↦ stays (ground arith)
  | inr (r, found) ↦ release_found-Move f p r db db' r.status found refl h
]

confirm_found-Move :
    (f : Faults) (p : SagaPayload) (r : InventoryReservation) (db db' : InventoryDb) (st : Status)
    → lookup p.order_id db.reservations ≡ some r
    → r.status ≡ st
    → confirm_inventory f p db ≡ ok (tt, db')
    → Move db db'
unfolding confirm_inventory lock_reservation
confirm_found-Move f p r db db' pending found e h = absurd (ground arith)
confirm_found-Move f p r db db' reserved found e h =
    let a : Assignment = record {
      available = λ i. i.available;
      reserved = λ i. i.reserved -ℤ r.quantity;
      sold = λ i. i.sold +ℤ r.quantity;
    } in
    let (i, row, enough, done) =
      move_stock-Moved f p.order_id r confirmed reserved (λ i. leb_ℤ r.quantity i.reserved) a db db'
        found (ground arith) (ground arith) in
    shifts p.order_id r reserved confirmed i (assigned a i) found row e confirms (omega int_laws)
      done
confirm_found-Move f p r db db' confirmed found e h = stays (ground arith)
confirm_found-Move f p r db db' released found e h = absurd (ground arith)
confirm_found-Move f p r db db' compensated found e h = absurd (ground arith)

confirm-Move :
    (f : Faults) (p : SagaPayload) (db db' : InventoryDb)
    → confirm_inventory f p db ≡ ok (tt, db')
    → Move db db'
unfolding confirm_inventory lock_reservation
confirm-Move f p db db' h = elim (Option-cases (lookup p.order_id db.reservations)) [
  | inl missing ↦ absurd (ground arith)
  | inr (r, found) ↦ confirm_found-Move f p r db db' r.status found refl h
]

unconfirm_found-Move :
    (f : Faults) (p : SagaPayload) (r : InventoryReservation) (db db' : InventoryDb) (st : Status)
    → lookup p.order_id db.reservations ≡ some r
    → r.status ≡ st
    → unconfirm_inventory f p db ≡ ok (tt, db')
    → Move db db'
unfolding unconfirm_inventory lock_reservation
unconfirm_found-Move f p r db db' pending found e h = absurd (ground arith)
unconfirm_found-Move f p r db db' reserved found e h = stays (ground arith)
unconfirm_found-Move f p r db db' confirmed found e h =
    let a : Assignment = record {
      available = λ i. i.available;
      reserved = λ i. i.reserved +ℤ r.quantity;
      sold = λ i. i.sold -ℤ r.quantity;
    } in
    let (i, row, enough, done) =
      move_stock-Moved f p.order_id r reserved confirmed (λ i. leb_ℤ r.quantity i.sold) a db db'
        found (ground arith) (ground arith) in
    shifts p.order_id r confirmed reserved i (assigned a i) found row e unconfirms (omega int_laws)
      done
unconfirm_found-Move f p r db db' released found e h = stays (ground arith)
unconfirm_found-Move f p r db db' compensated found e h = absurd (ground arith)

unconfirm-Move :
    (f : Faults) (p : SagaPayload) (db db' : InventoryDb)
    → unconfirm_inventory f p db ≡ ok (tt, db')
    → Move db db'
unfolding unconfirm_inventory lock_reservation
unconfirm-Move f p db db' h = elim (Option-cases (lookup p.order_id db.reservations)) [
  | inl missing ↦ stays (ground arith)
  | inr (r, found) ↦ unconfirm_found-Move f p r db db' r.status found refl h
]

-- Every mutation that succeeds is one of these moves, whatever faults its statements meet.
pub apply_inventory-Move :
    (op : InventoryOperation) (f : Faults) (p : SagaPayload) (db db' : InventoryDb)
    → apply_inventory op f p db ≡ ok (tt, db')
    → Move db db'
unfolding apply_inventory
apply_inventory-Move InventoryOperation.reserve f p db db' h = reserve-Move f p db db' h
apply_inventory-Move InventoryOperation.release f p db db' h = release-Move f p db db' h
apply_inventory-Move InventoryOperation.confirm f p db db' h = confirm-Move f p db db' h
apply_inventory-Move InventoryOperation.unconfirm f p db db' h = unconfirm-Move f p db db' h
apply_inventory-Move (InventoryOperation.other name) f p db db' h = cc
