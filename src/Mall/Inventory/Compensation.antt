-- ===== src/Mall/Inventory/Compensation.antt =====
-- The compensations of the saga take back what its steps did.
use liveclass.Prelude.{
  some_inj, ◌≡◌, refl, ap, sym, ◌∙◌, none, some, arith, lookup, put, lookup-put_self, Option-cases,
  inl, inr, int_eq, string_eq,
}
use liveclass.Prelude.Int.{ℤ, ◌+ℤ◌, ◌-ℤ◌, leb_ℤ, int_laws}
use liveclass.Mall.Sql.{reserved, released, Faults, ok}
use liveclass.Mall.Payload.{SagaPayload}
use liveclass.Mall.Inventory.{
  Inventory, InventoryReservation, InventoryDb, Assignment, assigned, put_inventory,
  put_reservation, insert_reservation, update_inventory, lock_reservation, reserve_inventory,
  release_inventory,
}
use liveclass.Mall.Inventory.Moves.{new_status, move_stock-Moved}
use liveclass.Mall.Inventory.Balance.{column, column_cases}

-- The three columns of every product are the same in both databases.
abbrev pub SameStock : InventoryDb → InventoryDb → Type 0
SameStock db db' =
    (k : ℤ)
    → (column (λ i. i.available) k db' ≡ column (λ i. i.available) k db)
      × (column (λ i. i.reserved) k db' ≡ column (λ i. i.reserved) k db)
      × (column (λ i. i.sold) k db' ≡ column (λ i. i.sold) k db)

minus_plus : (a q : ℤ) → a -ℤ q +ℤ q ≡ a
minus_plus a q = omega int_laws

plus_minus : (a q : ℤ) → a +ℤ q -ℤ q ≡ a
plus_minus a q = omega int_laws

-- Two writes of a product's row, of which the second puts a column back.
column_restored :
    (c : Inventory → ℤ) (k n : ℤ) (i j h : Inventory) (db db' db'' : InventoryDb)
    → lookup n db.inventories ≡ some i
    → db'.inventories ≡ put n j db.inventories
    → db''.inventories ≡ put n h db'.inventories
    → c h ≡ c i
    → column c k db'' ≡ column c k db
column_restored c k n i j h db db' db'' row e e' back =
    let row' = ap (lookup n) e ∙ lookup-put_self n j db.inventories in
    grind (arith, column_cases c k n i j db db' row e, column_cases c k n j h db' db'' row' e')

abbrev reserving : ℤ → Assignment
reserving q = record {
  available = λ i. i.available -ℤ q;
  reserved = λ i. i.reserved +ℤ q;
  sold = λ i. i.sold;
}

abbrev releasing : ℤ → Assignment
releasing q = record {
  available = λ i. i.available +ℤ q;
  reserved = λ i. i.reserved -ℤ q;
  sold = λ i. i.sold;
}

abbrev new_reservation : SagaPayload → InventoryReservation
new_reservation p = record { product_id = p.product_id; quantity = p.quantity; status = reserved }

reserve-Added :
    (f : Faults) (p : SagaPayload) (db db' : InventoryDb)
    → lookup p.order_id db.reservations ≡ none
    → reserve_inventory f p db ≡ ok (tt, db')
    → (i : Inventory) × (lookup p.product_id db.inventories ≡ some i)
      × (db'
          ≡ put_inventory p.product_id
              (assigned (reserving p.quantity) i)
              (put_reservation p.order_id (new_reservation p) db))
unfolding reserve_inventory insert_reservation update_inventory
reserve-Added f p db db' fresh h = elim (Option-cases (lookup p.product_id db.inventories)) [
  | inl missing ↦ absurd (ground arith)
  | inr (i, found) ↦ (i, found, ground arith)
]

release-Moved :
    (f : Faults) (p : SagaPayload) (db db' : InventoryDb)
    → lookup p.order_id db.reservations ≡ some (new_reservation p)
    → release_inventory f p db ≡ ok (tt, db')
    → (i : Inventory) × (lookup p.product_id db.inventories ≡ some i)
      × (db'
          ≡ put_reservation p.order_id
              (new_status (new_reservation p) released)
              (put_inventory p.product_id (assigned (releasing p.quantity) i) db))
unfolding release_inventory lock_reservation
release-Moved f p db db' found h =
    let (i, row, enough, done) =
      move_stock-Moved f p.order_id (new_reservation p) released reserved
        (λ x. leb_ℤ p.quantity x.reserved) (releasing p.quantity) db db' found refl
        (ground arith) in
    (i, row, done)

assigned_back :
    (q : ℤ) (i j : Inventory)
    → j ≡ assigned (reserving q) i
    → let h = assigned (releasing q) j in
      (h.available ≡ i.available) × (h.reserved ≡ i.reserved) × (h.sold ≡ i.sold)
assigned_back q i j e = rw e (minus_plus i.available q, plus_minus i.reserved q, refl)

-- If an order without a reservation is reserved and then released, each with success, every product
-- has its available, reserved and sold units back as they were.
pub release-reserve :
    (f g : Faults) (p : SagaPayload) (db db' db'' : InventoryDb)
    → lookup p.order_id db.reservations ≡ none
    → reserve_inventory f p db ≡ ok (tt, db')
    → release_inventory g p db' ≡ ok (tt, db'')
    → SameStock db db''
release-reserve f g p db db' db'' fresh h h' k =
    let (i, row, e) = reserve-Added f p db db' fresh h in
    let inv = ap (λ (d : InventoryDb). d.inventories) e in
    let found =
      ap (λ (d : InventoryDb). lookup p.order_id d.reservations) e
      ∙ lookup-put_self p.order_id (new_reservation p) db.reservations in
    let (j, row', e') = release-Moved g p db' db'' found h' in
    let inv' = ap (λ (d : InventoryDb). d.inventories) e' in
    let same =
      sym row'
      ∙ (ap (lookup p.product_id) inv
          ∙ lookup-put_self p.product_id (assigned (reserving p.quantity) i) db.inventories) in
    let back = assigned_back p.quantity i j (some_inj same) in
    let restored = λ (c : Inventory → ℤ).
      column_restored c k p.product_id i (assigned (reserving p.quantity) i)
        (assigned (releasing p.quantity) j) db db' db'' row inv inv' in
    (
      restored (λ x. x.available) back.0,
      restored (λ x. x.reserved) back.1,
      restored (λ x. x.sold) back.2,
    )
