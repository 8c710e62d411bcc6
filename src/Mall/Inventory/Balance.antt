-- ===== src/Mall/Inventory/Balance.antt =====
-- The columns of an inventory row against the reservations of its product.
use liveclass.Prelude.{
  ◌≡◌, true, false, String, Option, none, some, arith, ap, sym, ◌∙◌, ◌⊎◌, lookup, put, lookup-put,
  All, sum_rows, sum_rows-put, sum_rows-put_new, ◌==◌, string_eq, int_eq, if◌then◌else◌, Bool-cases,
  inl, inr,
}
use liveclass.Prelude.Int.{ℤ, pos, ◌+ℤ◌, ◌≤ℤ◌, ◌<ℤ◌, int_laws}
use liveclass.Mall.Sql.{Status, reserved, released}
use liveclass.Mall.Inventory.{Inventory, InventoryReservation, InventoryDb}
use liveclass.Mall.Inventory.Moves.{
  in_reserved, in_sold, new_status, Moved, Legal, releases, confirms, unconfirms, Move, stays, adds,
  shifts,
}

-- A column of a product, 0 if the product has no row.
abbrev pub cell : (Inventory → ℤ) → Option Inventory → ℤ
cell c none = pos 0
cell c (some i) = c i

abbrev pub column : (Inventory → ℤ) → ℤ → InventoryDb → ℤ
column c k db = cell c (lookup k db.inventories)

-- What a reservation adds to a column of product `k`, by its status.
abbrev pub share : (Status → ℤ → ℤ) → ℤ → InventoryReservation → ℤ
share w k r = if r.product_id == k then w r.status r.quantity else pos 0

abbrev pub total_share : (Status → ℤ → ℤ) → ℤ → InventoryDb → ℤ
total_share w k db = sum_rows (share w k) db.reservations

abbrev pub IsPositive : InventoryReservation → Type 0
IsPositive r = pos 0 <ℤ r.quantity

-- The reserved column is what the open reservations hold, the sold column what the confirmed ones
-- hold, and nothing is oversold.
pub record IsConsistent (db : InventoryDb) : Type 0 where
  pub reserved_sum : (k : ℤ) → column (λ i. i.reserved) k db ≡ total_share in_reserved k db
  pub sold_sum : (k : ℤ) → column (λ i. i.sold) k db ≡ total_share in_sold k db
  pub available_nonneg : (k : ℤ) → pos 0 ≤ℤ column (λ i. i.available) k db
  pub quantities : All (λ row. IsPositive row.1) db.reservations

-- All units of a product, wherever they stand.
abbrev pub stock : ℤ → InventoryDb → ℤ
stock k db =
    column (λ i. i.available) k db +ℤ column (λ i. i.reserved) k db +ℤ column (λ i. i.sold) k db

-- A column after the row of product `n` was written: the new row's for `n`, or as it was.
pub column_cases :
    (c : Inventory → ℤ) (k n : ℤ) (i j : Inventory) (db db' : InventoryDb)
    → lookup n db.inventories ≡ some i
    → db'.inventories ≡ put n j db.inventories
    → (((n == k) ≡ true) × (column c k db ≡ c i) × (column c k db' ≡ c j))
      ⊎ (((n == k) ≡ false) × (column c k db' ≡ column c k db))
column_cases c k n i j db db' row e = elim (Bool-cases (n == k)) [
  | inl hit ↦
      let same : n ≡ k = (int_eq.same_key_iff n k).0 hit in
      inl (
        hit,
        ap (cell c) (ap (λ (x : ℤ). lookup x db.inventories) (sym same) ∙ row),
        ap (cell c) (
            ap (lookup k) e
            ∙ lookup-put n k j db.inventories
            ∙ ap (λ b. if b then some j else lookup k db.inventories) hit),
      )
  | inr miss ↦ inr (
    miss,
    ap (cell c) (
        ap (lookup k) e
        ∙ lookup-put n k j db.inventories
        ∙ ap (λ b. if b then some j else lookup k db.inventories) miss),
  )
]

Moved-sum :
    (old new : Status) (q : ℤ) (i j : Inventory)
    → Legal old new
    → Moved old new q i j
    → j.available +ℤ j.reserved +ℤ j.sold ≡ i.available +ℤ i.reserved +ℤ i.sold
Moved-sum old new q i j releases m = grind int_laws
Moved-sum old new q i j confirms m = grind int_laws
Moved-sum old new q i j unconfirms m = grind int_laws

Moved-sum_new :
    (q : ℤ) (i j : Inventory)
    → Moved released reserved q i j
    → j.available +ℤ j.reserved +ℤ j.sold ≡ i.available +ℤ i.reserved +ℤ i.sold
Moved-sum_new q i j m = grind int_laws

stock-put :
    (k n : ℤ) (i j : Inventory) (db db' : InventoryDb)
    → lookup n db.inventories ≡ some i
    → db'.inventories ≡ put n j db.inventories
    → j.available +ℤ j.reserved +ℤ j.sold ≡ i.available +ℤ i.reserved +ℤ i.sold
    → stock k db' ≡ stock k db
stock-put k n i j db db' row e m = grind (
  arith,
  column_cases (λ x. x.available) k n i j db db' row e,
  column_cases (λ x. x.reserved) k n i j db db' row e,
  column_cases (λ x. x.sold) k n i j db db' row e,
)

-- No mutation makes up a unit of a product or loses one.
pub Move-stock : (k : ℤ) (db db' : InventoryDb) → Move db db' → stock k db' ≡ stock k db
Move-stock k db db' (stays e) = rw e
Move-stock k db db' (adds key r i j fresh row st q enough m e) =
    stock-put k r.product_id i j db db' row (ap (λ (d : InventoryDb). d.inventories) e)
      (Moved-sum_new r.quantity i j m)
Move-stock k db db' (shifts key r old new i j found row st legal m e) =
    stock-put k r.product_id i j db db' row (ap (λ (d : InventoryDb). d.inventories) e)
      (Moved-sum old new r.quantity i j legal m)

-- A column that agrees with its shares still does, when a reservation has changed its status and
-- the row of its product the column by the difference, or when a reservation is new.
module _ (c : Inventory → ℤ) (w : Status → ℤ → ℤ) (k : ℤ) (key : String) (r : InventoryReservation)
    (i j : Inventory) (db db' : InventoryDb) (row : lookup r.product_id db.inventories ≡ some i)
    (wrote : db'.inventories ≡ put r.product_id j db.inventories)
    (agrees : column c k db ≡ total_share w k db) where
  pub agrees_moved :
      (new : Status)
      → lookup key db.reservations ≡ some r
      → db'.reservations ≡ put key (new_status r new) db.reservations
      → c j +ℤ w r.status r.quantity ≡ c i +ℤ w new r.quantity
      → column c k db' ≡ total_share w k db'
  agrees_moved new found e m =
      let total = ap (sum_rows (share w k)) e in
      let sums = sum_rows-put (share w k) key (new_status r new) r db.reservations found in
      elim (column_cases c k r.product_id i j db db' row wrote) [
        | inl (hit, before, after) ↦
            let old : share w k r ≡ w r.status r.quantity = ground arith in
            let now : share w k (new_status r new) ≡ w new r.quantity = ground arith in
            grind (int_laws, total, sums, old, now)
        | inr (miss, same) ↦
            let old : share w k r ≡ pos 0 = ground arith in
            let now : share w k (new_status r new) ≡ pos 0 = ground arith in
            grind (int_laws, total, sums, old, now)
      ]

  pub agrees_added :
      lookup key db.reservations ≡ none
      → db'.reservations ≡ put key r db.reservations
      → c j ≡ c i +ℤ w r.status r.quantity
      → column c k db' ≡ total_share w k db'
  agrees_added fresh e m =
      let total = ap (sum_rows (share w k)) e in
      let sums = sum_rows-put_new (share w k) key r db.reservations fresh in
      elim (column_cases c k r.product_id i j db db' row wrote) [
        | inl (hit, before, after) ↦
            let now : share w k r ≡ w r.status r.quantity = ground arith in
            grind (int_laws, total, sums, now)
        | inr (miss, same) ↦
            let now : share w k r ≡ pos 0 = ground arith in grind (int_laws, total, sums, now)
      ]
