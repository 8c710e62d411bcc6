-- ===== src/Mall/Inventory/Consistency.antt =====
-- Every mutation keeps the inventory consistent and its stock whole, and on a consistent inventory
-- the source's "invariant violation" errors do not occur.
use mathlib.Core.Path.{subst}
use liveclass.Prelude.{
  ◌≡◌, refl, ap, sym, ◌∙◌, some, lookup, put, All-put, All-lookup, inl, inr, List, [], ◌∷◌, int_eq,
  string_eq,
}
use liveclass.Prelude.Int.{ℤ, pos, ◌+ℤ◌, ◌≤ℤ◌, ◌<ℤ◌, int_laws}
use liveclass.Mall.Sql.{Status, reserved, released, committed-keeps}
use liveclass.Mall.Inventory.{
  Inventory, InventoryDb, InventoryCall, call_inventory, run_inventory, apply_inventory,
}
use liveclass.Mall.Inventory.Moves.{
  in_reserved, in_sold, new_status, Moved, Legal, releases, confirms, unconfirms, Move, stays, adds,
  shifts, apply_inventory-Move,
}
use liveclass.Mall.Inventory.Balance.{
  column, IsPositive, IsConsistent, stock, column_cases, agrees_moved, agrees_added, Move-stock,
}

Moved-available :
    (old new : Status) (q : ℤ) (i j : Inventory)
    → Legal old new
    → Moved old new q i j
    → pos 0 <ℤ q
    → pos 0 ≤ℤ i.available
    → pos 0 ≤ℤ j.available
Moved-available old new q i j releases m h v = grind int_laws
Moved-available old new q i j confirms m h v = grind int_laws
Moved-available old new q i j unconfirms m h v = grind int_laws

-- The columns of the row of a new reservation.
module _ (q : ℤ) (i j : Inventory) (m : Moved released reserved q i j) where
  added_reserved : j.reserved ≡ i.reserved +ℤ q
  added_reserved = grind int_laws

  added_sold : j.sold ≡ i.sold +ℤ pos 0
  added_sold = grind int_laws

  added_available : q ≤ℤ i.available → pos 0 ≤ℤ j.available
  added_available h = grind int_laws

available_kept :
    (k n : ℤ) (i j : Inventory) (db db' : InventoryDb)
    → lookup n db.inventories ≡ some i
    → db'.inventories ≡ put n j db.inventories
    → (pos 0 ≤ℤ i.available → pos 0 ≤ℤ j.available)
    → pos 0 ≤ℤ column (λ x. x.available) k db
    → pos 0 ≤ℤ column (λ x. x.available) k db'
available_kept k n i j db db' row e keeps h =
    elim (column_cases (λ x. x.available) k n i j db db' row e) [
      | inl (hit, before, after) ↦ rw after (keeps (rw before at h))
      | inr (miss, same) ↦ rw same h
    ]

pub Move-IsConsistent : (db db' : InventoryDb) → Move db db' → IsConsistent db → IsConsistent db'
Move-IsConsistent db db' (stays e) v = rw e v
Move-IsConsistent db db' (adds key r i j fresh row st q enough m e) v =
    let inv = ap (λ (d : InventoryDb). d.inventories) e in
    let res = ap (λ (d : InventoryDb). d.reservations) e in
    record {
      reserved_sum = λ k.
          agrees_added (λ x. x.reserved) in_reserved k key r i j db db' row inv (v.reserved_sum k)
            fresh res
            (added_reserved r.quantity i j m
              ∙ ap (λ s. i.reserved +ℤ in_reserved s r.quantity) (sym st));
      sold_sum = λ k.
          agrees_added (λ x. x.sold) in_sold k key r i j db db' row inv (v.sold_sum k) fresh res
            (added_sold r.quantity i j m ∙ ap (λ s. i.sold +ℤ in_sold s r.quantity) (sym st));
      available_nonneg = λ k.
          available_kept k r.product_id i j db db' row inv
            (λ h. added_available r.quantity i j m enough) (v.available_nonneg k);
      quantities = rw res (All-put IsPositive key r db.reservations v.quantities q);
    }
Move-IsConsistent db db' (shifts key r old new i j found row st legal m e) v =
    let inv = ap (λ (d : InventoryDb). d.inventories) e in
    let res = ap (λ (d : InventoryDb). d.reservations) e in
    let q = All-lookup IsPositive key r db.reservations v.quantities found in
    record {
      reserved_sum = λ k.
          agrees_moved (λ x. x.reserved) in_reserved k key r i j db db' row inv (v.reserved_sum k)
            new found res
            (subst
              (λ s.
                j.reserved +ℤ in_reserved s r.quantity ≡ i.reserved +ℤ in_reserved new r.quantity)
              (sym st) m.1);
      sold_sum = λ k.
          agrees_moved (λ x. x.sold) in_sold k key r i j db db' row inv (v.sold_sum k) new found res
            (subst (λ s. j.sold +ℤ in_sold s r.quantity ≡ i.sold +ℤ in_sold new r.quantity) (sym st)
              m.2);
      available_nonneg = λ k.
          available_kept k r.product_id i j db db' row inv
            (Moved-available old new r.quantity i j legal m q) (v.available_nonneg k);
      quantities =
          rw res (All-put IsPositive key (new_status r new) db.reservations v.quantities q);
    }

call_inventory-IsConsistent :
    (db : InventoryDb) (c : InventoryCall) → IsConsistent db → IsConsistent (call_inventory db c)
unfolding call_inventory
call_inventory-IsConsistent db c v =
    committed-keeps IsConsistent db (apply_inventory c.operation c.faults c.payload db) v λ db' e.
      Move-IsConsistent db db' (apply_inventory-Move c.operation c.faults c.payload db db' e) v

call_inventory-stock :
    (k : ℤ) (db : InventoryDb) (c : InventoryCall) → stock k (call_inventory db c) ≡ stock k db
unfolding call_inventory
call_inventory-stock k db c =
    committed-keeps (λ db'. stock k db' ≡ stock k db) db
      (apply_inventory c.operation c.faults c.payload db) refl
      λ db' e. Move-stock k db db' (apply_inventory-Move c.operation c.faults c.payload db db' e)

-- From a consistent inventory, any sequence of mutations, repeated, reordered or failing at any
-- statement, leads to a consistent one: the reserved and sold columns of every product are the sums
-- over its open and its confirmed reservations, every reservation holds a positive quantity, and no
-- available column is below 0.
pub run_inventory-IsConsistent :
    (db : InventoryDb) (cs : List InventoryCall)
    → IsConsistent db
    → IsConsistent (run_inventory db cs)
unfolding run_inventory
run_inventory-IsConsistent db [] v = v
run_inventory-IsConsistent db (c ∷ cs) v =
    run_inventory-IsConsistent (call_inventory db c) cs (call_inventory-IsConsistent db c v)

-- Through any sequence of mutations, repeated, reordered or failing at any statement, the units of
-- a product, available, reserved and sold together, stay the same number.
pub run_inventory-stock :
    (k : ℤ) (db : InventoryDb) (cs : List InventoryCall)
    → stock k (run_inventory db cs) ≡ stock k db
unfolding run_inventory
run_inventory-stock k db [] = refl
run_inventory-stock k db (c ∷ cs) =
    run_inventory-stock k (call_inventory db c) cs ∙ call_inventory-stock k db c
