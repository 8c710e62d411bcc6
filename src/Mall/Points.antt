-- ===== src/Mall/Points.antt =====
-- The points mutations of internal/rpc/mall/domain/mutations.go over the tables mall_points_accounts
-- and mall_points_ledgers of model.go. The ledger's unique key is (order_id, operation), and every
-- statement names its operation, so its rows stand in two tables by order: debits and refunds.
pub mod Ledger
pub mod Soundness
pub mod Repeats
use liveclass.Prelude.{
  ℕ, zero, suc, Bool, true, false, not, ◌&&◌, ◌||◌, String, Option, none, some, List, [], ◌∷◌,
  Table, lookup, put, ◌==◌, string_eq, int_eq, nat_beq, if◌then◌else◌,
}
use liveclass.Prelude.Int.{ℤ, pos, ◌+ℤ◌, ◌-ℤ◌, leb_ℤ, ltb_ℤ, is_positive, fits_int64, neg_int64}
use liveclass.Mall.Sql.{
  insufficient_points, idempotency_conflict, invalid_mutation, unknown_operation, account_missing,
  no_rows, out_of_range, Result, ok, err, Faults, Tx, ◌>>=◌, ◌>>◌, pure, fail, fail_if, exec,
  select_row, committed,
}
use liveclass.Mall.Payload.{SagaPayload}

pub record PointsAccount : Type 0 where
  pub balance : ℤ
  pub version : ℤ

pub record PointsLedger : Type 0 where
  pub user_id : ℤ
  pub delta : ℤ

pub record PointsDb : Type 0 where
  pub accounts : Table ℤ PointsAccount
  pub debits : Table String PointsLedger
  pub refunds : Table String PointsLedger

pub data PointsOperation : Type 0 where
  debit refund : PointsOperation
  other : String → PointsOperation

abbrev pub put_account : ℤ → PointsAccount → PointsDb → PointsDb
put_account k v db = record db { accounts = put k v db.accounts }

abbrev pub put_debit : String → PointsLedger → PointsDb → PointsDb
put_debit k v db = record db { debits = put k v db.debits }

abbrev pub put_refund : String → PointsLedger → PointsDb → PointsDb
put_refund k v db = record db { refunds = put k v db.refunds }

-- INSERT IGNORE INTO mall_points_ledgers(...) VALUES(?,'debit',?,?,NOW()): the rows inserted.
unfoldable pub insert_debit : String → PointsLedger → Tx PointsDb ℕ
insert_debit k row db = elim (lookup k db.debits) [
  | none ↦ ok (1, put_debit k row db)
  | some r ↦ ok (0, db)
]

-- The same for 'refund'.
unfoldable pub insert_refund : String → PointsLedger → Tx PointsDb ℕ
insert_refund k row db = elim (lookup k db.refunds) [
  | none ↦ ok (1, put_refund k row db)
  | some r ↦ ok (0, db)
]

-- UPDATE mall_points_accounts SET balance=..., version=version+1 WHERE user_id=? AND guard
unfoldable pub update_account : ℤ → (ℤ → Bool) → (ℤ → ℤ) → Tx PointsDb ℕ
update_account k guard change db = elim (lookup k db.accounts) [
  | none ↦ ok (0, db)
  | some a ↦
      if guard a.balance
      then if fits_int64 (change a.balance) && fits_int64 (a.version +ℤ pos 1)
        then ok (
          1,
          put_account k (record { balance = change a.balance; version = a.version +ℤ pos 1 }) db,
        )
        else err out_of_range
      else ok (0, db)
]

abbrev pub debit_row : SagaPayload → PointsLedger
debit_row p = record { user_id = p.user_id; delta = neg_int64 p.total_points }

abbrev pub same_row : PointsLedger → PointsLedger → Bool
same_row r s = r.user_id == s.user_id && r.delta == s.delta

unfoldable pub debit_points : Faults → SagaPayload → Tx PointsDb (Unit {0})
debit_points f p = do
  fail_if (p.order_id == "" || (not (is_positive p.user_id) || not (is_positive p.total_points)))
      invalid_mutation
  affected ← exec f 0 (insert_debit p.order_id (debit_row p))
  elim affected [
    | zero ↦ do
      row ← exec f 1 (select_row (λ (db : PointsDb). lookup p.order_id db.debits))
      fail_if (not (same_row row (debit_row p))) idempotency_conflict
    | suc _ ↦ do
      rows ←
          exec f 2
            (update_account p.user_id (λ b. leb_ℤ p.total_points b) (λ b. b -ℤ p.total_points))
      fail_if (not (nat_beq rows 1)) insufficient_points
  ]

-- The part of `refundPointsTx` after the debit is found.
unfoldable pub refund_debit : Faults → SagaPayload → PointsLedger → Tx PointsDb (Unit {0})
refund_debit f p d = do
  fail_if
      (not (d.user_id == p.user_id)
        || (leb_ℤ (pos 0) d.delta || not (neg_int64 d.delta == p.total_points)))
      idempotency_conflict
  let row : PointsLedger = record { user_id = p.user_id; delta = neg_int64 d.delta }
  affected ← exec f 1 (insert_refund p.order_id row)
  elim affected [
    | zero ↦ do
      old ← exec f 2 (select_row (λ (db : PointsDb). lookup p.order_id db.refunds))
      fail_if (not (same_row old row)) idempotency_conflict
    | suc _ ↦ do
      rows ← exec f 3 (update_account p.user_id (λ b. true) (λ b. b +ℤ neg_int64 d.delta))
      fail_if (not (nat_beq rows 1)) account_missing
  ]

unfoldable pub refund_points : Faults → SagaPayload → Tx PointsDb (Unit {0})
refund_points f p db =
    elim (exec f 0 (select_row (λ (d : PointsDb). lookup p.order_id d.debits)) db) [
      | ok (d, db') ↦ refund_debit f p d db'
      | err e ↦ elim e [ no_rows ↦ ok (tt, db) | other_error ↦ err other_error ]
    ]

-- `ApplyPointsMutation`
unfoldable pub apply_points : PointsOperation → Faults → SagaPayload → Tx PointsDb (Unit {0})
apply_points debit f p = debit_points f p
apply_points refund f p = refund_points f p
apply_points (other name) f p = fail unknown_operation

-- One transaction, by what it leaves committed.
pub record PointsCall : Type 0 where
  pub operation : PointsOperation
  pub faults : Faults
  pub payload : SagaPayload

unfoldable pub call_points : PointsDb → PointsCall → PointsDb
call_points db c = committed db (apply_points c.operation c.faults c.payload db)

unfoldable pub run_points : PointsDb → List PointsCall → PointsDb
run_points db [] = db
run_points db (c ∷ cs) = run_points (call_points db c) cs
