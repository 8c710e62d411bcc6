-- ===== src/Mall/Points/Ledger.antt =====
-- Balances against the ledger: every change of a balance is a row, no balance goes below 0, and each
-- refund has its debit.
use liveclass.Prelude.{
  ◌≡◌, refl, inl, inr, true, String, none, some, arith, lookup, Option-cases, int_eq, string_eq,
}
use liveclass.Prelude.Int.{
  ℤ, pos, ◌+ℤ◌, ◌-ℤ◌, ◌≤ℤ◌, ◌<ℤ◌, neg_int64, fits_int64, neg_int64-pos, neg_int64-neg_int64,
  int_laws,
}
use liveclass.Mall.Sql.{Faults, ok}
use liveclass.Mall.Payload.{SagaPayload}
use liveclass.Mall.Points.{
  PointsAccount, PointsLedger, PointsDb, PointsOperation, put_account, put_debit, put_refund,
  insert_debit, insert_refund, update_account, debit_row, debit_points, refund_debit, refund_points,
  apply_points,
}

-- A debit takes a positive amount, which is negated without wrapping.
abbrev pub IsDebit : PointsLedger → Type 0
IsDebit r = pos 0 <ℤ neg_int64 r.delta

-- What a successful mutation has done: nothing, or one new ledger row and its amount on the balance
-- of the row's user.
pub data Entry (db db' : PointsDb) : Type 0 where
  stays : db' ≡ db → Entry db db'
  debits :
      (k : String) (r : PointsLedger) (a b : PointsAccount)
      → lookup k db.debits ≡ none
      → lookup r.user_id db.accounts ≡ some a
      → b.balance ≡ a.balance +ℤ r.delta
      → pos 0 ≤ℤ b.balance
      → IsDebit r
      → db' ≡ put_account r.user_id b (put_debit k r db)
      → Entry db db'
  refunds :
      (k : String) (r d : PointsLedger) (a b : PointsAccount)
      → lookup k db.refunds ≡ none
      → lookup k db.debits ≡ some d
      → d.user_id ≡ r.user_id
      → r.delta ≡ neg_int64 d.delta
      → lookup r.user_id db.accounts ≡ some a
      → b.balance ≡ a.balance +ℤ r.delta
      → db' ≡ put_account r.user_id b (put_refund k r db)
      → Entry db db'

debit_balance : (b x : ℤ) → pos 0 <ℤ x → b -ℤ x ≡ b +ℤ neg_int64 x
debit_balance b x h = rw (neg_int64-pos x h) (omega int_laws)

debit-Entry :
    (f : Faults) (p : SagaPayload) (db db' : PointsDb)
    → fits_int64 p.total_points ≡ true
    → debit_points f p db ≡ ok (tt, db')
    → Entry db db'
unfolding debit_points insert_debit update_account
debit-Entry f p db db' w h = elim (Option-cases (lookup p.order_id db.debits)) [
  | inl fresh ↦ elim (Option-cases (lookup p.user_id db.accounts)) [
    | inl missing ↦ absurd (ground arith)
    | inr (a, found) ↦
        let positive : pos 0 <ℤ p.total_points = ground arith in
        let enough : p.total_points ≤ℤ a.balance = ground arith in
        debits p.order_id (debit_row p) a
          (record { balance = a.balance -ℤ p.total_points; version = a.version +ℤ pos 1 }) fresh
          found (debit_balance a.balance p.total_points positive) (omega int_laws)
          (rw (neg_int64-neg_int64 p.total_points positive w) positive) (ground arith)
  ]
  | inr (r, old) ↦ stays (ground arith)
]

refund-Entry :
    (f : Faults) (p : SagaPayload) (db db' : PointsDb)
    → refund_points f p db ≡ ok (tt, db')
    → Entry db db'
unfolding refund_points refund_debit insert_refund update_account
refund-Entry f p db db' h = elim (Option-cases (lookup p.order_id db.debits)) [
  | inl missing ↦ stays (ground arith)
  | inr (d, charged) ↦ elim (Option-cases (lookup p.order_id db.refunds)) [
    | inr (r, old) ↦ stays (ground arith)
    | inl fresh ↦ elim (Option-cases (lookup p.user_id db.accounts)) [
      | inl missing ↦ absurd (ground arith)
      | inr (a, found) ↦
          let same : d.user_id ≡ p.user_id =
            ground (arith, int_eq.same_key_iff d.user_id p.user_id) in
          refunds p.order_id (record { user_id = p.user_id; delta = neg_int64 d.delta }) d a
            (record { balance = a.balance +ℤ neg_int64 d.delta; version = a.version +ℤ pos 1 })
            fresh charged same refl found refl (ground arith)
    ]
  ]
]

pub apply_points-Entry :
    (op : PointsOperation) (f : Faults) (p : SagaPayload) (db db' : PointsDb)
    → fits_int64 p.total_points ≡ true
    → apply_points op f p db ≡ ok (tt, db')
    → Entry db db'
unfolding apply_points
apply_points-Entry PointsOperation.debit f p db db' w h = debit-Entry f p db db' w h
apply_points-Entry PointsOperation.refund f p db db' w h = refund-Entry f p db db' h
apply_points-Entry (PointsOperation.other name) f p db db' w h = cc
