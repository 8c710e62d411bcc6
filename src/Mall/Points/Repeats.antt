-- ===== src/Mall/Points/Repeats.antt =====
-- Repeated debits and refunds, and a refund after its debit.
use liveclass.Prelude.{
  some_inj, ◌≡◌, ap, sym, ◌∙◌, true, none, some, arith, lookup, put, lookup-put_self, Option-cases,
  inl, inr, int_eq, string_eq, beq_refl,
}
use liveclass.Prelude.Int.{
  ℤ, pos, ◌+ℤ◌, ◌-ℤ◌, ◌<ℤ◌, neg_int64, fits_int64, neg_int64-neg_int64, int_laws,
}
use liveclass.Mall.Sql.{Faults, no_faults, ok}
use liveclass.Mall.Payload.{SagaPayload}
use liveclass.Mall.Points.{
  PointsAccount, PointsLedger, PointsDb, PointsOperation, put_account, put_debit, put_refund,
  insert_debit, insert_refund, update_account, debit_row, debit_points, refund_debit, refund_points,
  apply_points,
}
use liveclass.Mall.Points.Soundness.{balance_of, balance_cases}

debit-again :
    (f : Faults) (p : SagaPayload) (db db' : PointsDb)
    → debit_points f p db ≡ ok (tt, db')
    → debit_points no_faults p db' ≡ ok (tt, db')
unfolding debit_points insert_debit update_account
debit-again f p db db' h = elim (Option-cases (lookup p.order_id db.debits)) [
  | inl fresh ↦ ground (
    arith,
    lookup-put_self p.order_id (debit_row p) db.debits,
    beq_refl p.user_id,
    beq_refl (neg_int64 p.total_points),
  )
  | inr (r, old) ↦ ground arith
]

refund-again :
    (f : Faults) (p : SagaPayload) (db db' : PointsDb)
    → refund_points f p db ≡ ok (tt, db')
    → refund_points no_faults p db' ≡ ok (tt, db')
unfolding refund_points refund_debit insert_refund update_account
refund-again f p db db' h = elim (Option-cases (lookup p.order_id db.debits)) [
  | inl missing ↦ ground arith
  | inr (d, charged) ↦
      let row : PointsLedger = record { user_id = p.user_id; delta = neg_int64 d.delta } in
      elim (Option-cases (lookup p.order_id db.refunds)) [
        | inl fresh ↦ ground (
          arith,
          lookup-put_self p.order_id row db.refunds,
          beq_refl p.user_id,
          beq_refl (neg_int64 d.delta),
        )
        | inr (r, old) ↦ ground arith
      ]
]

-- Whichever of debit and refund succeeded, the same one again, with no fault at its statements,
-- succeeds too and changes nothing.
pub apply_points-again :
    (op : PointsOperation) (f : Faults) (p : SagaPayload) (db db' : PointsDb)
    → apply_points op f p db ≡ ok (tt, db')
    → apply_points op no_faults p db' ≡ ok (tt, db')
unfolding apply_points
apply_points-again PointsOperation.debit f p db db' = debit-again f p db db'
apply_points-again PointsOperation.refund f p db db' = refund-again f p db db'
apply_points-again (PointsOperation.other name) f p db db' = λ h. cc

abbrev charged_account : SagaPayload → PointsAccount → PointsAccount
charged_account p a = record { balance = a.balance -ℤ p.total_points; version = a.version +ℤ pos 1 }

abbrev credited_account : SagaPayload → PointsAccount → PointsAccount
credited_account p a = record {
  balance = a.balance +ℤ neg_int64 (debit_row p).delta;
  version = a.version +ℤ pos 1;
}

abbrev refund_row : SagaPayload → PointsLedger
refund_row p = record { user_id = p.user_id; delta = neg_int64 (debit_row p).delta }

debit-Charged :
    (f : Faults) (p : SagaPayload) (db db' : PointsDb)
    → lookup p.order_id db.debits ≡ none
    → debit_points f p db ≡ ok (tt, db')
    → (a : PointsAccount) × (lookup p.user_id db.accounts ≡ some a)
      × (pos 0 <ℤ p.total_points)
      × (db' ≡ put_account p.user_id (charged_account p a) (put_debit p.order_id (debit_row p) db))
unfolding debit_points insert_debit update_account
debit-Charged f p db db' fresh h = elim (Option-cases (lookup p.user_id db.accounts)) [
  | inl missing ↦ absurd (ground arith)
  | inr (a, found) ↦ (a, found, ground arith, ground arith)
]

refund-Credited :
    (f : Faults) (p : SagaPayload) (db db' : PointsDb)
    → lookup p.order_id db.debits ≡ some (debit_row p)
    → lookup p.order_id db.refunds ≡ none
    → refund_points f p db ≡ ok (tt, db')
    → (a : PointsAccount) × (lookup p.user_id db.accounts ≡ some a)
      × (db'
          ≡ put_account p.user_id (credited_account p a) (put_refund p.order_id (refund_row p) db))
unfolding refund_points refund_debit insert_refund update_account
refund-Credited f p db db' charged fresh h = elim (Option-cases (lookup p.user_id db.accounts)) [
  | inl missing ↦ absurd (ground arith)
  | inr (a, found) ↦ (a, found, ground arith)
]

restored : (b x : ℤ) → pos 0 <ℤ x → fits_int64 x ≡ true → b -ℤ x +ℤ neg_int64 (neg_int64 x) ≡ b
restored b x h w = rw (neg_int64-neg_int64 x h w) (omega int_laws)

balance_restored :
    (u n : ℤ) (a b c : PointsAccount) (db db' db'' : PointsDb)
    → lookup n db.accounts ≡ some a
    → db'.accounts ≡ put n b db.accounts
    → db''.accounts ≡ put n c db'.accounts
    → c.balance ≡ a.balance
    → balance_of u db'' ≡ balance_of u db
balance_restored u n a b c db db' db'' row e e' back =
    let row' = ap (lookup n) e ∙ lookup-put_self n b db.accounts in
    grind (arith, balance_cases u n a b db db' row e, balance_cases u n b c db' db'' row' e')

-- A debit of the order stands in the ledger, so the debit is taken for a repetition.
debit_recorded :
    (f : Faults) (p : SagaPayload) (db db' db'' : PointsDb)
    → debit_points f p db ≡ ok (tt, db')
    → lookup p.order_id db''.debits ≡ some (debit_row p)
    → debit_points no_faults p db'' ≡ ok (tt, db'')
unfolding debit_points insert_debit
debit_recorded f p db db' db'' h e =
    ground (arith, beq_refl p.user_id, beq_refl (neg_int64 p.total_points))

module _ (f g : Faults) (p : SagaPayload) (db db' db'' : PointsDb)
    (w : fits_int64 p.total_points ≡ true) (fresh : lookup p.order_id db.debits ≡ none)
    (unrefunded : lookup p.order_id db.refunds ≡ none)
    (debited : debit_points f p db ≡ ok (tt, db'))
    (refunded : refund_points g p db' ≡ ok (tt, db'')) where
  charged : lookup p.order_id db'.debits ≡ some (debit_row p)
  charged =
      ap (λ (d : PointsDb). lookup p.order_id d.debits) (debit-Charged f p db db' fresh debited).3
      ∙ lookup-put_self p.order_id (debit_row p) db.debits

  still_unrefunded : lookup p.order_id db'.refunds ≡ none
  still_unrefunded =
      ap (λ (d : PointsDb). lookup p.order_id d.refunds) (debit-Charged f p db db' fresh debited).3
      ∙ unrefunded

  -- If an order without ledger rows is debited an amount that fits an int64 and then refunded, each
  -- with success, every user has the balance from before.
  pub refund-debit : (u : ℤ) → balance_of u db'' ≡ balance_of u db
  refund-debit u =
      let (a, row, positive, e) = debit-Charged f p db db' fresh debited in
      let (b, row', e') = refund-Credited g p db' db'' charged still_unrefunded refunded in
      let account = some_inj (
        sym row'
        ∙ (ap (λ (d : PointsDb). lookup p.user_id d.accounts) e
            ∙ lookup-put_self p.user_id (charged_account p a) db.accounts)) in
      balance_restored u p.user_id a (charged_account p a) (credited_account p b) db db' db'' row
        (ap (λ (d : PointsDb). d.accounts) e) (ap (λ (d : PointsDb). d.accounts) e')
        (ap (λ (x : PointsAccount). x.balance +ℤ neg_int64 (debit_row p).delta) account
          ∙ restored a.balance p.total_points positive w)

  -- If an order without ledger rows is debited an amount that fits an int64 and then refunded, each
  -- with success, the same debit again reports success and changes nothing: every user has the
  -- balance from before the first debit.
  pub debit-refund_uncharged :
      (debit_points no_faults p db'' ≡ ok (tt, db''))
      × ((u : ℤ) → balance_of u db'' ≡ balance_of u db)
  debit-refund_uncharged =
      let (b, row', e') = refund-Credited g p db' db'' charged still_unrefunded refunded in
      (
        debit_recorded f p db db' db'' debited
            (ap (λ (d : PointsDb). lookup p.order_id d.debits) e' ∙ charged),
        refund-debit,
      )
