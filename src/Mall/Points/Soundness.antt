-- ===== src/Mall/Points/Soundness.antt =====
-- Every change of a balance is a row of the ledger, no balance goes below 0, and each refund has its
-- debit, through any sequence of mutations.
use liveclass.Prelude.{
  ◌≡◌, refl, ap, sym, ◌∙◌, ◌⊎◌, inl, inr, true, false, String, Option, none, some, arith, lookup,
  put, lookup-put, lookup-put_kept, All, All-put, All-lookup, sum_rows, sum_rows-put_new,
  Bool-cases, List, [], ◌∷◌, ◌==◌, int_eq, string_eq, if◌then◌else◌,
}
use liveclass.Prelude.Int.{ℤ, pos, ◌+ℤ◌, ◌≤ℤ◌, neg_int64, fits_int64, int_laws}
use liveclass.Mall.Sql.{committed-keeps}
use liveclass.Mall.Points.{
  PointsAccount, PointsLedger, PointsDb, PointsCall, apply_points, call_points, run_points,
}
use liveclass.Mall.Points.Ledger.{IsDebit, Entry, stays, debits, refunds, apply_points-Entry}

abbrev pub cell : Option PointsAccount → ℤ
cell none = pos 0
cell (some a) = a.balance

-- The balance of a user, 0 without an account.
abbrev pub balance_of : ℤ → PointsDb → ℤ
balance_of u db = cell (lookup u db.accounts)

abbrev pub amount : ℤ → PointsLedger → ℤ
amount u r = if r.user_id == u then r.delta else pos 0

-- The sum of the ledger's rows for a user.
abbrev pub ledger_sum : ℤ → PointsDb → ℤ
ledger_sum u db = sum_rows (amount u) db.debits +ℤ sum_rows (amount u) db.refunds

pub record IsSound (db : PointsDb) : Type 0 where
  pub balances : (u : ℤ) → pos 0 ≤ℤ balance_of u db
  pub debit_rows : All (λ row. IsDebit row.1) db.debits
  pub matched :
      (k : String) (r : PointsLedger)
      → lookup k db.refunds ≡ some r
      → (d : PointsLedger) × (lookup k db.debits ≡ some d)
        × (d.user_id ≡ r.user_id)
        × (r.delta ≡ neg_int64 d.delta)

-- The balance of a user after the account of user `n` was written.
pub balance_cases :
    (u n : ℤ) (a b : PointsAccount) (db db' : PointsDb)
    → lookup n db.accounts ≡ some a
    → db'.accounts ≡ put n b db.accounts
    → (((n == u) ≡ true) × (balance_of u db ≡ a.balance) × (balance_of u db' ≡ b.balance))
      ⊎ (((n == u) ≡ false) × (balance_of u db' ≡ balance_of u db))
balance_cases u n a b db db' row e =
    let now = ap (lookup u) e ∙ lookup-put n u b db.accounts in
    elim (Bool-cases (n == u)) [
      | inl hit ↦
          let same : n ≡ u = (int_eq.same_key_iff n u).0 hit in
          inl (
            hit,
            ap cell (ap (λ (x : ℤ). lookup x db.accounts) (sym same) ∙ row),
            ap cell (now ∙ ap (λ c. if c then some b else lookup u db.accounts) hit),
          )
      | inr miss ↦
          inr (miss, ap cell (now ∙ ap (λ c. if c then some b else lookup u db.accounts) miss))
    ]

-- A new row moves the balance and the sum of the ledger by the same amount.
abbrev Accounted : ℤ → PointsDb → PointsDb → Type 0
Accounted u db db' = balance_of u db' +ℤ ledger_sum u db ≡ balance_of u db +ℤ ledger_sum u db'

Entry-Accounted : (u : ℤ) (db db' : PointsDb) → Entry db db' → Accounted u db db'
Entry-Accounted u db db' (stays e) = rw e
Entry-Accounted u db db' (debits k r a b fresh row m n q e) = grind (
  int_laws,
  balance_cases u r.user_id a b db db' row (ap (λ (d : PointsDb). d.accounts) e),
  sum_rows-put_new (amount u) k r db.debits fresh,
  ap (λ (d : PointsDb). ledger_sum u d) e,
)
Entry-Accounted u db db' (refunds k r d a b fresh charged same amt row m e) = grind (
  int_laws,
  balance_cases u r.user_id a b db db' row (ap (λ (x : PointsDb). x.accounts) e),
  sum_rows-put_new (amount u) k r db.refunds fresh,
  ap (λ (x : PointsDb). ledger_sum u x) e,
)

Entry-matched :
    (db db' : PointsDb)
    → Entry db db'
    → IsSound db
    → (k' : String) (r' : PointsLedger) → lookup k' db'.refunds ≡ some r'
    → (d : PointsLedger) × (lookup k' db'.debits ≡ some d)
      × (d.user_id ≡ r'.user_id)
      × (r'.delta ≡ neg_int64 d.delta)
Entry-matched db db' (stays e) v k' r' h =
    let (d, charged, same, amt) =
      v.matched k' r' (sym (ap (λ (x : PointsDb). lookup k' x.refunds) e) ∙ h) in
    (d, ap (λ (x : PointsDb). lookup k' x.debits) e ∙ charged, same, amt)
Entry-matched db db' (debits k r a b fresh row m n q e) v k' r' h =
    let (d, charged, same, amt) =
      v.matched k' r' (sym (ap (λ (x : PointsDb). lookup k' x.refunds) e) ∙ h) in
    (
      d,
      ap (λ (x : PointsDb). lookup k' x.debits) e
          ∙ lookup-put_kept k k' r d db.debits fresh charged,
      same,
      amt,
    )
Entry-matched db db' (refunds k r d a b fresh charged same amt row m e) v k' r' h =
    let now =
      sym (ap (λ (x : PointsDb). lookup k' x.refunds) e ∙ lookup-put k k' r db.refunds) ∙ h in
    let debits' = ap (λ (x : PointsDb). lookup k' x.debits) e in
    elim (Bool-cases (k == k')) [
      | inl hit ↦
          let key : k ≡ k' = (string_eq.same_key_iff k k').0 hit in
          let new : r ≡ r' = ground arith in
          (
            d,
            debits' ∙ (ap (λ (x : String). lookup x db.debits) (sym key) ∙ charged),
            same ∙ ap (λ (x : PointsLedger). x.user_id) new,
            ap (λ (x : PointsLedger). x.delta) (sym new) ∙ amt,
          )
      | inr miss ↦
          let (d', charged', same', amt') = v.matched k' r' (ground arith) in
          (d', debits' ∙ charged', same', amt')
    ]

-- A refund credits a positive amount, since its debit took one.
refund_nonneg :
    (b : ℤ) (r d : PointsLedger)
    → r.delta ≡ neg_int64 d.delta
    → IsDebit d
    → pos 0 ≤ℤ b
    → pos 0 ≤ℤ b +ℤ r.delta
refund_nonneg b r d e q h = rw e (omega int_laws)

Entry-balances :
    (db db' : PointsDb) → Entry db db' → IsSound db → (u : ℤ) → pos 0 ≤ℤ balance_of u db'
Entry-balances db db' (stays e) v u = rw e (v.balances u)
Entry-balances db db' (debits k r a b fresh row m n q e) v u =
    elim (balance_cases u r.user_id a b db db' row (ap (λ (x : PointsDb). x.accounts) e)) [
      | inl (hit, before, after) ↦ rw after n
      | inr (miss, same) ↦ rw same (v.balances u)
    ]
Entry-balances db db' (refunds k r d a b fresh charged same amt row m e) v u =
    elim (balance_cases u r.user_id a b db db' row (ap (λ (x : PointsDb). x.accounts) e)) [
      | inl (hit, before, after) ↦
          rw (after, m)
            (refund_nonneg a.balance r d amt (All-lookup IsDebit k d db.debits v.debit_rows charged)
              (rw before at (v.balances u)))
      | inr (miss, same') ↦ rw same' (v.balances u)
    ]

Entry-IsDebit_rows :
    (db db' : PointsDb) → Entry db db' → IsSound db → All (λ row. IsDebit row.1) db'.debits
Entry-IsDebit_rows db db' (stays e) v = rw e v.debit_rows
Entry-IsDebit_rows db db' (debits k r a b fresh row m n q e) v =
    rw e (All-put IsDebit k r db.debits v.debit_rows q)
Entry-IsDebit_rows db db' (refunds k r d a b fresh charged same amt row m e) v = rw e v.debit_rows

Entry-IsSound : (db db' : PointsDb) → Entry db db' → IsSound db → IsSound db'
Entry-IsSound db db' t v = record {
  balances = Entry-balances db db' t v;
  debit_rows = Entry-IsDebit_rows db db' t v;
  matched = Entry-matched db db' t v;
}

-- The payload's points are an int64, as its Go field is.
abbrev pub IsInt64 : PointsCall → Type 0
IsInt64 c = fits_int64 c.payload.total_points ≡ true

-- From a sound account book, any sequence of debits and refunds whose amounts fit an int64,
-- repeated, reordered or failing at any statement, leads to a sound one: no balance is below 0,
-- each debit row takes points, and each refund row stands beside a debit of the same order and
-- user, with its delta negated.
pub run_points-IsSound :
    (db : PointsDb) (cs : List PointsCall)
    → IsSound db
    → All IsInt64 cs
    → IsSound (run_points db cs)
unfolding run_points call_points
run_points-IsSound db [] v w = v
run_points-IsSound db (c ∷ cs) v w =
    run_points-IsSound (call_points db c) cs
      (committed-keeps IsSound db (apply_points c.operation c.faults c.payload db) v λ db' e.
        Entry-IsSound db db' (apply_points-Entry c.operation c.faults c.payload db db' w.0 e) v)
      w.1

call_points-Accounted :
    (u : ℤ) (db : PointsDb) (c : PointsCall) → IsInt64 c → Accounted u db (call_points db c)
unfolding call_points
call_points-Accounted u db c w =
    committed-keeps (Accounted u db) db (apply_points c.operation c.faults c.payload db) refl
      λ db' e.
        Entry-Accounted u db db' (apply_points-Entry c.operation c.faults c.payload db db' w e)

int_trans : (a b c x y z : ℤ) → b +ℤ x ≡ a +ℤ y → c +ℤ y ≡ b +ℤ z → c +ℤ x ≡ a +ℤ z
int_trans a b c x y z h k = grind int_laws

Accounted-trans :
    (u : ℤ) (db db' db'' : PointsDb)
    → Accounted u db db'
    → Accounted u db' db''
    → Accounted u db db''
Accounted-trans u db db' db'' h k =
    int_trans (balance_of u db) (balance_of u db') (balance_of u db'') (ledger_sum u db)
      (ledger_sum u db') (ledger_sum u db'') h k

-- Through any sequence of debits and refunds whose amounts fit an int64, the balance of every user
-- changes by exactly the sum of the ledger's new rows for the user.
pub run_points-ledger :
    (u : ℤ) (db : PointsDb) (cs : List PointsCall)
    → All IsInt64 cs
    → balance_of u (run_points db cs) +ℤ ledger_sum u db
      ≡ balance_of u db +ℤ ledger_sum u (run_points db cs)
unfolding run_points
run_points-ledger u db [] w = refl
run_points-ledger u db (c ∷ cs) w =
    let step : Accounted u db (call_points db c) = call_points-Accounted u db c w.0 in
    Accounted-trans u db (call_points db c) (run_points (call_points db c) cs) step
      (run_points-ledger u (call_points db c) cs w.1)
