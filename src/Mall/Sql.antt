-- ===== src/Mall/Sql.antt =====
-- A transaction of database/sql over a database of type `S`: it fails, or returns a value and the
-- database as the transaction sees it. Each statement of a function has a number; `Faults` is what
-- the driver reports for it (a lost connection, a deadlock), and a statement without a fault has the
-- meaning of its SQL text.
use liveclass.Prelude.{ℕ, ◌≡◌, refl, Bool, true, false, Option, none, some}

-- The status column of a reservation and of an order.
pub data Status : Type 0 where
  pending reserved confirmed released compensated : Status

-- What the driver reports for a statement: MySQL error 1213, or any other failure.
pub data DriverFault : Type 0 where
  deadlock : DriverFault
  broken : ℕ → DriverFault

pub data Error : Type 0 where
  insufficient_stock insufficient_points idempotency_conflict injected_failure : Error
  invalid_mutation invalid_payload unknown_operation : Error
  invariant_violation account_missing : Error
  status_refused : Status → Error
  no_rows out_of_range nil_database : Error
  driver : DriverFault → Error
  retries_exhausted : Error

pub data Result (A : Type 0) : Type 0 where
  err : Error → Result A
  ok : A → Result A

abbrev pub Faults : Type 0
Faults = ℕ → Option DriverFault

abbrev pub no_faults : Faults
no_faults n = none

abbrev pub Tx : Type 0 → Type 0 → Type 0
Tx S A = S → Result (A × S)

infixl 5 ◌>>=◌ ◌>>◌
abbrev pub ◌>>=◌ : {S A B : Type 0} → Tx S A → (A → Tx S B) → Tx S B
◌>>=◌ m f s = elim (m s) [ ok (a, s') ↦ f a s' | err e ↦ err e ]

abbrev pub ◌>>◌ : {S B : Type 0} → Tx S (Unit {0}) → Tx S B → Tx S B
m >> k = m >>= λ _. k

abbrev pub pure : {S A : Type 0} → A → Tx S A
pure a s = ok (a, s)

abbrev pub fail : {S A : Type 0} → Error → Tx S A
fail e s = err e

abbrev pub fail_if : {S : Type 0} → Bool → Error → Tx S (Unit {0})
fail_if true e s = err e
fail_if false e s = ok (tt, s)

-- Statement `n`: the fault that is reported for it, or its effect.
abbrev pub run_statement : {S A : Type 0} → Option DriverFault → Tx S A → Tx S A
run_statement none m s = m s
run_statement (some e) m s = err (driver e)

abbrev pub exec : {S A : Type 0} → Faults → ℕ → Tx S A → Tx S A
exec f n m = run_statement (f n) m

-- `SELECT ... Scan`: the row, or sql.ErrNoRows.
abbrev pub select_row : {S A : Type 0} → (S → Option A) → Tx S A
select_row q s = elim (q s) [ none ↦ err no_rows | some a ↦ ok (a, s) ]

-- What a transaction leaves committed: nothing of a failed one.
abbrev pub committed : {S A : Type 0} → S → Result (A × S) → S
committed s (ok (a, s')) = s'
committed s (err e) = s

-- What holds before a transaction and after a successful one holds of what it leaves committed.
pub committed-keeps {κ} :
    {S : Type 0} (P : S → Type κ) (s : S) (r : Result (Unit {0} × S))
    → P s
    → ((s' : S) → r ≡ ok (tt, s') → P s')
    → P (committed s r)
committed-keeps P s (ok (a, s')) h k = k s' refl
committed-keeps P s (err e) h k = h
