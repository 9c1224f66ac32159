-- ===== src/Effects/Core.antt =====
-- Code that calls the database (database/sql) and the clock (time.Now), and returns a Go `error`.
-- A driver call may fail at any statement: `faulty` is the environment's choice for each one, and
-- `clock` its choice of each reading. What was written before an error stays written.
use rezuscloud.Prelude.{ℕ, suc, Bool, true, false, Option, none, some, String}

-- The errors of the driver: sql.ErrNoRows, a UNIQUE or PRIMARY KEY violation, a syntax error in
-- the statement, and any other failure (I/O, a closed database, SQLITE_BUSY).
pub data DriverError : Type 0 where
  no_rows constraint syntax_error io_failure : DriverError

-- Go errors: the sentinels of state/errors.go and tfbackend/store.go, a failure of encoding/json,
-- an error made by fmt.Errorf or errors.New with no cause, and one that wraps a cause (`%w`).
pub data Error : Type 0 where
  err_not_found err_conflict err_lock_held : Error
  driver : DriverError → Error
  marshal_failure : Error
  message : String → Error
  wrap : String → Error → Error

pub data Result {ℓ} (A : Type ℓ) : Type ℓ where
  ok : A → Result A
  err : Error → Result A

pub record Db (T : Type 0) : Type 0 where
  pub tables : T
  pub clock : ℕ → ℕ
  pub readings : ℕ
  pub faulty : ℕ → Bool
  pub statements : ℕ

abbrev pub Exec : Type 0 → Type 0 → Type 0
Exec T A = Db T → Result A × Db T

-- What follows a call that returned (value, nil); an early return passes the error on.
abbrev pub continue : {T A B : Type 0} → Result A → (A → Exec T B) → Exec T B
continue (ok a) f d = f a d
continue (err e) f d = (err e, d)

module _ {T A B : Type 0} where
  infixl 10 ◌>>=◌ ◌>>◌
  abbrev pub ◌>>=◌ : Exec T A → (A → Exec T B) → Exec T B
  ◌>>=◌ m f d = continue (m d).0 f (m d).1

  abbrev pub ◌>>◌ : Exec T A → Exec T B → Exec T B
  m >> n = m >>= λ _. n

abbrev pub wrapped : {A : Type 0} → String → Result A → Result A
wrapped context (ok a) = ok a
wrapped context (err e) = err (wrap context e)

abbrev pub answer : {A : Type 0} → Bool → Result A → Result A
answer true r = err (driver io_failure)
answer false r = r

module _ {T A : Type 0} where
  abbrev pub pure : A → Exec T A
  pure a d = (ok a, d)

  abbrev pub raise : Error → Exec T A
  raise e d = (err e, d)

  abbrev pub lift : Result A → Exec T A
  lift r d = (r, d)

  -- `v, err := m()` where the code goes on with both (a switch on `err`, or `_ = m()`).
  abbrev pub attempt : Exec T A → Exec T (Result A)
  attempt m d = (ok (m d).0, (m d).1)

  -- `return fmt.Errorf("<context>: %w", err)`.
  abbrev pub context : String → Exec T A → Exec T A
  context c m d = (wrapped c (m d).0, (m d).1)

  -- A statement that reads: QueryRow or Query, and Scan.
  unfoldable pub query : (T → Result A) → Exec T A
  query select d =
      (answer (d.faulty d.statements) (select d.tables), record d { statements = suc d.statements })

  abbrev pub commit : Bool → Db T → Result A × T → Result A × Db T
  commit true d rt = (err (driver io_failure), d)
  commit false d rt = (rt.0, record d { tables = rt.1 })

  -- A statement that writes: Exec. One that fails has written nothing.
  unfoldable pub exec : (T → Result A × T) → Exec T A
  exec change d =
      commit (d.faulty d.statements) (record d { statements = suc d.statements }) (change d.tables)

-- A change of memory beside the database, such as a message to the event bus.
unfoldable pub modify : {T : Type 0} → (T → T) → Exec T (Unit {0})
modify f d = (ok tt, record d { tables = f d.tables })

unfoldable pub gets : {T A : Type 0} → (T → A) → Exec T A
gets f d = (ok (f d.tables), d)

-- time.Now().UTC(), in nanoseconds.
unfoldable pub now : {T : Type 0} → Exec T ℕ
now d = (ok (d.clock d.readings), record d { readings = suc d.readings })

-- `QueryRow(…).Scan(…)` on what the condition selects.
abbrev pub scan : {A : Type 0} → Option A → Result A
scan none = err (driver no_rows)
scan (some a) = ok a

abbrev pub succeeded : {A : Type 0} → Result A → Bool
succeeded (ok a) = true
succeeded (err e) = false
