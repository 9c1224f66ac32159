-- ===== src/TfBackend/Locking/Exclusion.antt =====
-- The lock of a workspace (internal/tfbackend): taken, refused, released.
use rezuscloud.Prelude.{
  ℕ, suc, ◌≡◌, ◌≢◌, refl, ◌∙◌, inl, inr, true, false, Option, none, some, String, List, ◌==◌,
  eq_iff, eq_refl, Bool-cases, All,
}
use rezuscloud.Sql.Keyed.{lookup-append, lookup-delete_where}
use rezuscloud.Effects.{
  Db, Result, ok, err, Error, driver, io_failure, constraint, pure, exec, query, now, continue,
}
use rezuscloud.TfBackend.Store.{
  TfTables, LockInfo, LockRow, acquired, held, lock_key, select_lock, insert_lock, delete_lock,
  lock, unlock, lock_holder, scanned_lock, after_insert, release_if_held,
}
use rezuscloud.TfBackend.Handler.{Request}
use rezuscloud.TfBackend.Locking.Kept.{releases, serve_all, serve_all-Locked}

module _ (id : String) (row : LockRow) where
  held-not_acquired :
      (r : Result (Option LockInfo)) (d : Db TfTables)
      → (continue r (λ h. pure (held h)) d).0 ≢ ok acquired
  held-not_acquired (ok h) d = λ e. cc
  held-not_acquired (err e) d = λ e. cc

  after_insert-refused :
      (ws : String) (e : Error) (d : Db TfTables) → (after_insert ws (err e) d).0 ≢ ok acquired
  unfolding after_insert
  after_insert-refused ws e d = held-not_acquired (lock_holder ws d).0 (lock_holder ws d).1

  -- While the row stands, a LOCK takes nothing, whatever fails.
  lock-refused :
      (info : LockInfo) (d : Db TfTables)
      → select_lock id d.tables ≡ some row
      → (lock id info d).0 ≢ ok acquired
  unfolding lock exec now insert_lock
  lock-refused info d h = elim (Bool-cases (d.faulty d.statements)) [
    | inl broken ↦ rw broken (after_insert-refused id (driver io_failure) _)
    | inr fine ↦ rw (fine, insert_lock, h) (after_insert-refused id (driver constraint) _)
  ]

  -- After any requests, none an UNLOCK of this workspace that names the holder's lock ID, and
  -- whatever statements fail, a LOCK of a locked workspace does not acquire the lock.
  pub lock_exclusive :
      (d : Db TfTables) (rs : List Request) (info : LockInfo)
      → select_lock id d.tables ≡ some row
      → All (λ r. releases id row r ≡ false) rs
      → (lock id info (serve_all rs d).1).0 ≢ ok acquired
  lock_exclusive d rs info h kept =
      lock-refused info (serve_all rs d).1 ((serve_all-Locked id row rs kept).at d h)

  -- Where no statement fails, a LOCK of a locked workspace answers with the holder and changes no
  -- row.
  pub lock-held :
      (info : LockInfo) (d : Db TfTables)
      → select_lock id d.tables ≡ some row
      → ((n : ℕ) → d.faulty n ≡ false)
      → ((lock id info d).0 ≡ ok (held (some row.info))) × ((lock id info d).1.tables ≡ d.tables)
  unfolding lock after_insert insert_lock exec now lock_holder query scanned_lock
  lock-held info d h fine =
      (rw (fine, h, insert_lock, fine, h) refl, rw (fine, h, insert_lock, fine, h) refl)

delete_lock-free : (id : String) (t : TfTables) → select_lock id (delete_lock id t).1 ≡ none
unfolding delete_lock
delete_lock-free id t =
    lookup-delete_where lock_key ◌==◌ eq_iff id id t.locks ∙ rw (eq_refl id) refl

-- The row that a LOCK writes.
abbrev pub taken_row : String → LockInfo → ℕ → LockRow
taken_row id info at = record { id = id; lock_id = info.id; info = info; created_at = at }

lock-free :
    (id : String) (info : LockInfo) (d : Db TfTables)
    → select_lock id d.tables ≡ none
    → ((n : ℕ) → d.faulty n ≡ false)
    → ((lock id info d).0 ≡ ok acquired)
      × (select_lock id (lock id info d).1.tables ≡ some (taken_row id info (d.clock d.readings)))
unfolding lock after_insert insert_lock exec now
lock-free id info d free fine = (
  rw (fine, insert_lock, free) refl,
  rw (fine, insert_lock, free)
      (lookup-append lock_key ◌==◌ eq_iff id d.tables.locks (taken_row id info (d.clock d.readings))
        ∙ rw (free, eq_refl id) refl),
)

-- Where no statement fails and the workspace is locked, an UNLOCK with another ID is answered as
-- a mismatch and leaves the rows alone.
pub unlock-mismatch :
    (id : String) (row : LockRow) (lock_id : String) (d : Db TfTables)
    → select_lock id d.tables ≡ some row
    → ((n : ℕ) → d.faulty n ≡ false)
    → (row.info.id == lock_id) ≡ false
    → ((unlock id lock_id d).0 ≡ ok (false, true)) × ((unlock id lock_id d).1.tables ≡ d.tables)
unfolding unlock lock_holder query scanned_lock release_if_held
unlock-mismatch id row lock_id d h fine other = (rw (fine, h, other) refl, rw (fine, h, other) refl)

-- Where no statement fails and the workspace is locked, an UNLOCK with the holder's ID releases
-- the lock, and a LOCK after it acquires it for the caller.
pub unlock-releases :
    (id : String) (row : LockRow) (info : LockInfo) (lock_id : String) (d : Db TfTables)
    → select_lock id d.tables ≡ some row
    → ((n : ℕ) → d.faulty n ≡ false)
    → (row.info.id == lock_id) ≡ true
    → ((unlock id lock_id d).0 ≡ ok (true, false))
      × ((lock id info (unlock id lock_id d).1).0 ≡ ok acquired)
      × (select_lock id (lock id info (unlock id lock_id d).1).1.tables
          ≡ some (taken_row id info (d.clock d.readings)))
unfolding unlock lock_holder query scanned_lock release_if_held exec delete_lock
unlock-releases id row info lock_id d h fine same =
    let freed =
      lock-free id info
        (record d { tables = (delete_lock id d.tables).1; statements = suc (suc d.statements) })
        (delete_lock-free id d.tables) fine in
    (
      rw (fine, h, same, fine) refl,
      rw (fine, h, same, fine) freed.0,
      rw (fine, h, same, fine) freed.1,
    )
