-- ===== src/TfBackend/Store.antt =====
-- The state and lock store (internal/tfbackend/store.go and lockinfo.go).
use rezuscloud.Prelude.{
  ℕ, Bool, true, false, not, Option, none, some, String, List, [], ◌∷◌, ◌++◌, ◌==◌, ltb,
  if◌then◌else◌,
}
use rezuscloud.Sql.{select_row, delete_where, update_where, count_where}
use rezuscloud.Effects.{
  Result, ok, err, driver, no_rows, constraint, Exec, pure, raise, attempt, query, exec, now, scan,
  ◌>>=◌, ◌>>◌,
}

pub record LockInfo : Type 0 where
  pub id : String
  pub operation : String
  pub info : String
  pub who : String
  pub version : String
  pub created : ℕ
  pub path : String

pub record StateRow : Type 0 where
  pub id : String
  pub state : List ℕ
  pub updated_at : ℕ

-- The `info` column holds the JSON of the LockInfo; it is held decoded.
pub record LockRow : Type 0 where
  pub id : String
  pub lock_id : String
  pub info : LockInfo
  pub created_at : ℕ

-- The tables tf_state and tf_locks; `id` is the PRIMARY KEY of both.
pub record TfTables : Type 0 where
  pub states : List StateRow
  pub locks : List LockRow

abbrev pub state_key : StateRow → String
state_key r = r.id

abbrev pub lock_key : LockRow → String
lock_key r = r.id

abbrev pub select_state : String → TfTables → Option StateRow
select_state id t = select_row (λ r. id == state_key r) t.states

abbrev pub select_lock : String → TfTables → Option LockRow
select_lock id t = select_row (λ r. id == lock_key r) t.locks

unfoldable pub scanned_state : Result StateRow → Exec TfTables (Option (List ℕ))
scanned_state (ok row) = pure (some row.state)
scanned_state (err (driver no_rows)) = pure none
scanned_state (err e) = raise e

-- `none` is `found == false`.
unfoldable pub get_state : String → Exec TfTables (Option (List ℕ))
unfolding query scanned_state
get_state id = do row ← attempt (query (λ t. scan (select_state id t))); scanned_state row

-- INSERT … ON CONFLICT(id) DO UPDATE SET state, updated_at.
unfoldable pub upsert_state : StateRow → TfTables → Result (Unit {0}) × TfTables
upsert_state row t = (
  ok tt,
  record t {
    states = elim (select_state row.id t) [
      | none ↦ t.states ++ row ∷ []
      | some _ ↦
          update_where (λ r. row.id == state_key r)
            (λ r. record r { state = row.state; updated_at = row.updated_at }) t.states
    ];
  },
)

unfoldable pub put_state : String → List ℕ → Exec TfTables Unit
unfolding now exec
put_state id state = do
  at ← now
  exec (upsert_state (record { id = id; state = state; updated_at = at }))

unfoldable pub delete_state_rows : String → TfTables → Result ℕ × TfTables
delete_state_rows id t =
    let p = λ (r : StateRow). id == state_key r in
    (ok (count_where p t.states), record t { states = delete_where p t.states })

unfoldable pub delete_state : String → Exec TfTables Bool
unfolding exec
delete_state id = do n ← exec (delete_state_rows id); pure (ltb 0 n)

unfoldable pub scanned_lock : Result LockRow → Exec TfTables (Option LockInfo)
scanned_lock (ok row) = pure (some row.info)
scanned_lock (err (driver no_rows)) = pure none
scanned_lock (err e) = raise e

unfoldable pub lock_holder : String → Exec TfTables (Option LockInfo)
unfolding query scanned_lock
lock_holder id = do row ← attempt (query (λ t. scan (select_lock id t))); scanned_lock row

-- INSERT INTO tf_locks: refused where the PRIMARY KEY is taken.
unfoldable pub insert_lock : LockRow → TfTables → Result (Unit {0}) × TfTables
insert_lock row t = elim (select_lock row.id t) [
  | some _ ↦ (err (driver constraint), t)
  | none ↦ (ok tt, record t { locks = t.locks ++ row ∷ [] })
]

-- `(holder, err)`: `acquired` is `(nil, nil)`, `held h` is `(h, ErrLockHeld)` with the holder or
-- nil; any other error is an error of the action.
pub data LockAnswer : Type 0 where
  acquired : LockAnswer
  held : Option LockInfo → LockAnswer

unfoldable pub after_insert : String → Result (Unit {0}) → Exec TfTables LockAnswer
after_insert id (ok _) = pure acquired
after_insert id (err _) = do holder ← lock_holder id; pure (held holder)

unfoldable pub lock : String → LockInfo → Exec TfTables LockAnswer
unfolding now exec after_insert
lock id info = do
  at ← now
  inserted ←
      attempt
        (exec (insert_lock (record { id = id; lock_id = info.id; info = info; created_at = at })))
  after_insert id inserted

unfoldable pub delete_lock : String → TfTables → Result (Unit {0}) × TfTables
delete_lock id t = (ok tt, record t { locks = delete_where (λ r. id == lock_key r) t.locks })

-- `(released, mismatch)`.
unfoldable pub release_if_held : String → String → Option LockInfo → Exec TfTables (Bool × Bool)
unfolding exec
release_if_held id lock_id none = pure (false, false)
release_if_held id lock_id (some holder) =
    if not (holder.id == lock_id)
    then pure (false, true)
    else do exec (delete_lock id); pure (true, false)

unfoldable pub unlock : String → String → Exec TfTables (Bool × Bool)
unfolding release_if_held
unlock id lock_id = do holder ← lock_holder id; release_if_held id lock_id holder
