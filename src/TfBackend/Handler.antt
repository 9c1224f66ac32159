-- ===== src/TfBackend/Handler.antt =====
-- The HTTP protocol (internal/tfbackend/handler.go). A request is what the handler reads of it:
-- the method, the `ID` parameter of its query, and its body, as read and as decoded.
use rezuscloud.Prelude.{
  ℕ, Bool, true, false, Option, none, some, String, List, ◌==◌, leb, length, if◌then◌else◌,
}
use rezuscloud.Effects.{Result, ok, err, Exec, pure, attempt, ◌>>=◌}
use rezuscloud.TfBackend.Store.{
  LockInfo, TfTables, LockAnswer, acquired, held, get_state, put_state, delete_state, lock, unlock,
}

-- `body` is `none` where reading it fails; `lock_info` is the body decoded as a LockInfo, and
-- `payload_id` as the `{"ID": …}` of an UNLOCK, `none` where encoding/json fails.
pub record Request : Type 0 where
  pub method : String
  pub query_id : String
  pub body : Option (List ℕ)
  pub lock_info : Option LockInfo
  pub payload_id : Option String

-- A response: the status code, and the body where it is no error text.
pub record Response : Type 0 where
  pub status : ℕ
  pub state : Option (List ℕ)
  pub holder : Option LockInfo

abbrev pub status_only : ℕ → Response
status_only code = record { status = code; state = none; holder = none }

-- 16 << 20.
abbrev pub max_state_bytes : ℕ
max_state_bytes = 16777216

unfoldable pub workspace_id : Request → String
workspace_id r = if r.query_id == "" then "default" else r.query_id

unfoldable pub answer_read : Result (Option (List ℕ)) → Response
answer_read (ok (some state)) = record { status = 200; state = some state; holder = none }
answer_read (ok none) = status_only 404
answer_read (err e) = status_only 500

unfoldable pub handle_read : Request → Exec TfTables Response
unfolding workspace_id answer_read
handle_read r = do found ← attempt (get_state (workspace_id r)); pure (answer_read found)

abbrev pub answer_done : {A : Type 0} → Result A → Response
answer_done (ok _) = status_only 200
answer_done (err e) = status_only 500

-- http.MaxBytesReader fails the read of a body that is longer than the limit.
unfoldable pub read_limited : Option (List ℕ) → Option (List ℕ)
read_limited none = none
read_limited (some body) = if leb (length body) max_state_bytes then some body else none

unfoldable pub write_body : String → Option (List ℕ) → Exec TfTables Response
write_body id none = pure (status_only 400)
write_body id (some body) = do done ← attempt (put_state id body); pure (answer_done done)

unfoldable pub handle_write : Request → Exec TfTables Response
unfolding workspace_id read_limited write_body
handle_write r = write_body (workspace_id r) (read_limited r.body)

unfoldable pub answer_delete : Result Bool → Response
answer_delete (ok true) = status_only 200
answer_delete (ok false) = status_only 404
answer_delete (err e) = status_only 500

unfoldable pub handle_delete : Request → Exec TfTables Response
unfolding workspace_id answer_delete
handle_delete r = do found ← attempt (delete_state (workspace_id r)); pure (answer_delete found)

unfoldable pub answer_lock : Result LockAnswer → Response
answer_lock (ok acquired) = status_only 200
answer_lock (ok (held (some holder))) = record { status = 423; state = none; holder = some holder }
answer_lock (ok (held none)) = status_only 500
answer_lock (err e) = status_only 500

unfoldable pub lock_decoded : String → Option LockInfo → Exec TfTables Response
unfolding answer_lock
lock_decoded id none = pure (status_only 400)
lock_decoded id (some info) =
    if info.id == ""
    then pure (status_only 400)
    else do answer ← attempt (lock id info); pure (answer_lock answer)

unfoldable pub handle_lock : Request → Exec TfTables Response
unfolding workspace_id lock_decoded
handle_lock r = lock_decoded (workspace_id r) r.lock_info

unfoldable pub answer_unlock : Result (Bool × Bool) → Response
answer_unlock (ok (true, mismatch)) = status_only 200
answer_unlock (ok (false, true)) = status_only 409
answer_unlock (ok (false, false)) = status_only 200
answer_unlock (err e) = status_only 500

unfoldable pub unlock_decoded : String → Option String → Exec TfTables Response
unfolding answer_unlock
unlock_decoded id none = pure (status_only 400)
unlock_decoded id (some lock_id) = do
  answer ← attempt (unlock id lock_id)
  pure (answer_unlock answer)

unfoldable pub handle_unlock : Request → Exec TfTables Response
unfolding workspace_id unlock_decoded
handle_unlock r = unlock_decoded (workspace_id r) r.payload_id

unfoldable pub serve_http : Request → Exec TfTables Response
serve_http r =
    if r.method == "GET"
    then handle_read r
    else if r.method == "POST"
    then handle_write r
    else if r.method == "DELETE"
    then handle_delete r
    else if r.method == "LOCK"
    then handle_lock r
    else if r.method == "UNLOCK"
    then handle_unlock r
    else pure (status_only 405)
