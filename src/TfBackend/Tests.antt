-- ===== src/TfBackend/Tests.antt =====
-- The state backend (internal/tfbackend) on a small store.
use rezuscloud.Prelude.{
  ◌≡◌, ◌≢◌, refl, true, false, none, some, String, [], ◌∷◌, arith, ◌==◌, if◌then◌else◌,
}
use rezuscloud.Sql.{select_row}
use rezuscloud.Effects.{Db, ok}
use rezuscloud.TfBackend.Store.{TfTables, LockInfo, LockRow, acquired, select_lock, lock, unlock}
use rezuscloud.TfBackend.Handler.{Request, status_only, workspace_id, serve_http}
use rezuscloud.TfBackend.Locking.Kept.{releases, serve_all}
use rezuscloud.TfBackend.Locking.Exclusion.{lock_exclusive, unlock-releases, taken_row}
use rezuscloud.TfBackend.Protocol.{post_then_get}

abbrev lock_info : String → LockInfo
lock_info id = record {
  id = id;
  operation = "apply";
  info = "";
  who = "ci";
  version = "1.8";
  created = 0;
  path = "";
}

abbrev lock_row : LockRow
lock_row = record { id = "acme"; lock_id = "L1"; info = lock_info "L1"; created_at = 3 }

abbrev locked : Db TfTables
locked = record {
  tables = record { states = []; locks = lock_row ∷ [] };
  clock = λ n. n;
  readings = 0;
  faulty = λ n. false;
  statements = 0;
}

locked-found : select_lock "acme" locked.tables ≡ some lock_row
unfolding select_row
locked-found = refl

abbrev request : String → String → Request
request method workspace = record {
  method = method;
  query_id = workspace;
  body = some (1 ∷ 2 ∷ []);
  lock_info = some (lock_info "L2");
  payload_id = some "L2";
}

others_kept : releases "acme" lock_row (request "UNLOCK" "acme") ≡ false
unfolding releases workspace_id
others_kept = refl

posts_kept : releases "acme" lock_row (request "POST" "acme") ≡ false
unfolding releases
posts_kept = refl

lock_exclusive_example :
    (lock "acme"
      (lock_info "L2")
      (serve_all (request "UNLOCK" "acme" ∷ request "POST" "acme" ∷ []) locked).1).0
    ≢ ok acquired
lock_exclusive_example =
    lock_exclusive "acme" lock_row locked (request "UNLOCK" "acme" ∷ request "POST" "acme" ∷ [])
      (lock_info "L2") locked-found (others_kept, (posts_kept, tt))

unlock-releases_example :
    ((unlock "acme" "L1" locked).0 ≡ ok (true, false))
    × ((lock "acme" (lock_info "L2") (unlock "acme" "L1" locked).1).0 ≡ ok acquired)
    × (select_lock "acme" (lock "acme" (lock_info "L2") (unlock "acme" "L1" locked).1).1.tables
        ≡ some (taken_row "acme" (lock_info "L2") 0))
unlock-releases_example =
    unlock-releases "acme" lock_row (lock_info "L2") "L1" locked locked-found (λ n. refl) refl

post_then_get_example :
    ((serve_http (request "POST" "acme") locked).0 ≡ ok (status_only 200))
    × ((serve_http (request "GET" "acme") (serve_http (request "POST" "acme") locked).1).0 ≡ (
        if workspace_id (request "POST" "acme") == workspace_id (request "GET" "acme")
        then ok (record { status = 200; state = some (1 ∷ 2 ∷ []); holder = none })
        else (serve_http (request "GET" "acme") locked).0))
post_then_get_example =
    post_then_get (request "POST" "acme") (request "GET" "acme") (1 ∷ 2 ∷ []) locked (λ n. refl)
      refl refl refl (omega arith)
