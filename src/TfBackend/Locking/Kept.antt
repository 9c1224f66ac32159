-- ===== src/TfBackend/Locking/Kept.antt =====
-- The lock of a workspace (internal/tfbackend) under each handler.
use rezuscloud.Prelude.{
  ℕ, ◌≡◌, refl, sym, ◌∙◌, ap, inl, inr, Bool, true, false, ◌&&◌, Option, none, some, String, List,
  [], ◌∷◌, ◌==◌, eq_iff, if◌then◌else◌, Bool-cases, Option-cases, All,
}
use rezuscloud.Sql.Keyed.{lookup-append, lookup-delete_where, found_or}
use rezuscloud.Effects.{Result, ok, err, driver, no_rows, Exec, pure, ◌>>◌}
use rezuscloud.Effects.Keeps.{
  Keeps, Anything, Anything-preorder, Keeps-Anything, IsPreorder, keeps_rules, Keeps-exec, Keeps-if,
  Keeps-pure, Keeps-bind,
}
use rezuscloud.TfBackend.Store.{
  TfTables, LockInfo, LockRow, StateRow, lock_key, select_lock, insert_lock, upsert_state,
  delete_state_rows, delete_lock, put_state, delete_state, get_state, lock, unlock, lock_holder,
  scanned_lock, scanned_state, after_insert, release_if_held,
}
use rezuscloud.TfBackend.Handler.{
  Request, status_only, workspace_id, serve_http, handle_read, handle_write, handle_delete,
  handle_lock, handle_unlock, write_body, lock_decoded, unlock_decoded,
}

-- Requests one after the other; the responses are not looked at.
unfoldable pub serve_all : List Request → Exec TfTables (Unit {0})
serve_all [] = pure tt
serve_all (r ∷ rs) = do serve_http r; serve_all rs

module _ (id : String) (row : LockRow) where
  -- The workspace stays locked by this row.
  abbrev pub Locked : TfTables → TfTables → Type 0
  Locked t u = select_lock id t ≡ some row → select_lock id u ≡ some row

  pub Locked-preorder : IsPreorder Locked
  Locked-preorder = record { same = λ t h. h; trans = λ t u v f g h. g (f h) }

  insert_lock-Locked : (r : LockRow) (t : TfTables) → Locked t (insert_lock r t).1
  unfolding insert_lock
  insert_lock-Locked r t h = elim (Option-cases (select_lock r.id t)) [
    | inl free ↦
        rw (free, insert_lock)
          (lookup-append lock_key ◌==◌ eq_iff id t.locks r ∙ rw (h, found_or) refl)
    | inr (_, taken) ↦ rw (taken, insert_lock) h
  ]

  delete_lock-Locked :
      (ws : String) → (ws == id) ≡ false → (t : TfTables) → Locked t (delete_lock ws t).1
  unfolding delete_lock
  delete_lock-Locked ws other t h =
      lookup-delete_where lock_key ◌==◌ eq_iff ws id t.locks ∙ rw other h

  upsert_state-Locked : (r : StateRow) (t : TfTables) → Locked t (upsert_state r t).1
  unfolding upsert_state
  upsert_state-Locked r t h = h

  delete_state_rows-Locked : (ws : String) (t : TfTables) → Locked t (delete_state_rows ws t).1
  unfolding delete_state_rows
  delete_state_rows-Locked ws t h = h

  scanned_lock-Locked : (r : Result LockRow) → Keeps Locked (scanned_lock r)
  unfolding scanned_lock
  scanned_lock-Locked (ok r) = search (keeps_rules, Locked-preorder)
  scanned_lock-Locked (err (driver no_rows)) = search (keeps_rules, Locked-preorder)
  scanned_lock-Locked (err e) = search (keeps_rules, Locked-preorder)

  lock_holder-Locked : (ws : String) → Keeps Locked (lock_holder ws)
  unfolding lock_holder
  lock_holder-Locked ws = search (keeps_rules, Locked-preorder, scanned_lock-Locked) depth 8

  after_insert-Locked : (ws : String) (r : Result (Unit {0})) → Keeps Locked (after_insert ws r)
  unfolding after_insert
  after_insert-Locked ws (ok _) = search (keeps_rules, Locked-preorder)
  after_insert-Locked ws (err _) = search (keeps_rules, Locked-preorder, lock_holder-Locked) depth 8

  lock-Locked : (ws : String) (info : LockInfo) → Keeps Locked (lock ws info)
  unfolding lock
  lock-Locked ws info =
      search (keeps_rules, Locked-preorder, insert_lock-Locked, after_insert-Locked) depth 10

  release-Locked :
      (ws lock_id : String)
      → (ws == id) ≡ false
      → (holder : Option LockInfo) → Keeps Locked (release_if_held ws lock_id holder)
  unfolding release_if_held
  release-Locked ws lock_id other none = search (keeps_rules, Locked-preorder)
  release-Locked ws lock_id other (some holder) =
      let deleted = delete_lock-Locked ws other in
      search (keeps_rules, Locked-preorder, deleted) depth 8

  release-Anything :
      (ws lock_id : String) (holder : Option LockInfo)
      → Keeps Anything (release_if_held ws lock_id holder)
  unfolding release_if_held
  release-Anything ws lock_id none = Keeps-pure Anything-preorder _
  release-Anything ws lock_id (some holder) =
      Keeps-if Anything-preorder _ _ _ (Keeps-pure Anything-preorder _) (
        Keeps-bind Anything-preorder _ _ (Keeps-exec Anything-preorder _ (λ t. tt))
          (λ u. Keeps-pure Anything-preorder _))

  unlock-Anything : (ws lock_id : String) → Keeps Anything (unlock ws lock_id)
  unfolding unlock
  unlock-Anything ws lock_id =
      Keeps-bind Anything-preorder _ _ (Keeps-Anything (lock_holder-Locked ws))
        (release-Anything ws lock_id)

  unlock_other-Locked :
      (ws lock_id : String) → (ws == id) ≡ false → Keeps Locked (unlock ws lock_id)
  unfolding unlock
  unlock_other-Locked ws lock_id other =
      let released = release-Locked ws lock_id other in
      search (keeps_rules, Locked-preorder, lock_holder-Locked, released) depth 8

  -- An UNLOCK of this workspace with another ID.
  unlock_mismatch-Locked :
      (lock_id : String) → (row.info.id == lock_id) ≡ false → Keeps Locked (unlock id lock_id)
  unfolding unlock lock_holder scanned_lock release_if_held
  unlock_mismatch-Locked lock_id differs = record {
    at = λ d h. elim (Bool-cases (d.faulty d.statements)) [
      | inl broken ↦ rw broken h
      | inr fine ↦ rw (fine, h, differs) h
    ];
    env = λ d. (unlock-Anything id lock_id).env d;
    time = λ d. (unlock-Anything id lock_id).time d;
  }

  unlock-Locked :
      (ws lock_id : String)
      → ((ws == id) && (row.info.id == lock_id)) ≡ false
      → Keeps Locked (unlock ws lock_id)
  unlock-Locked ws lock_id h = elim (Bool-cases (ws == id)) [
    | inl same ↦
        let differs = sym (ap (λ b. b && (row.info.id == lock_id)) same) ∙ h in
        rw ((eq_iff ws id).0 same) (unlock_mismatch-Locked lock_id differs)
    | inr other ↦ unlock_other-Locked ws lock_id other
  ]

  put_state-Locked : (ws : String) (body : List ℕ) → Keeps Locked (put_state ws body)
  unfolding put_state
  put_state-Locked ws body = search (keeps_rules, Locked-preorder, upsert_state-Locked) depth 8

  delete_state-Locked : (ws : String) → Keeps Locked (delete_state ws)
  unfolding delete_state
  delete_state-Locked ws = search (keeps_rules, Locked-preorder, delete_state_rows-Locked) depth 8

  scanned_state-Locked : (r : Result StateRow) → Keeps Locked (scanned_state r)
  unfolding scanned_state
  scanned_state-Locked (ok r) = search (keeps_rules, Locked-preorder)
  scanned_state-Locked (err (driver no_rows)) = search (keeps_rules, Locked-preorder)
  scanned_state-Locked (err e) = search (keeps_rules, Locked-preorder)

  get_state-Locked : (ws : String) → Keeps Locked (get_state ws)
  unfolding get_state
  get_state-Locked ws = search (keeps_rules, Locked-preorder, scanned_state-Locked) depth 8

  write_body-Locked : (ws : String) (body : Option (List ℕ)) → Keeps Locked (write_body ws body)
  unfolding write_body
  write_body-Locked ws none = search (keeps_rules, Locked-preorder)
  write_body-Locked ws (some body) = search (keeps_rules, Locked-preorder, put_state-Locked) depth 8

  lock_decoded-Locked : (ws : String) (info : Option LockInfo) → Keeps Locked (lock_decoded ws info)
  unfolding lock_decoded
  lock_decoded-Locked ws none = search (keeps_rules, Locked-preorder)
  lock_decoded-Locked ws (some info) = search (keeps_rules, Locked-preorder, lock-Locked) depth 10

  -- An UNLOCK of this workspace that names this lock.
  unfoldable pub releases : Request → Bool
  releases r = r.method == "UNLOCK" && elim r.payload_id [
    | none ↦ false
    | some lock_id ↦ (workspace_id r == id) && (row.info.id == lock_id)
  ]

  unlock_decoded-Locked :
      (ws : String) (payload : Option String)
      → elim payload [ none ↦ false | some lock_id ↦ (ws == id) && (row.info.id == lock_id) ]
        ≡ false
      → Keeps Locked (unlock_decoded ws payload)
  unfolding unlock_decoded
  unlock_decoded-Locked ws none h = search (keeps_rules, Locked-preorder)
  unlock_decoded-Locked ws (some lock_id) h =
      let unlocked = unlock-Locked ws lock_id h in search (keeps_rules, unlocked) depth 8

  handle_read-Locked : (r : Request) → Keeps Locked (handle_read r)
  unfolding handle_read
  handle_read-Locked r = search (keeps_rules, Locked-preorder, get_state-Locked) depth 8

  handle_write-Locked : (r : Request) → Keeps Locked (handle_write r)
  unfolding handle_write
  handle_write-Locked r = write_body-Locked _ _

  handle_delete-Locked : (r : Request) → Keeps Locked (handle_delete r)
  unfolding handle_delete
  handle_delete-Locked r = search (keeps_rules, Locked-preorder, delete_state-Locked) depth 8

  handle_lock-Locked : (r : Request) → Keeps Locked (handle_lock r)
  unfolding handle_lock
  handle_lock-Locked r = lock_decoded-Locked (workspace_id r) r.lock_info

  handle_unlock-Locked :
      (r : Request)
      → (r.method == "UNLOCK") ≡ true
      → releases r ≡ false
      → Keeps Locked (handle_unlock r)
  unfolding handle_unlock releases
  handle_unlock-Locked r unlocks h = unlock_decoded-Locked (workspace_id r) r.payload_id (
      sym (
        ap
          (λ b. b && elim r.payload_id [
            | none ↦ false
            | some lock_id ↦ (workspace_id r == id) && (row.info.id == lock_id)
          ])
          unlocks)
      ∙ h)

  unlock_chosen-Locked :
      (b : Bool) (r : Request)
      → (r.method == "UNLOCK") ≡ b
      → releases r ≡ false
      → Keeps Locked (if b then handle_unlock r else pure (status_only 405))
  unlock_chosen-Locked true r e h = handle_unlock-Locked r e h
  unlock_chosen-Locked false r e h = Keeps-pure Locked-preorder _

  serve_http-Locked : (r : Request) → releases r ≡ false → Keeps Locked (serve_http r)
  unfolding serve_http
  serve_http-Locked r h = Keeps-if Locked-preorder _ _ _ (handle_read-Locked r) (
      Keeps-if Locked-preorder _ _ _ (handle_write-Locked r) (
        Keeps-if Locked-preorder _ _ _ (handle_delete-Locked r) (
          Keeps-if Locked-preorder _ _ _ (handle_lock-Locked r)
            (unlock_chosen-Locked (r.method == "UNLOCK") r refl h))))

  pub serve_all-Locked :
      (rs : List Request) → All (λ r. releases r ≡ false) rs → Keeps Locked (serve_all rs)
  unfolding serve_all
  serve_all-Locked [] h = Keeps-pure Locked-preorder _
  serve_all-Locked (r ∷ rs) (h, hs) =
      Keeps-bind Locked-preorder _ _ (serve_http-Locked r h) (λ u. serve_all-Locked rs hs)
