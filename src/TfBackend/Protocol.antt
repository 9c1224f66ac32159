-- ===== src/TfBackend/Protocol.antt =====
-- The state protocol (internal/tfbackend): what a POST, a GET and a DELETE see of one another.
use rezuscloud.Prelude.{
  ℕ, ◌≤◌, ◌≡◌, refl, ◌∙◌, inl, inr, false, Option, none, some, String, List, [], ◌∷◌, arith, ◌==◌,
  eq_iff, le→leb, length, if◌then◌else◌, Bool-cases, Option-cases,
}
use rezuscloud.Sql.{select_row, update_where}
use rezuscloud.Sql.Keyed.{lookup-append_free, lookup-delete_where}
use rezuscloud.Effects.{Db, ok, exec, query, now}
use rezuscloud.TfBackend.Store.{
  TfTables, StateRow, state_key, select_state, upsert_state, put_state, delete_state_rows,
  delete_state, get_state, scanned_state,
}
use rezuscloud.TfBackend.Handler.{
  Request, status_only, max_state_bytes, workspace_id, answer_read, serve_http, handle_read,
  handle_write, handle_delete, read_limited, write_body,
}

abbrev state_of : Option StateRow → Option (List ℕ)
state_of none = none
state_of (some r) = some r.state

-- What a reader of the workspace gets.
abbrev stored : String → TfTables → Option (List ℕ)
stored id t = state_of (select_state id t)

abbrev pub Healthy : Db TfTables → Type 0
Healthy d = (n : ℕ) → d.faulty n ≡ false

abbrev replaced : StateRow → Option StateRow → Option (List ℕ)
replaced row none = none
replaced row (some _) = some row.state

-- A row with the key of the written one is there, and it takes the new state.
update-stored :
    (row : StateRow) (ws : String) (t : List StateRow)
    → state_of (
        select_row
          (λ r. ws == state_key r)
          (update_where
            (λ r. row.id == state_key r)
            (λ r. record r { state = row.state; updated_at = row.updated_at })
            t))
      ≡ (if row.id == ws
          then replaced row (select_row (λ r. row.id == state_key r) t)
          else state_of (select_row (λ r. ws == state_key r) t))
unfolding select_row update_where
update-stored row ws [] = ground arith
update-stored row ws (a ∷ t) =
    ground (arith, update-stored row ws t, eq_iff row.id ws, eq_iff row.id a.id, eq_iff ws a.id)

upsert-stored :
    (row : StateRow) (ws : String) (t : TfTables)
    → stored ws (upsert_state row t).1 ≡ (if row.id == ws then some row.state else stored ws t)
unfolding upsert_state
upsert-stored row ws t = elim (Option-cases (select_state row.id t)) [
  | inl free ↦
      rw (upsert_state, free, lookup-append_free state_key ◌==◌ eq_iff ws t.states row free)
        (ground arith)
  | inr (old, found) ↦ rw (upsert_state, found, update-stored row ws t.states, found) refl
]

delete-stored :
    (id ws : String) (t : TfTables)
    → stored ws (delete_state_rows id t).1 ≡ (if id == ws then none else stored ws t)
unfolding delete_state_rows
delete-stored id ws t = elim (Bool-cases (id == ws)) [
  | inl same ↦ rw (lookup-delete_where state_key ◌==◌ eq_iff id ws t.states, same) refl
  | inr other ↦ rw (lookup-delete_where state_key ◌==◌ eq_iff id ws t.states, other) refl
]

get_state-stored :
    (id : String) (d : Db TfTables) → Healthy d → (get_state id d).0 ≡ ok (stored id d.tables)
unfolding get_state query scanned_state
get_state-stored id d fine = elim (Option-cases (select_state id d.tables)) [
  | inl e ↦ rw (fine, e) refl
  | inr (r, e) ↦ rw (fine, e) refl
]

get-answer :
    (r : Request) (d : Db TfTables)
    → Healthy d
    → r.method ≡ "GET"
    → (serve_http r d).0 ≡ ok (answer_read (ok (stored (workspace_id r) d.tables)))
unfolding serve_http handle_read
get-answer r d fine e = rw (e, get_state-stored (workspace_id r) d fine) refl

post-effect :
    (r : Request) (body : List ℕ) (d : Db TfTables)
    → Healthy d
    → r.method ≡ "POST"
    → r.body ≡ some body
    → length body ≤ max_state_bytes
    → ((serve_http r d).0 ≡ ok (status_only 200))
      × ((ws : String)
          → stored ws (serve_http r d).1.tables
            ≡ (if workspace_id r == ws then some body else stored ws d.tables))
unfolding serve_http handle_write read_limited write_body put_state exec now upsert_state
post-effect r body d fine e b small = (
  rw (e, b, le→leb _ _ small, fine, upsert_state) refl,
  λ ws.
      rw (e, b, le→leb _ _ small, fine)
        (upsert-stored (record { id = workspace_id r; state = body; updated_at = _ }) ws d.tables),
)

delete-effect :
    (r : Request) (d : Db TfTables)
    → Healthy d
    → r.method ≡ "DELETE"
    → (ws : String)
    → stored ws (serve_http r d).1.tables
      ≡ (if workspace_id r == ws then none else stored ws d.tables)
unfolding serve_http handle_delete delete_state exec delete_state_rows
delete-effect r d fine e ws = rw (e, fine) (delete-stored (workspace_id r) ws d.tables)

post-Healthy :
    (r : Request) (body : List ℕ) (d : Db TfTables)
    → Healthy d
    → r.method ≡ "POST"
    → r.body ≡ some body
    → length body ≤ max_state_bytes
    → Healthy (serve_http r d).1
unfolding serve_http handle_write read_limited write_body put_state exec now
post-Healthy r body d fine e b small n = rw (e, b, le→leb _ _ small, fine) (fine n)

delete-Healthy :
    (r : Request) (d : Db TfTables) → Healthy d → r.method ≡ "DELETE" → Healthy (serve_http r d).1
unfolding serve_http handle_delete delete_state exec delete_state_rows
delete-Healthy r d fine e n = rw (e, fine) (fine n)

-- After a POST of at most 16 MiB, which is answered with 200, a GET of the same workspace is
-- answered with 200 and the posted bytes, and a GET of another workspace as before the POST; no
-- statement fails.
pub post_then_get :
    (w g : Request) (body : List ℕ) (d : Db TfTables)
    → Healthy d
    → w.method ≡ "POST"
    → g.method ≡ "GET"
    → w.body ≡ some body
    → length body ≤ max_state_bytes
    → ((serve_http w d).0 ≡ ok (status_only 200))
      × ((serve_http g (serve_http w d).1).0 ≡ (
          if workspace_id w == workspace_id g
          then ok (record { status = 200; state = some body; holder = none })
          else (serve_http g d).0))
unfolding answer_read
post_then_get w g body d fine post get b small =
    let effect = post-effect w body d fine post b small in
    (
      effect.0,
      get-answer g _ (post-Healthy w body d fine post b small) get
          ∙ rw (effect.1 (workspace_id g), get-answer g d fine get)
              (elim (Bool-cases (workspace_id w == workspace_id g)) [
                | inl same ↦ rw same refl
                | inr other ↦ rw other refl
              ]),
    )

-- After a DELETE a GET of the same workspace is answered with 404, and a GET of another workspace
-- as before the DELETE; no statement fails.
pub delete_then_get :
    (w g : Request) (d : Db TfTables)
    → Healthy d
    → w.method ≡ "DELETE"
    → g.method ≡ "GET"
    → (serve_http g (serve_http w d).1).0
      ≡ (if workspace_id w == workspace_id g then ok (status_only 404) else (serve_http g d).0)
unfolding answer_read
delete_then_get w g d fine deleted get =
    get-answer g _ (delete-Healthy w d fine deleted) get
    ∙ rw (delete-effect w d fine deleted (workspace_id g), get-answer g d fine get)
        (elim (Bool-cases (workspace_id w == workspace_id g)) [
          | inl same ↦ rw same refl
          | inr other ↦ rw other refl
        ])
