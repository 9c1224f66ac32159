-- ===== src/State/Resources.antt =====
-- The generic resource operations of store.go: create, get, update, delete and remove.
use rezuscloud.Prelude.{
  ℕ, ◌+◌, Bool, true, false, ◌&&◌, not, Option, none, some, String, List, [], ◌∷◌, ◌++◌, ◌==◌, eqb,
  if◌then◌else◌, filter, length,
}
use rezuscloud.Maps.{StringMap, lookup}
use rezuscloud.Sql.{delete_where, update_where, count_where}
use rezuscloud.Effects.{
  Result, ok, err, driver, no_rows, constraint, marshal_failure, err_not_found, err_conflict, wrap,
  Exec, pure, raise, attempt, context, query, exec, now, scan, ◌>>=◌, ◌>>◌,
}
use rezuscloud.State.Types.{Metadata}
use rezuscloud.State.Tables.{
  Row, Tables, key, same, select, metadata_of, publish, mutation_create, mutation_spec,
  mutation_status, mutation_delete,
}

-- A Go value handed to json.Marshal: its text, or `none` where encoding/json refuses it.
abbrev pub Value : Type 0
Value = Option String

abbrev pub marshal : Value → Exec Tables String
marshal none = raise marshal_failure
marshal (some text) = pure text

-- INSERT INTO resources: refused where UNIQUE(type, name) would break.
unfoldable pub insert_row : Row → Tables → Result (Unit {0}) × Tables
insert_row r t = elim (select r.type r.name t) [
  | some _ ↦ (err (driver constraint), t)
  | none ↦ (ok tt, record t { resources = t.resources ++ r ∷ [] })
]

-- UPDATE resources SET … WHERE type = ? AND name = ? AND …, with the rows affected.
unfoldable pub update_rows :
    String → String → (Row → Bool) → (Row → Row) → Tables → Result ℕ × Tables
update_rows ty nm extra f t =
    let p = λ (r : Row). same (ty, nm) (key r) && extra r in
    (ok (count_where p t.resources), record t { resources = update_where p f t.resources })

unfoldable pub delete_row : String → String → Tables → Result (Unit {0}) × Tables
delete_row ty nm t =
    (ok tt, record t { resources = delete_where (λ r. same (ty, nm) (key r)) t.resources })

unfoldable pub update_resource_metadata_and_publish :
    String → String → String → String → Exec Tables Metadata
unfolding query publish metadata_of
update_resource_metadata_and_publish event_type mutation ty nm = do
  row ← context "reload resource" (query (λ t. scan (select ty nm t)))
  publish event_type mutation ty (metadata_of row) (some row.spec) (some row.status)
  pure (metadata_of row)

unfoldable pub create_resource :
    String → String → Value → Value → StringMap → StringMap → Exec Tables Metadata
unfolding now exec
create_resource ty nm spec status labels annotations = do
  spec_json ← context "marshal spec" (marshal spec)
  status_json ← context "marshal status" (marshal status)
  at ← now
  uid ← now
  context "insert resource" (
      exec (
        insert_row (record {
          type = ty;
          name = nm;
          uid = uid;
          version = 1;
          spec = spec_json;
          status = status_json;
          finalizers = [];
          labels = labels;
          annotations = annotations;
          created_at = at;
          updated_at = at;
          deletion_timestamp = none;
        })))
  update_resource_metadata_and_publish "ADDED" mutation_create ty nm

-- What the SELECT of one resource yields: the metadata and the texts of spec and status.
pub record Loaded : Type 0 where
  pub metadata : Metadata
  pub spec : String
  pub status : String

unfoldable pub scanned : Result Row → Exec Tables Loaded
unfolding metadata_of
scanned (ok row) =
    pure (record { metadata = metadata_of row; spec = row.spec; status = row.status })
scanned (err (driver no_rows)) = raise err_not_found
scanned (err e) = raise (wrap "scan resource" e)

unfoldable pub get_resource : String → String → Exec Tables Loaded
unfolding query scanned
get_resource ty nm = do row ← attempt (query (λ t. scan (select ty nm t))); scanned row

unfoldable pub update_resource :
    String → String → ℕ → Value → StringMap → StringMap → Exec Tables Metadata
unfolding now exec
update_resource ty nm current_version spec labels annotations = do
  spec_json ← context "marshal spec" (marshal spec)
  at ← now
  rows_affected ← context "update resource" (
      exec (
        update_rows ty nm (λ r. eqb r.version current_version)
          (λ r. record r {
            spec = spec_json;
            labels = labels;
            annotations = annotations;
            updated_at = at;
            version = r.version + 1;
          })))
  if eqb rows_affected 0
      then raise err_conflict
      else update_resource_metadata_and_publish "MODIFIED" mutation_spec ty nm

unfoldable pub update_status : String → String → Value → Exec Tables Metadata
unfolding now exec
update_status ty nm status = do
  status_json ← context "marshal status" (marshal status)
  at ← now
  rows_affected ← context "update status" (
      exec
        (update_rows ty nm (λ r. true) (λ r. record r { status = status_json; updated_at = at })))
  if eqb rows_affected 0
      then raise err_not_found
      else update_resource_metadata_and_publish "MODIFIED" mutation_status ty nm

abbrev pub is_live : Row → Bool
is_live r = elim r.deletion_timestamp [ none ↦ true | some _ ↦ false ]

unfoldable pub delete_resource : String → String → Exec Tables Metadata
unfolding now exec
delete_resource ty nm = do
  at ← now
  rows_affected ← context "delete resource" (
      exec (
        update_rows ty nm is_live
          (λ r. record r { deletion_timestamp = some at; updated_at = at })))
  if eqb rows_affected 0
      then raise err_not_found
      else update_resource_metadata_and_publish "DELETED" mutation_delete ty nm

-- The removal is announced only if the snapshot was read.
unfoldable pub announce_removal : String → Result Loaded → Exec Tables Unit
unfolding publish
announce_removal ty (err e) = pure tt
announce_removal ty (ok found) =
    if not (found.metadata.name == "")
    then publish "DELETED" mutation_delete ty found.metadata none none
    else pure tt

unfoldable pub remove_resource : String → String → Exec Tables Unit
unfolding exec announce_removal
remove_resource ty nm = do
  found ← attempt (get_resource ty nm)
  context "remove resource" (exec (delete_row ty nm))
  announce_removal ty found

abbrev pub tenant_label : String
tenant_label = "rezuscloud.io/tenant"

-- json_extract(labels, '$."rezuscloud.io/tenant"') = ? AND type != 'tenant'.
unfoldable pub belongs_to : String → Row → Bool
unfolding lookup
belongs_to tenant r =
    elim (lookup tenant_label r.labels) [ none ↦ false | some v ↦ v == tenant ]
    && not (r.type == "tenant")

unfoldable pub remove_each : List Row → Exec Tables Unit
unfolding exec publish metadata_of
remove_each [] = pure tt
remove_each (r ∷ pending) = do
  context "delete tenant resource" (exec (delete_row r.type r.name))
  publish "DELETED" mutation_delete r.type (metadata_of r) none none
  remove_each pending

unfoldable pub remove_resources_by_tenant : String → Exec Tables ℕ
unfolding query belongs_to
remove_resources_by_tenant tenant = do
  pending ←
      context "list tenant resources" (query (λ t. ok (filter (belongs_to tenant) t.resources)))
  remove_each pending
  pure (length pending)
