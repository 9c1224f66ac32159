-- ===== src/State/WellFormed.antt =====
-- The invariant of the `resources` table under each resource operation of store.go.
mod Statements
pub use Statements.{IsDistinct, IsGoodRow, IsWellFormed, Preserves, Preserves-preorder}
pub use Statements.{
  insert_row-Preserves, update_rows-Preserves, delete_row-Preserves, notify-Preserves,
}
use rezuscloud.Prelude.{
  ℕ, ◌+◌, ◌≤◌, ◌≡◌, refl, Bool, true, Option, none, some, String, List, [], ◌∷◌, arith, eqb, ◌==◌,
  if◌then◌else◌, All, not,
}
use rezuscloud.Maps.{StringMap}
use rezuscloud.Effects.{Result, ok, err, driver, no_rows, Exec, exec, ◌>>=◌}
use rezuscloud.Effects.Keeps.{
  Keeps, Keeps-pure, Keeps-raise, Keeps-query, Keeps-bind, Keeps-context, Keeps-exec, Keeps-if,
  Keeps-modify, keeps_rules,
}
use rezuscloud.State.Types.{Metadata}
use rezuscloud.State.Tables.{Tables, Row, ResourceEvent, key, same, publish}
use rezuscloud.State.Resources.{
  create_resource, get_resource, update_resource, update_status, delete_resource, remove_resource,
  remove_resources_by_tenant, remove_each, announce_removal, scanned, insert_row, update_rows,
  delete_row, update_resource_metadata_and_publish, Value, marshal, is_live, Loaded,
}

Keeps-marshal : (v : Value) → Keeps Preserves (marshal v)
Keeps-marshal none = search (Keeps-raise, Preserves-preorder)
Keeps-marshal (some text) = search (Keeps-pure, Preserves-preorder)

Keeps-publish :
    (event_type mutation ty : String) (md : Metadata) (spec status : Option String)
    → Keeps Preserves (publish event_type mutation ty md spec status)
unfolding publish
Keeps-publish event_type mutation ty md spec status =
    Keeps-modify Preserves-preorder _ (notify-Preserves _)

Keeps-reload :
    (event_type mutation ty nm : String)
    → Keeps Preserves (update_resource_metadata_and_publish event_type mutation ty nm)
unfolding update_resource_metadata_and_publish
Keeps-reload event_type mutation ty nm = search (keeps_rules, Preserves-preorder, Keeps-publish)

Keeps-insert_row :
    (r : Row) → r.version ≡ 1 → r.finalizers ≡ [] → Keeps Preserves (exec (insert_row r))
Keeps-insert_row r first bare =
    Keeps-exec Preserves-preorder _ (insert_row-Preserves r (rw (first, bare) (omega arith, tt)))

-- An UPDATE that leaves key and finalizers alone, and may raise the version.
Keeps-update_rows :
    (ty nm : String) (extra : Row → Bool) (f : Row → Row)
    → ((r : Row) → key (f r) ≡ key r)
    → ((r : Row) → (f r).finalizers ≡ r.finalizers)
    → ((r : Row) → r.version ≤ (f r).version)
    → Keeps Preserves (exec (update_rows ty nm extra f))
Keeps-update_rows ty nm extra f keeps same_finalizers grows = Keeps-exec Preserves-preorder _ (
    update_rows-Preserves ty nm extra f keeps
      (λ r good. (omega (arith, good.0, grows r), rw (same_finalizers r) good.1)))

Keeps-delete_row : (ty nm : String) → Keeps Preserves (exec (delete_row ty nm))
Keeps-delete_row ty nm = Keeps-exec Preserves-preorder _ (delete_row-Preserves ty nm)

ruleset store_rules =
    (keeps_rules, Preserves-preorder, Keeps-publish, Keeps-marshal, Keeps-reload, Keeps-delete_row)

pub create_resource-Preserves :
    (ty nm : String) (spec status : Value) (labels annotations : StringMap)
    → Keeps Preserves (create_resource ty nm spec status labels annotations)
unfolding create_resource
create_resource-Preserves ty nm spec status labels annotations =
    search (store_rules, Keeps-insert_row) depth 12

le-suc : (n : ℕ) → n ≤ n + 1
le-suc n = omega arith

le_same : (n : ℕ) → n ≤ n
le_same n = omega arith

pub update_resource-Preserves :
    (ty nm : String) (v : ℕ) (spec : Value) (labels annotations : StringMap)
    → Keeps Preserves (update_resource ty nm v spec labels annotations)
unfolding update_resource
update_resource-Preserves ty nm v spec labels annotations =
    search (store_rules, Keeps-update_rows, le-suc) depth 12

pub update_status-Preserves :
    (ty nm : String) (status : Value) → Keeps Preserves (update_status ty nm status)
unfolding update_status
update_status-Preserves ty nm status = search (store_rules, Keeps-update_rows, le_same) depth 12

pub delete_resource-Preserves : (ty nm : String) → Keeps Preserves (delete_resource ty nm)
unfolding delete_resource
delete_resource-Preserves ty nm = search (store_rules, Keeps-update_rows, le_same) depth 12

Keeps-scanned : (r : Result Row) → Keeps Preserves (scanned r)
unfolding scanned
Keeps-scanned (ok row) = search store_rules
Keeps-scanned (err (driver no_rows)) = search store_rules
Keeps-scanned (err e) = search store_rules

pub get_resource-Preserves : (ty nm : String) → Keeps Preserves (get_resource ty nm)
unfolding get_resource
get_resource-Preserves ty nm = search (store_rules, Keeps-scanned) depth 8

Keeps-announce_removal :
    (ty : String) (found : Result Loaded) → Keeps Preserves (announce_removal ty found)
unfolding announce_removal
Keeps-announce_removal ty (ok found) = search store_rules depth 8
Keeps-announce_removal ty (err e) = search store_rules

pub remove_resource-Preserves : (ty nm : String) → Keeps Preserves (remove_resource ty nm)
unfolding remove_resource
remove_resource-Preserves ty nm =
    search (store_rules, get_resource-Preserves, Keeps-announce_removal) depth 12

Keeps-remove_each : (pending : List Row) → Keeps Preserves (remove_each pending)
unfolding remove_each
Keeps-remove_each [] = search store_rules
Keeps-remove_each (r ∷ pending) =
    let rest = Keeps-remove_each pending in search store_rules depth 12

pub remove_resources_by_tenant-Preserves :
    (tenant : String) → Keeps Preserves (remove_resources_by_tenant tenant)
unfolding remove_resources_by_tenant
remove_resources_by_tenant-Preserves tenant = search (store_rules, Keeps-remove_each) depth 12
