-- ===== src/State/Tests/Deletion.antt =====
-- Deletion and finalizers (internal/state) on small databases.
use rezuscloud.Prelude.{
  ◌≡◌, ◌≢◌, refl, sym, ap, Bool, false, Option, none, some, String, [], ◌∷◌, arith, length, filter,
  if◌then◌else◌,
}
use rezuscloud.Effects.{Db, ok}
use rezuscloud.State.Tables.{Tables, Row, select, same, metadata_of}
use rezuscloud.State.WellFormed.{IsWellFormed}
use rezuscloud.State.Resources.{delete_resource, is_live, remove_resources_by_tenant, belongs_to}
use rezuscloud.State.Cascade.{unless_hit, remove_resources_by_tenant-exact}
use rezuscloud.State.Finalizers.{without}
use rezuscloud.State.Tenants.{delete_tenant}
use rezuscloud.State.Lifecycle.{marked, delete_resource-live}
use rezuscloud.State.Teardown.{IsDeletingWith, remove_from, tenant_teardown}
use rezuscloud.Sql.{select_row}
use rezuscloud.State.Tests.{
  over, with_rows, tenant_row, one_tenant, one_tenant-IsWellFormed, acme-found,
}

-- The same resource, marked as deleted, with two finalizers.
abbrev deleting_row : Row
deleting_row = record tenant_row { deletion_timestamp = some 5; finalizers = "a" ∷ "b" ∷ [] }

abbrev last_row : Row
last_row = record tenant_row { deletion_timestamp = some 5; finalizers = "a" ∷ [] }

abbrev deleting : Db Tables
deleting = over (with_rows (deleting_row ∷ []))

abbrev last : Db Tables
last = over (with_rows (last_row ∷ []))

deleting-found : select "tenant" "acme" deleting.tables ≡ some deleting_row
unfolding select_row
deleting-found = refl

last-found : select "tenant" "acme" last.tables ≡ some last_row
unfolding select_row
last-found = refl

deleting-IsWellFormed : IsWellFormed deleting.tables
unfolding select_row
deleting-IsWellFormed = record {
  unique = (refl, tt);
  rows = ((omega arith, (refl, (refl, tt))), tt);
}

abbrev live_or : Bool → Option Row → Bool
live_or b none = b
live_or b (some r) = is_live r

deleted_only : (r : Row) → select "tenant" "acme" deleting.tables ≡ some r → is_live r ≡ false
unfolding select_row
deleted_only r found = ap (live_or false) (sym found)

one_left : without "a" deleting_row.finalizers ≢ []
one_left = λ e. cc

delete_resource-live_example :
    ((delete_resource "tenant" "acme" one_tenant).0 ≡ ok (metadata_of (marked 7 tenant_row)))
    × ((ty nm : String)
        → select ty nm (delete_resource "tenant" "acme" one_tenant).1.tables ≡ (
            if same ("tenant", "acme") (ty, nm)
            then some (marked 7 tenant_row)
            else select ty nm one_tenant.tables))
delete_resource-live_example =
    delete_resource-live "tenant" "acme" one_tenant (λ n. refl) one_tenant-IsWellFormed tenant_row
      acme-found refl

tenant_teardown_example :
    let d = (delete_tenant "acme" one_tenant).1 in
    IsDeletingWith "tenant" "acme" ("rezuscloud.io/machines" ∷ "rezuscloud.io/secrets" ∷ []) d
    × IsDeletingWith "tenant" "acme"
        ("rezuscloud.io/secrets" ∷ [])
        (remove_from "acme" "rezuscloud.io/machines" d)
    × IsDeletingWith "tenant" "acme"
        ("rezuscloud.io/machines" ∷ [])
        (remove_from "acme" "rezuscloud.io/secrets" d)
    × (select "tenant" "acme"
          (remove_from "acme" "rezuscloud.io/secrets"
            (remove_from "acme" "rezuscloud.io/machines" d)).tables
        ≡ none)
    × (select "tenant" "acme"
          (remove_from "acme" "rezuscloud.io/machines"
            (remove_from "acme" "rezuscloud.io/secrets" d)).tables
        ≡ none)
tenant_teardown_example =
    tenant_teardown "acme" one_tenant (λ n. refl) one_tenant-IsWellFormed tenant_row acme-found refl
      refl

-- A machine of the tenant beside the tenant, and a machine of another.
abbrev machine_of : String → String → Row
machine_of nm tenant = record tenant_row {
  type = "machine";
  name = nm;
  labels = ("rezuscloud.io/tenant", tenant) ∷ [];
}

abbrev crowded : Db Tables
crowded = over (with_rows (machine_of "m1" "acme" ∷ deleting_row ∷ machine_of "m2" "beta" ∷ []))

crowded-IsWellFormed : IsWellFormed crowded.tables
unfolding select_row
crowded-IsWellFormed = record {
  unique = (refl, (refl, (refl, tt)));
  rows = ((omega arith, tt), ((omega arith, (refl, (refl, tt))), ((omega arith, tt), tt)));
}

remove_resources_by_tenant-exact_example :
    let r = remove_resources_by_tenant "acme" crowded in
    (r.0 ≡ ok (length (filter (belongs_to "acme") crowded.tables.resources)))
    × ((ty nm : String)
        → select ty nm r.1.tables ≡ unless_hit (belongs_to "acme") (select ty nm crowded.tables))
    × (r.1.tables.tenant_secrets ≡ crowded.tables.tenant_secrets)
remove_resources_by_tenant-exact_example =
    remove_resources_by_tenant-exact "acme" crowded (λ n. refl) crowded-IsWellFormed
