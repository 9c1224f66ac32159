-- ===== src/Reconcile/Tests/Commands.antt =====
-- An apply of one tenant (internal/reconcile/applier.go): its commands and the files it touches.
use rezuscloud.Prelude.{◌≡◌, ◌≢◌, ◌↔◌, refl, some, [], ◌∷◌, All}
use rezuscloud.Sql.{select_row}
use rezuscloud.Effects.{Db, ok, query}
use rezuscloud.State.Types.{Tenant, Machine}
use rezuscloud.State.Tables.{metadata_of}
use rezuscloud.State.Resources.{get_resource, scanned}
use rezuscloud.State.Tenants.{get_tenant, or_nil, build_tenant, empty_spec, empty_status}
use rezuscloud.State.Machines.{empty_machine_spec, empty_machine_status}
use rezuscloud.Tfexec.{sanitize_tenant}
use rezuscloud.Tfexec.World.{World, in_store, file_at}
use rezuscloud.Tfexec.Trace.{Traced}
use rezuscloud.Reconcile.Applier.{apply, is_deleting, shared_version}
use rezuscloud.Reconcile.Order.{lookup_tenant, listing, commands, apply-Traced}
use rezuscloud.Reconcile.Guard.{apply-LeavesOthers}
use rezuscloud.Reconcile.Teardown.{Guarded, apply-Guarded, KeepsRows-preorder}
use rezuscloud.Reconcile.Versions.{shared_version-All}
use rezuscloud.Reconcile.Tests.{platform, over, acme, group_row}

abbrev start : Db World
start = over (acme ∷ group_row ∷ []) []

abbrev tenant : Tenant
tenant = record { metadata = metadata_of acme; spec = empty_spec; status = empty_status }

acme-found : (lookup_tenant platform "acme" start).0 ≡ ok (some tenant)
unfolding in_store get_tenant get_resource query scanned or_nil build_tenant select_row metadata_of
acme-found = refl

apply-Traced_example :
    Traced
      (commands platform "acme"
        (is_deleting tenant)
        tenant
        (listing platform "acme" (lookup_tenant platform "acme" start).1).0)
      start.tables
      (apply platform "acme" start).0
      (apply platform "acme" start).1.tables
apply-Traced_example = apply-Traced platform "acme" start tenant acme-found

apart : sanitize_tenant "acme" ≢ sanitize_tenant "other"
unfolding sanitize_tenant
apart e = cc

apply-LeavesOthers_example :
    file_at (sanitize_tenant "other") "oci.tf.json" (apply platform "acme" start).1.tables.files
    ≡ file_at (sanitize_tenant "other") "oci.tf.json" start.tables.files
apply-LeavesOthers_example =
    apply-LeavesOthers platform "acme" (λ w e dir name h. refl) start "other" "oci.tf.json" apart

apply-Guarded_example : Guarded "acme" start.tables (apply platform "acme" start).1.tables
apply-Guarded_example = apply-Guarded platform "acme" (λ w e. KeepsRows-preorder.same w.store) start

abbrev machine : Machine
machine = record {
  metadata = metadata_of acme;
  spec = empty_machine_spec;
  status = record empty_machine_status { talos_version = "v1.8.0" };
}

shared_version-All_example :
    (shared_version (λ m. m.status.talos_version) (machine ∷ machine ∷ []) ≡ "v1.8.0") ↔ (
      (machine ∷ machine ∷ [] ≢ [])
      × All (λ m. m.status.talos_version ≡ "v1.8.0") (machine ∷ machine ∷ []))
shared_version-All_example =
    shared_version-All (λ m. m.status.talos_version) "v1.8.0" refl (machine ∷ machine ∷ [])
