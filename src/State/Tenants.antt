-- ===== src/State/Tenants.antt =====
-- The tenant operations of store.go, and the secrets bundles of tenants.
use rezuscloud.Prelude.{ℕ, Bool, Option, none, some, String, List, [], ◌∷◌, ◌++◌, map, ◌==◌}
use rezuscloud.Maps.{StringMap}
use rezuscloud.Sql.{select_row, delete_where, update_where}
use rezuscloud.Effects.{
  Result, ok, err, driver, no_rows, err_not_found, wrap, Exec, pure, raise, attempt, context, query,
  exec, now, scan, ◌>>=◌, ◌>>◌,
}
use rezuscloud.State.Types.{Tenant, TenantSpec, TenantStatus, no_phase, forming}
use rezuscloud.State.Tables.{Tables, SecretRow}
use rezuscloud.State.Resources.{
  Loaded, create_resource, get_resource, update_resource, update_status, delete_resource,
}
use rezuscloud.State.Finalizers.{add_finalizer}
use rezuscloud.State.Listing.{Sqlite, ListOption, new_list_options, list_resources}
use rezuscloud.State.Json.{Codec}

-- `(*T, nil)`, `(nil, nil)` where the error is exactly ErrNotFound, `(nil, err)` otherwise.
unfoldable pub or_nil : {A : Type 0} → (Loaded → A) → Result Loaded → Exec Tables (Option A)
or_nil build (ok found) = pure (some (build found))
or_nil build (err err_not_found) = pure none
or_nil build (err e) = raise e

-- A value read by a call whose error is ignored: the zero value where it failed.
abbrev pub loaded_or : {A : Type 0} → (Loaded → A) → A → Result Loaded → A
loaded_or decode zero_value (ok found) = decode found
loaded_or decode zero_value (err e) = zero_value

abbrev pub empty_status : TenantStatus
empty_status = record {
  phase = no_phase;
  available = Bool.false;
  ready = Bool.false;
  api_ready = Bool.false;
  control_plane_ready = Bool.false;
  machines = record { total = 0; healthy = 0; connected = 0 };
  kubernetes_version = "";
  talos_version = "";
  reconciliation = none;
}

-- The status of a new tenant.
abbrev pub forming_status : TenantStatus
forming_status = record empty_status { phase = forming }

abbrev pub empty_spec : TenantSpec
empty_spec = record {
  kubernetes_version = "";
  talos_version = "";
  control_plane_endpoint = "";
  pod_network = [];
  service_network = [];
  plugins = none;
  node_groups = [];
  config_patches = [];
}

module _ (spec_codec : Codec TenantSpec) (status_codec : Codec TenantStatus) where
  unfoldable pub build_tenant : Loaded → Tenant
  build_tenant found = record {
    metadata = found.metadata;
    spec = spec_codec.unmarshal found.spec;
    status = status_codec.unmarshal found.status;
  }

  unfoldable pub create_tenant : String → TenantSpec → StringMap → StringMap → Exec Tables Tenant
  create_tenant nm spec labels annotations = do
    md ←
        create_resource "tenant" nm (spec_codec.marshal spec) (status_codec.marshal forming_status)
          labels annotations
    pure (record { metadata = md; spec = spec; status = forming_status })

  unfoldable pub get_tenant : String → Exec Tables (Option Tenant)
  unfolding or_nil build_tenant
  get_tenant nm = do found ← attempt (get_resource "tenant" nm); or_nil build_tenant found

  unfoldable pub list_tenants : Sqlite → List ListOption → Exec Tables (List Tenant × ℕ)
  unfolding new_list_options build_tenant
  list_tenants sqlite opts = do
    (items, total) ← list_resources sqlite "tenant" (new_list_options opts)
    pure (map build_tenant items, total)

  unfoldable pub update_tenant_spec :
      String → ℕ → TenantSpec → StringMap → StringMap → Exec Tables Tenant
  update_tenant_spec nm current_version spec labels annotations = do
    md ← update_resource "tenant" nm current_version (spec_codec.marshal spec) labels annotations
    found ← attempt (get_resource "tenant" nm)
    pure (record {
      metadata = md;
      spec = spec;
      status = loaded_or (λ l. status_codec.unmarshal l.status) empty_status found;
    })

  unfoldable pub update_tenant_status : String → TenantStatus → Exec Tables Tenant
  update_tenant_status nm status = do
    md ← update_status "tenant" nm (status_codec.marshal status)
    found ← attempt (get_resource "tenant" nm)
    pure (record {
      metadata = md;
      spec = loaded_or (λ l. spec_codec.unmarshal l.spec) empty_spec found;
      status = status;
    })

-- The errors of the two AddFinalizer calls are ignored.
unfoldable pub delete_tenant : String → Exec Tables Unit
delete_tenant nm = do
  delete_resource "tenant" nm
  attempt (add_finalizer "tenant" nm "rezuscloud.io/machines")
  attempt (add_finalizer "tenant" nm "rezuscloud.io/secrets")
  pure tt

abbrev pub secret_of : String → SecretRow → Bool
secret_of nm r = nm == r.tenant_name

-- INSERT … ON CONFLICT(tenant_name) DO UPDATE SET bundle, created_at.
unfoldable pub upsert_secret : SecretRow → Tables → Result (Unit {0}) × Tables
upsert_secret row t = (
  ok tt,
  record t {
    tenant_secrets = elim (select_row (secret_of row.tenant_name) t.tenant_secrets) [
      | none ↦ t.tenant_secrets ++ row ∷ []
      | some _ ↦
          update_where (secret_of row.tenant_name)
            (λ r. record r { bundle = row.bundle; created_at = row.created_at }) t.tenant_secrets
    ];
  },
)

unfoldable pub save_tenant_secrets : String → List ℕ → Exec Tables Unit
unfolding now exec upsert_secret
save_tenant_secrets nm bundle = do
  at ← now
  context "save tenant secrets"
      (exec (upsert_secret (record { tenant_name = nm; bundle = bundle; created_at = at })))

unfoldable pub scanned_bundle : Result SecretRow → Exec Tables (Option (List ℕ))
scanned_bundle (ok row) = pure (some row.bundle)
scanned_bundle (err (driver no_rows)) = pure none
scanned_bundle (err e) = raise (wrap "load tenant secrets" e)

unfoldable pub load_tenant_secrets : String → Exec Tables (Option (List ℕ))
unfolding query scanned_bundle
load_tenant_secrets nm = do
  row ← attempt (query (λ t. scan (select_row (secret_of nm) t.tenant_secrets)))
  scanned_bundle row

unfoldable pub remove_tenant_secrets : String → Exec Tables Unit
unfolding exec
remove_tenant_secrets nm = context "remove tenant secrets" (
    exec (λ t. (ok tt, record t { tenant_secrets = delete_where (secret_of nm) t.tenant_secrets })))
