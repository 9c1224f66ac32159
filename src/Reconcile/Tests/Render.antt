-- ===== src/Reconcile/Tests/Render.antt =====
-- A render over a stale configuration (renderConfig in internal/reconcile/applier.go).
use rezuscloud.Prelude.{◌≡◌, refl, none, List, [], ◌∷◌, if◌then◌else◌}
use rezuscloud.Sql.{select_row, delete_where}
use rezuscloud.Effects.{Db, ok, query, exec}
use rezuscloud.State.Types.{NodeGroupSpec, Tenant}
use rezuscloud.State.Tables.{metadata_of}
use rezuscloud.State.Tenants.{empty_spec, empty_status}
use rezuscloud.State.Listing.Names.{text_leb, sort_by, insert_by}
use rezuscloud.Tfexec.World.{World, write_file, remove_file, read_dir, set_file}
use rezuscloud.Reconcile.Keys.{filter_by_provider, provider_type_of}
use rezuscloud.Reconcile.Render.{
  RenderRequest, has_suffix, is_provider_config, remove_each, clean_provider_configs,
  render_provider, render_each, render_config,
}
use rezuscloud.Reconcile.Rendered.{text_at, configs, or_else, render_config-exact}
use rezuscloud.Reconcile.Tests.{renderer, over, acme}

abbrev stale : Db World
stale = over [] (
    record { dir = "acme"; name = "metal.tf.json"; text = "old" }
    ∷ record { dir = "acme"; name = "backend.tf.json"; text = "backend" }
    ∷ [])

abbrev groups : List NodeGroupSpec
groups =
    record {
      name = "workers";
      role = "";
      count = 1;
      provider_class = "oci:A1";
      provider_config = "";
      talos_version = "";
      config_patches = [];
    }
    ∷ []

abbrev tenant : Tenant
tenant = record { metadata = metadata_of acme; spec = empty_spec; status = empty_status }

abbrev request : RenderRequest
request = record {
  tenant = none;
  node_groups = [];
  bootstrap_config = "";
  binding_tokens = [];
  mgmt_endpoint = "";
}

rendered : (render_config renderer "acme" tenant groups request stale).0 ≡ ok tt
unfolding render_config clean_provider_configs remove_each is_provider_config has_suffix read_dir
    query exec sort_by insert_by text_leb remove_file delete_where render_each render_provider
    filter_by_provider provider_type_of write_file set_file select_row
rendered = refl

render_config-exact_example :
    text_at "acme" "metal.tf.json"
      (render_config renderer "acme" tenant groups request stale).1.tables.files
    ≡ or_else renderer "acme" tenant groups request
        (configs renderer "acme" tenant groups request "metal.tf.json")
        (if is_provider_config "metal.tf.json"
          then none
          else text_at "acme" "metal.tf.json" stale.tables.files)
render_config-exact_example =
    render_config-exact renderer "acme" tenant groups request stale (λ n. refl) rendered
      "metal.tf.json"
