-- ===== src/Reconcile/Tests.antt =====
-- A small platform for the applier and the status tracker (internal/reconcile).
mod Commands
mod Enricher
mod Status
mod Feedback
mod Teardown
mod Render
use rezuscloud.Prelude.{
  ℕ, suc, ◌≡◌, refl, ◌⊎◌, inl, true, false, none, some, String, List, [], ◌∷◌, ◌==◌,
}
use rezuscloud.Maps.{StringMap, lookup}
use rezuscloud.Effects.{Db, ok}
use rezuscloud.State.Listing.Reading.{reading}
use rezuscloud.State.Json.{Codec}
use rezuscloud.State.Tenants.{empty_spec, empty_status}
use rezuscloud.State.Machines.{empty_machine_spec, empty_machine_status}
use rezuscloud.Tfexec.World.{World, File, Outside}
use rezuscloud.Reconcile.Render.{Provider, Renderer}
use rezuscloud.Reconcile.Applier.{NgSpecJson, Platform}
use rezuscloud.State.Tables.{ResourceEvent, Row}
use rezuscloud.ApplyQueue.{starting, new}

-- A platform with one provider, whose commands all succeed and change nothing else.
abbrev pub small_codec : {A : Type 0} → A → Codec A
small_codec a = record { marshal = λ x. some "{}"; unmarshal = λ text. a }

abbrev pub calm : Outside
calm = record {
  torn = λ text. "";
  tofu_error = λ w tenant args. none;
  upgrade_error = λ w tenant current target. none;
  store_during = λ w e. w.store;
  files_during = λ w e. w.files;
  backend_url = "";
  backend_block = λ address. address;
}

abbrev pub group_spec : NgSpecJson
group_spec = record {
  count = 1;
  role = "worker";
  provider_class = "oci:A1";
  provider_config = "";
  talos_version = "";
}

abbrev pub oci : Provider
oci = record { type = "oci"; render = λ request. ok "{}" }

abbrev pub token_at : ℕ → String
token_at n = "token"

abbrev pub renderer : Renderer
renderer = record {
  torn = λ text. "";
  providers = oci ∷ [];
  common_config = "{}";
  tfvars = λ vars. "{}";
  oci_config = λ text. none;
  bootstrap = ok "machine: {}";
  mgmt_endpoint = "";
  draw = token_at;
  machines_in = λ text. none;
  is_spec = λ text. true;
}

abbrev pub platform : Platform
platform = record {
  outside = calm;
  renderer = renderer;
  tenant_spec = small_codec empty_spec;
  tenant_status = small_codec empty_status;
  machine_spec = small_codec empty_machine_spec;
  machine_status = small_codec empty_machine_status;
  ng_spec = λ text. some group_spec;
  sqlite = reading "rezuscloud.io/tenant";
  upgrades = true;
}

abbrev pub blank : String → String → StringMap → Row
blank ty nm labels = record {
  type = ty;
  name = nm;
  uid = 1;
  version = 1;
  spec = "{}";
  status = "{}";
  finalizers = [];
  labels = labels;
  annotations = [];
  created_at = 1;
  updated_at = 1;
  deletion_timestamp = none;
}

abbrev pub acme : Row
acme = blank "tenant" "acme" []

abbrev pub group_row : Row
group_row = blank "nodegroup" "workers" (("rezuscloud.io/tenant", "acme") ∷ [])

abbrev pub over : List Row → List File → Db World
over rows files = record {
  tables = record {
    store = record {
      resources = rows;
      tenant_secrets = [];
      api_tokens = [];
      bus = false;
      published = [];
    };
    files = files;
    log = [];
  };
  clock = λ n. n;
  readings = 7;
  faulty = λ n. false;
  statements = 0;
}
