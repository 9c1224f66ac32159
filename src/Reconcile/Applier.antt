-- ===== src/Reconcile/Applier.antt =====
-- The applier (Apply, destroy, loadNodeGroups, runUpgradesIfNeeded, observedTalos and
-- sharedVersion in internal/reconcile/applier.go). The upgrade hook is upgrade.Manager.RunUpgrade
-- where it is configured; what it and the tofu commands return is `outside`.
use rezuscloud.Prelude.{
  ℕ, Bool, true, false, ◌&&◌, not, Option, none, some, String, List, [], ◌∷◌, ◌==◌, map,
  if◌then◌else◌,
}
use rezuscloud.Effects.{Exec, pure, attempt, context, gets, ◌>>=◌, ◌>>◌}
use rezuscloud.State.Types.{
  Tenant, TenantSpec, TenantStatus, NodeGroupSpec, Machine, MachineSpec, MachineStatus,
}
use rezuscloud.State.Tables.{Tables}
use rezuscloud.State.Json.{Codec}
use rezuscloud.State.Resources.{Loaded, remove_resources_by_tenant}
use rezuscloud.State.Finalizers.{remove_finalizer}
use rezuscloud.State.Listing.{Sqlite, list_typed_by_tenant}
use rezuscloud.State.Tenants.{get_tenant, remove_tenant_secrets}
use rezuscloud.State.Machines.{list_machines_by_tenant}
use rezuscloud.Tfexec.{workdir, run, finish}
use rezuscloud.Tfexec.World.{World, Outside, upgrade, in_store}
use rezuscloud.Reconcile.Render.{
  Renderer, RenderRequest, render_inputs, render_config, config_references_talos,
  render_common_config, render_tfvars,
}

-- ngSpecJSON.
pub record NgSpecJson : Type 0 where
  pub count : ℕ
  pub role : String
  pub provider_class : String
  pub provider_config : String
  pub talos_version : String

-- The loop of sharedVersion after the first machine.
abbrev pub agrees : String → List String → String
agrees v [] = v
agrees v (mv ∷ mvs) =
    let rest = agrees v mvs in if mv == "" then "" else if mv == v then rest else ""

unfoldable pub shared_version : (Machine → String) → List Machine → String
shared_version pick [] = ""
shared_version pick (m ∷ ms) = if pick m == "" then "" else agrees (pick m) (map pick ms)

unfoldable pub observed_talos : List Machine → String
unfolding shared_version
observed_talos machines = shared_version (λ m. m.status.talos_version) machines

-- The tests of runUpgradesIfNeeded on a tenant's version and the machines.
abbrev pub drifts : String → List Machine → Bool
drifts target machines =
    not (target == "")
    && not (observed_talos machines == "")
    && not (observed_talos machines == target)

-- What the applier is built from. `ng_spec` and the codecs are json.Unmarshal, `sqlite` is
-- SQLite's; `upgrades` says whether an upgrade hook is configured.
pub record Platform : Type 0 where
  pub outside : Outside
  pub renderer : Renderer
  pub tenant_spec : Codec TenantSpec
  pub tenant_status : Codec TenantStatus
  pub machine_spec : Codec MachineSpec
  pub machine_status : Codec MachineStatus
  pub ng_spec : String → Option NgSpecJson
  pub sqlite : Sqlite
  pub upgrades : Bool

abbrev pub named_group : (String → Option NgSpecJson) → Loaded → Option NodeGroupSpec
named_group decode found = elim (decode found.spec) [
  | none ↦ none
  | some s ↦ some (record {
    name = found.metadata.name;
    role = s.role;
    count = s.count;
    provider_class = s.provider_class;
    provider_config = s.provider_config;
    talos_version = s.talos_version;
    config_patches = [];
  })
]

abbrev pub init_args : List String
init_args = "init" ∷ "-input=false" ∷ []

abbrev pub apply_args : List String
apply_args = "apply" ∷ "-auto-approve" ∷ "-input=false" ∷ []

abbrev pub destroy_args : List String
destroy_args = "destroy" ∷ "-auto-approve" ∷ "-input=false" ∷ []

abbrev pub is_deleting : Tenant → Bool
is_deleting t = elim t.metadata.deletion_timestamp [ none ↦ false | some at ↦ true ]

-- What follows a `tofu destroy` that returned nil. The first two errors are only logged.
unfoldable pub clear_tenant : String → Exec Tables Unit
clear_tenant tenant = do
  attempt (remove_resources_by_tenant tenant)
  attempt (remove_tenant_secrets tenant)
  context "remove machines finalizer" (remove_finalizer "tenant" tenant "rezuscloud.io/machines")
  context "remove secrets finalizer" (remove_finalizer "tenant" tenant "rezuscloud.io/secrets")
  pure tt

module _ (p : Platform) where
  unfoldable pub load_node_groups : String → Exec Tables (List NodeGroupSpec)
  load_node_groups tenant = do
    (items, _) ← list_typed_by_tenant p.sqlite "nodegroup" tenant (named_group p.ng_spec)
    pure items

  unfoldable pub run_upgrade : String → String → String → Exec World Unit
  run_upgrade tenant current target = do
    result ← gets (λ w. p.outside.upgrade_error w tenant current target)
    finish p.outside (upgrade tenant current target) result

  -- What follows the list of the machines. No machines: the tenant is forming.
  unfoldable pub upgrade_drifted : String → Tenant → List Machine → Exec World Unit
  unfolding run_upgrade observed_talos
  upgrade_drifted tenant t machines =
      if drifts t.spec.talos_version machines
      then context "upgrade talos"
          (run_upgrade tenant (observed_talos machines) t.spec.talos_version)
      else pure tt

  unfoldable pub upgrade_listed : String → Tenant → Exec World Unit
  unfolding upgrade_drifted
  upgrade_listed tenant t = do
    (machines, _) ←
        context "list machines"
          (in_store (list_machines_by_tenant p.machine_spec p.machine_status p.sqlite tenant []))
    upgrade_drifted tenant t machines

  unfoldable pub run_upgrades_if_needed : String → Tenant → Exec World Unit
  unfolding upgrade_listed
  run_upgrades_if_needed tenant t = if p.upgrades then upgrade_listed tenant t else pure tt

  -- The files that the talos resources need.
  unfoldable pub render_talos : String → Tenant → RenderRequest → Exec World Unit
  render_talos dir t req = do
    talos ← config_references_talos dir
    if talos
        then (context "common config" (render_common_config p.renderer dir)
            >> context "tfvars" (render_tfvars p.renderer dir t req))
        else pure tt

  -- What Apply and destroy do before the first command.
  unfoldable pub prepare : String → Tenant → Exec World Unit
  unfolding render_talos
  prepare tenant t = do
    ngs ← context "load node groups" (in_store (load_node_groups tenant))
    dir ← context "workdir" (workdir p.outside tenant)
    req ← context "render inputs" (render_inputs p.renderer ngs)
    context "render config" (render_config p.renderer dir t ngs req)
    render_talos dir t req

  unfoldable pub destroy_prepared : String → Exec World Unit
  unfolding clear_tenant
  destroy_prepared tenant = do
    context "tofu destroy" (run p.outside tenant destroy_args)
    in_store (clear_tenant tenant)

  unfoldable pub destroy : String → Tenant → Exec World Unit
  unfolding prepare destroy_prepared
  destroy tenant t = do
    prepare tenant t
    context "tofu init" (run p.outside tenant init_args)
    destroy_prepared tenant

  -- What follows where the tenant is not being deleted.
  unfoldable pub converge : String → Tenant → Exec World Unit
  unfolding prepare run_upgrades_if_needed
  converge tenant t = do
    context "pre-apply upgrade" (run_upgrades_if_needed tenant t)
    prepare tenant t
    context "tofu init" (run p.outside tenant init_args)
    context "tofu apply" (run p.outside tenant apply_args)

  abbrev pub reconcile_found : String → Option Tenant → Exec World Unit
  reconcile_found tenant none = pure tt
  reconcile_found tenant (some t) = if is_deleting t then destroy tenant t else converge tenant t

  unfoldable pub apply : String → Exec World Unit
  unfolding destroy converge
  apply tenant =
      context "load tenant" (in_store (get_tenant p.tenant_spec p.tenant_status tenant))
      >>= reconcile_found tenant
