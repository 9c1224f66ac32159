-- ===== src/State/Phase/Defs.antt =====
-- The phase and status of a tenant, derived from its machines (internal/state/status.go).
use rezuscloud.Prelude.{
  ℕ, ◌+◌, Bool, true, false, ◌&&◌, ◌||◌, none, some, String, List, [], ◌∷◌, ◌==◌, eqb, ltb,
  if◌then◌else◌, length,
}
use rezuscloud.Maps.{get_text}
use rezuscloud.State.Types.{
  Tenant, TenantPhase, TenantStatus, forming, shrinking, active, removing, Machine, MachineStage,
  ready,
}

pub record NodeGroupSummary : Type 0 where
  pub name : String
  pub count : ℕ

abbrev pub is_ready_stage : MachineStage → Bool
is_ready_stage ready = true
is_ready_stage _ = false

abbrev pub machine_ready : Machine → Bool
machine_ready m = m.status.ready && is_ready_stage m.status.stage

-- The counting loops: `for _, m := range machines { if test(m) { count++ } }`.
unfoldable pub count_machines : (Machine → Bool) → List Machine → ℕ
count_machines test [] = 0
count_machines test (m ∷ machines) =
    let rest = count_machines test machines in if test m then rest + 1 else rest

unfoldable pub expected_machines : List NodeGroupSummary → ℕ
expected_machines [] = 0
expected_machines (ng ∷ node_groups) = ng.count + expected_machines node_groups

unfoldable pub compute_tenant_phase : Tenant → List Machine → List NodeGroupSummary → TenantPhase
unfolding count_machines expected_machines
compute_tenant_phase tenant machines node_groups = elim tenant.metadata.deletion_timestamp [
  | some _ ↦ removing
  | none ↦
      if eqb (length machines) 0
      then forming
      else let ready_count = count_machines machine_ready machines in
        let expected_count = expected_machines node_groups in
        let total_machines = length machines in
        if ltb expected_count total_machines
        then shrinking
        else if ltb total_machines expected_count
        then forming
        else if eqb ready_count total_machines
        then active
        else forming
]

abbrev pub is_active : TenantPhase → Bool
is_active active = true
is_active _ = false

abbrev pub is_forming : TenantPhase → Bool
is_forming forming = true
is_forming _ = false

abbrev pub ready_control_plane : Machine → Bool
ready_control_plane m =
    m.status.ready && (get_text m.metadata.labels "rezuscloud.io/role" == "controlplane")

-- The loop that raises a flag: `if test(m) { flag = true }`.
unfoldable pub any_machine : (Machine → Bool) → List Machine → Bool
any_machine test [] = false
any_machine test (m ∷ machines) =
    let rest = any_machine test machines in if test m then true else rest

unfoldable pub compute_tenant_status : Tenant → List Machine → List NodeGroupSummary → TenantStatus
unfolding compute_tenant_phase count_machines any_machine
compute_tenant_status tenant machines node_groups =
    let phase = compute_tenant_phase tenant machines node_groups in
    let ready_count = count_machines (λ m. m.status.ready) machines in
    let connected_count = count_machines (λ m. m.spec.connected) machines in
    let control_plane_ready = any_machine ready_control_plane machines in
    record {
      phase = phase;
      available = is_active phase || (is_forming phase && control_plane_ready);
      ready = is_active phase;
      api_ready = control_plane_ready && ltb 0 ready_count;
      control_plane_ready = control_plane_ready;
      machines = record {
        total = length machines;
        healthy = ready_count;
        connected = connected_count;
      };
      kubernetes_version = tenant.spec.kubernetes_version;
      talos_version = tenant.spec.talos_version;
      reconciliation = tenant.status.reconciliation;
    }
