-- ===== src/State/Tests/Phases.antt =====
-- Phase and status (internal/state/status.go) of one tenant.
use rezuscloud.Prelude.{◌≡◌, ◌≢◌, ◌≤◌, ◌↔◌, true, false, none, String, List, [], ◌∷◌}
use rezuscloud.State.Types.{Metadata, Tenant, TenantStatus, Machine, removing, forming, ready}
use rezuscloud.State.Tenants.{empty_spec, empty_status}
use rezuscloud.State.Machines.{empty_machine_spec, empty_machine_status}
use rezuscloud.State.Phase.{NodeGroupSummary, compute_tenant_phase, compute_tenant_status}
use rezuscloud.State.Phase.Laws.{phase-removing, status_consistent}

abbrev metadata : String → Metadata
metadata nm = record {
  name = nm;
  uid = 1;
  resource_version = 1;
  created_at = 1;
  updated_at = 1;
  deletion_timestamp = none;
  finalizers = [];
  labels = ("rezuscloud.io/role", "controlplane") ∷ [];
  annotations = [];
}

abbrev tenant : Tenant
tenant = record { metadata = metadata "acme"; spec = empty_spec; status = empty_status }

abbrev machine : Machine
machine = record {
  metadata = metadata "m1";
  spec = empty_machine_spec;
  status = record empty_machine_status { ready = true; stage = ready };
}

abbrev groups : List NodeGroupSummary
groups = record { name = "cp"; count = 1 } ∷ []

phase-removing_example :
    (compute_tenant_phase tenant (machine ∷ []) groups ≡ removing)
    ↔ (tenant.metadata.deletion_timestamp ≢ none)
phase-removing_example = phase-removing tenant (machine ∷ []) groups

abbrev status : TenantStatus
status = compute_tenant_status tenant (machine ∷ []) groups

status_consistent_example :
    (status.ready ≡ true
      → (status.available ≡ true) × (status.machines.healthy ≡ status.machines.total))
    × (status.api_ready ≡ status.control_plane_ready)
    × (status.available ≡ true
        → status.ready ≡ false
        → (status.phase ≡ forming) × (status.control_plane_ready ≡ true))
    × (status.machines.healthy ≤ status.machines.total)
    × (status.machines.connected ≤ status.machines.total)
status_consistent_example = status_consistent tenant (machine ∷ []) groups
