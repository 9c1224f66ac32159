-- ===== src/State/Phase/Laws.antt =====
-- When a tenant has which phase, and what its status then says (internal/state/status.go).
use rezuscloud.Prelude.{
  ◌<◌, ◌≤◌, ◌≡◌, ◌≢◌, ◌↔◌, refl, inl, inr, Bool, true, false, none, List, [], ◌∷◌, arith, All,
  length, Bool-cases,
}
use rezuscloud.State.Types.{
  Tenant, TenantPhase, TenantStatus, active, forming, shrinking, removing, Machine,
}
use rezuscloud.State.Phase.Defs.{
  NodeGroupSummary, compute_tenant_phase, compute_tenant_status, count_machines, expected_machines,
  any_machine, machine_ready, ready_control_plane, is_active,
}

abbrev pub AllReady : List Machine → Type 0
AllReady machines = All (λ m. machine_ready m ≡ true) machines

count_machines_le : (test : Machine → Bool) (ms : List Machine) → count_machines test ms ≤ length ms
unfolding count_machines
count_machines_le test [] = omega arith
count_machines_le test (m ∷ ms) = ground (arith, count_machines_le test ms)

All-counted :
    (test : Machine → Bool) (ms : List Machine)
    → count_machines test ms ≡ length ms
    → All (λ m. test m ≡ true) ms
unfolding count_machines
All-counted test [] h = tt
All-counted test (m ∷ ms) h = elim (Bool-cases (test m)) [
  | inl e ↦ (e, All-counted test ms (ground arith))
  | inr e ↦ absurd (ground (arith, count_machines_le test ms))
]

counted-All :
    (test : Machine → Bool) (ms : List Machine)
    → All (λ m. test m ≡ true) ms
    → count_machines test ms ≡ length ms
unfolding count_machines
counted-All test [] h = refl
counted-All test (m ∷ ms) h = rw h.0 (omega (arith, counted-All test ms h.1))

module _ (tenant : Tenant) (machines : List Machine) (node_groups : List NodeGroupSummary) where
  abbrev phase : TenantPhase
  phase = compute_tenant_phase tenant machines node_groups

  -- A tenant is active exactly when it is not being deleted, has at least one machine, has as many
  -- as its node groups ask for, and every one is ready and in the stage "ready".
  pub phase-active : (compute_tenant_phase tenant machines node_groups ≡ active) ↔ (
      (tenant.metadata.deletion_timestamp ≡ none)
      × (0 < length machines)
      × (length machines ≡ expected_machines node_groups)
      × AllReady machines)
  unfolding compute_tenant_phase
  phase-active = (
    λ h. (
      ground arith,
      ground arith,
      ground arith,
      All-counted machine_ready machines (ground arith),
    ),
    λ h. ground (arith, counted-All machine_ready machines h.3),
  )

  -- A tenant is shrinking exactly when it is not being deleted and has more machines than its node
  -- groups ask for.
  pub phase-shrinking : (compute_tenant_phase tenant machines node_groups ≡ shrinking) ↔ (
      (tenant.metadata.deletion_timestamp ≡ none)
      × (expected_machines node_groups < length machines))
  unfolding compute_tenant_phase
  phase-shrinking = (λ h. ground arith, λ h. ground arith)

  -- A tenant is in the phase removing exactly when it is being deleted.
  pub phase-removing :
      (compute_tenant_phase tenant machines node_groups ≡ removing)
      ↔ (tenant.metadata.deletion_timestamp ≢ none)
  unfolding compute_tenant_phase
  phase-removing = (λ h. ground arith, λ h. ground arith)

active_of_is_active : (p : TenantPhase) → is_active p ≡ true → p ≡ active
active_of_is_active p h = ground arith

ready_counted :
    (ms : List Machine) → AllReady ms → count_machines (λ m. m.status.ready) ms ≡ length ms
unfolding count_machines
ready_counted [] h = refl
ready_counted (m ∷ ms) h = ground (arith, ready_counted ms h.1)

-- A ready control plane is a ready machine.
control_plane_counted :
    (ms : List Machine)
    → any_machine ready_control_plane ms ≡ true
    → 0 < count_machines (λ m. m.status.ready) ms
unfolding any_machine count_machines
control_plane_counted [] h = absurd (ground arith)
control_plane_counted (m ∷ ms) h = ground (arith, control_plane_counted ms)

module _ (tenant : Tenant) (machines : List Machine) (node_groups : List NodeGroupSummary) where
  abbrev pub status : TenantStatus
  status = compute_tenant_status tenant machines node_groups

  -- The parts of a status agree: a ready tenant is available and all its machines are healthy; the
  -- API is ready exactly when a control-plane machine is, the count of ready machines adding
  -- nothing; an available tenant that is not ready is forming with a ready control plane; and no
  -- count exceeds the total.
  pub status_consistent :
      (status.ready ≡ true
        → (status.available ≡ true) × (status.machines.healthy ≡ status.machines.total))
      × (status.api_ready ≡ status.control_plane_ready)
      × (status.available ≡ true
          → status.ready ≡ false
          → (status.phase ≡ forming) × (status.control_plane_ready ≡ true))
      × (status.machines.healthy ≤ status.machines.total)
      × (status.machines.connected ≤ status.machines.total)
  unfolding compute_tenant_status
  status_consistent = (
    λ h. (
      ground arith,
      ready_counted machines
          ((phase-active tenant machines node_groups).0 (active_of_is_active _ h)).3,
    ),
    ground (arith, control_plane_counted machines),
    ground arith,
    count_machines_le (λ m. m.status.ready) machines,
    count_machines_le (λ m. m.spec.connected) machines,
  )
