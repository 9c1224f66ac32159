-- ===== src/Converge/Marks.antt =====
-- What the converge engine records of machines (markConverged, setConnected, markDisconnected and
-- resolveMachine in internal/converge/engine.go).
use rezuscloud.Prelude.{
  ℕ, Bool, true, false, ◌&&◌, Option, none, some, String, List, [], ◌∷◌, ◌==◌, if◌then◌else◌,
}
use rezuscloud.Effects.{Result, ok, err, message, Exec, pure, raise, attempt, ◌>>=◌, ◌>>◌}
use rezuscloud.State.Types.{Machine, MachineStage, MachineStatus, configuring, ready}
use rezuscloud.State.Machines.{
  get_machine, list_machines, update_machine_spec, update_machine_status,
  find_machine_by_binding_token,
}
use rezuscloud.Converge.World.{World, Outside, in_store}

-- The stage only leaves `configuring`.
abbrev pub next_stage : MachineStage → MachineStage
next_stage configuring = ready
next_stage s = s

unfoldable pub converged_status : MachineStatus → MachineStatus
converged_status st = record st {
  stage = next_stage st.stage;
  config_current = true;
  maintenance = false;
}

-- The first machine of markDisconnected's loop whose address is the event's.
unfoldable pub first_linked : String → List Machine → Option Machine
first_linked addr [] = none
first_linked addr (m ∷ machines) =
    let rest = first_linked addr machines in
    if m.spec.connected && (m.spec.management_address == addr) then some m else rest

module _ (o : Outside) where
  -- The errors of the machine calls below are only logged.
  unfoldable pub record_converged : String → Result (Option Machine) → Exec World Unit
  unfolding in_store converged_status
  record_converged id (err e) = pure tt
  record_converged id (ok none) = pure tt
  record_converged id (ok (some m)) = do
    attempt (
        in_store
          (update_machine_status o.machine_spec o.machine_status id (converged_status m.status)))
    pure tt

  unfoldable pub mark_converged : String → Exec World Unit
  unfolding record_converged in_store
  mark_converged id = do
    found ← attempt (in_store (get_machine o.machine_spec o.machine_status id))
    record_converged id found

  unfoldable pub record_connected : String → Bool → Result (Option Machine) → Exec World Unit
  unfolding in_store
  record_connected id connected (err e) = pure tt
  record_connected id connected (ok none) = pure tt
  record_connected id connected (ok (some m)) = do
    attempt (
        in_store (
          update_machine_spec o.machine_spec o.machine_status id m.metadata.resource_version
            (record m.spec { connected = connected }) m.metadata.labels m.metadata.annotations))
    pure tt

  unfoldable pub set_connected : String → Bool → Exec World Unit
  unfolding record_connected in_store
  set_connected id connected = do
    found ← attempt (in_store (get_machine o.machine_spec o.machine_status id))
    record_connected id connected found

  unfoldable pub disconnect_first : String → Result (List Machine × ℕ) → Exec World Unit
  unfolding set_connected first_linked
  disconnect_first addr (err e) = pure tt
  disconnect_first addr (ok (machines, _)) = elim (first_linked addr machines) [
    | none ↦ pure tt
    | some m ↦ set_connected m.metadata.name false
  ]

  unfoldable pub mark_disconnected : String → Exec World Unit
  unfolding disconnect_first in_store
  mark_disconnected addr = do
    listed ← attempt (in_store (list_machines o.machine_spec o.machine_status o.sqlite []))
    disconnect_first addr listed

  abbrev pub declared : Option Machine → Exec World Machine
  declared none = raise (message "no machine record declares this binding token")
  declared (some m) = pure m

  unfoldable pub resolve_machine : String → Exec World Machine
  unfolding in_store
  resolve_machine token = do
    found ← in_store (find_machine_by_binding_token o.machine_spec o.machine_status o.sqlite token)
    declared found
