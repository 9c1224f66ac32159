-- ===== src/State/Machines.antt =====
-- The machine operations of store.go.
use Prim.Native.String.{◌++◌ as concat}
use rezuscloud.Prelude.{
  ℕ, false, Option, none, some, String, List, [], ◌∷◌, ◌++◌, map, ◌==◌, if◌then◌else◌,
}
use rezuscloud.Maps.{StringMap}
use rezuscloud.Effects.{Exec, pure, attempt, ◌>>=◌, ◌>>◌}
use rezuscloud.State.Types.{Machine, MachineSpec, MachineStatus, no_stage, initializing}
use rezuscloud.State.Tables.{Tables}
use rezuscloud.State.Resources.{
  Loaded, create_resource, get_resource, update_resource, update_status, delete_resource,
}
use rezuscloud.State.Finalizers.{add_finalizer}
use rezuscloud.State.Listing.{
  Sqlite, ListOption, new_list_options, list_resources, with_label_selector,
}
use rezuscloud.State.Json.{Codec}
use rezuscloud.State.Tenants.{or_nil, loaded_or}

abbrev pub empty_machine_status : MachineStatus
empty_machine_status = record {
  stage = no_stage;
  ready = false;
  role = "";
  talos_version = "";
  k8s_version = "";
  config_current = false;
  maintenance = false;
  hardware = none;
  network = none;
  schematic = none;
  last_error = "";
}

-- The status of a new machine.
abbrev pub initializing_status : MachineStatus
initializing_status = record empty_machine_status { stage = initializing }

abbrev pub empty_machine_spec : MachineSpec
empty_machine_spec = record { management_address = ""; connected = false; binding_token = "" }

-- The first machine of a list that carries the token.
unfoldable pub first_with_token : String → List Machine → Option Machine
first_with_token token [] = none
first_with_token token (m ∷ machines) =
    let rest = first_with_token token machines in
    if m.spec.binding_token == token then some m else rest

module _ (spec_codec : Codec MachineSpec) (status_codec : Codec MachineStatus) where
  unfoldable pub build_machine : Loaded → Machine
  build_machine found = record {
    metadata = found.metadata;
    spec = spec_codec.unmarshal found.spec;
    status = status_codec.unmarshal found.status;
  }

  unfoldable pub create_machine : String → MachineSpec → StringMap → StringMap → Exec Tables Machine
  create_machine id spec labels annotations = do
    md ←
        create_resource "machine" id (spec_codec.marshal spec)
          (status_codec.marshal initializing_status) labels annotations
    pure (record { metadata = md; spec = spec; status = initializing_status })

  unfoldable pub get_machine : String → Exec Tables (Option Machine)
  unfolding or_nil build_machine
  get_machine id = do found ← attempt (get_resource "machine" id); or_nil build_machine found

  unfoldable pub update_machine_spec :
      String → ℕ → MachineSpec → StringMap → StringMap → Exec Tables Machine
  update_machine_spec id current_version spec labels annotations = do
    md ← update_resource "machine" id current_version (spec_codec.marshal spec) labels annotations
    found ← attempt (get_resource "machine" id)
    pure (record {
      metadata = md;
      spec = spec;
      status = loaded_or (λ l. status_codec.unmarshal l.status) empty_machine_status found;
    })

  unfoldable pub update_machine_status : String → MachineStatus → Exec Tables Machine
  update_machine_status id status = do
    md ← update_status "machine" id (status_codec.marshal status)
    found ← attempt (get_resource "machine" id)
    pure (record {
      metadata = md;
      spec = loaded_or (λ l. spec_codec.unmarshal l.spec) empty_machine_spec found;
      status = status;
    })

  module _ (sqlite : Sqlite) where
    unfoldable pub list_machines : List ListOption → Exec Tables (List Machine × ℕ)
    unfolding new_list_options build_machine
    list_machines opts = do
      (items, total) ← list_resources sqlite "machine" (new_list_options opts)
      pure (map build_machine items, total)

    unfoldable pub list_machines_by_tenant :
        String → List ListOption → Exec Tables (List Machine × ℕ)
    unfolding with_label_selector
    list_machines_by_tenant tenant opts =
        list_machines (opts ++ with_label_selector (concat "rezuscloud.io/tenant=" tenant) ∷ [])

    unfoldable pub find_machine_by_binding_token : String → Exec Tables (Option Machine)
    unfolding first_with_token
    find_machine_by_binding_token token =
        if token == ""
        then pure none
        else do (machines, _) ← list_machines []; pure (first_with_token token machines)

unfoldable pub delete_machine : String → Exec Tables Unit
delete_machine id = do
  delete_resource "machine" id
  attempt (add_finalizer "machine" id "rezuscloud.io/config")
  attempt (add_finalizer "machine" id "rezuscloud.io/link")
  pure tt
