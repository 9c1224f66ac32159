-- ===== src/State/Operations.antt =====
-- Every operation of the state store that changes a table (the interface StoreAPI of
-- internal/state/interface.go), as a request, and the runs of any number of them.
mod Accounts
use rezuscloud.Prelude.{ℕ, Option, String, List, [], ◌∷◌}
use rezuscloud.Maps.{StringMap}
use rezuscloud.Effects.{Db, Exec, pure, ◌>>=◌, ◌>>◌}
use rezuscloud.Effects.Keeps.{Keeps, Keeps-pure, Keeps-bind, Keeps-attempt, keeps_rules}
use rezuscloud.State.Types.{
  TenantSpec, TenantStatus, MachineSpec, MachineStatus, ProviderSpec, ProviderStatus, UserSpec,
  UserStatus,
}
use rezuscloud.State.Tables.{Tables}
use rezuscloud.State.Json.{Codec}
use rezuscloud.State.Resources.{
  Value, create_resource, update_resource, update_status, delete_resource, remove_resource,
  remove_resources_by_tenant,
}
use rezuscloud.State.Finalizers.{add_finalizer, remove_finalizer}
use rezuscloud.State.Finalizers.Invariant.{add_finalizer-Preserves, remove_finalizer-Preserves}
use rezuscloud.State.Tenants.{
  create_tenant, update_tenant_spec, update_tenant_status, delete_tenant, save_tenant_secrets,
  remove_tenant_secrets, loaded_or,
}
use rezuscloud.State.Machines.{
  create_machine, update_machine_spec, update_machine_status, delete_machine,
}
use rezuscloud.State.Accounts.{
  upsert_provider, create_user, update_user, delete_user, update_user_last_login, create_api_token,
  touch_api_token, delete_api_token,
}
use rezuscloud.State.WellFormed.{
  IsWellFormed, Preserves, Preserves-preorder, create_resource-Preserves, update_resource-Preserves,
  update_status-Preserves, delete_resource-Preserves, get_resource-Preserves,
  remove_resource-Preserves, remove_resources_by_tenant-Preserves,
}
use Accounts.{
  save_tenant_secrets-Preserves, remove_tenant_secrets-Preserves, create_api_token-Preserves,
  touch_api_token-Preserves, delete_api_token-Preserves, update_user_last_login-Preserves,
  upsert_provider-Preserves,
}

-- encoding/json at the types of the store, and SQLite's json_set on the status of a user.
pub record Codecs : Type 0 where
  pub tenant_spec : Codec TenantSpec
  pub tenant_status : Codec TenantStatus
  pub machine_spec : Codec MachineSpec
  pub machine_status : Codec MachineStatus
  pub provider_spec : Codec ProviderSpec
  pub provider_status : Codec ProviderStatus
  pub user_spec : Codec UserSpec
  pub user_status : Codec UserStatus

pub data Request : Type 0 where
  create_resource_request : String → String → Value → Value → StringMap → StringMap → Request
  update_resource_request : String → String → ℕ → Value → StringMap → StringMap → Request
  update_status_request : String → String → Value → Request
  delete_resource_request : String → String → Request
  remove_resource_request : String → String → Request
  remove_by_tenant_request : String → Request
  add_finalizer_request : String → String → String → Request
  remove_finalizer_request : String → String → String → Request
  create_tenant_request : String → TenantSpec → StringMap → StringMap → Request
  update_tenant_spec_request : String → ℕ → TenantSpec → StringMap → StringMap → Request
  update_tenant_status_request : String → TenantStatus → Request
  delete_tenant_request : String → Request
  save_secrets_request : String → List ℕ → Request
  remove_secrets_request : String → Request
  create_machine_request : String → MachineSpec → StringMap → StringMap → Request
  update_machine_spec_request : String → ℕ → MachineSpec → StringMap → StringMap → Request
  update_machine_status_request : String → MachineStatus → Request
  delete_machine_request : String → Request
  upsert_provider_request : String → ProviderSpec → ProviderStatus → StringMap → Request
  create_user_request : String → UserSpec → Request
  update_user_request : String → ℕ → UserSpec → Request
  delete_user_request : String → Request
  last_login_request : String → Request
  create_token_request : String → String → String → Option ℕ → Request
  touch_token_request : String → Request
  delete_token_request : String → Request

module _ (c : Codecs) (set_last_login : String → ℕ → String) where
  unfoldable pub perform : Request → Exec Tables Unit
  perform (create_resource_request ty nm spec status labels annotations) =
      create_resource ty nm spec status labels annotations >> pure tt
  perform (update_resource_request ty nm v spec labels annotations) =
      update_resource ty nm v spec labels annotations >> pure tt
  perform (update_status_request ty nm status) = update_status ty nm status >> pure tt
  perform (delete_resource_request ty nm) = delete_resource ty nm >> pure tt
  perform (remove_resource_request ty nm) = remove_resource ty nm
  perform (remove_by_tenant_request tenant) = remove_resources_by_tenant tenant >> pure tt
  perform (add_finalizer_request ty nm f) = add_finalizer ty nm f
  perform (remove_finalizer_request ty nm f) = remove_finalizer ty nm f >> pure tt
  perform (create_tenant_request nm spec labels annotations) =
      create_tenant c.tenant_spec c.tenant_status nm spec labels annotations >> pure tt
  perform (update_tenant_spec_request nm v spec labels annotations) =
      update_tenant_spec c.tenant_spec c.tenant_status nm v spec labels annotations >> pure tt
  perform (update_tenant_status_request nm status) =
      update_tenant_status c.tenant_spec c.tenant_status nm status >> pure tt
  perform (delete_tenant_request nm) = delete_tenant nm
  perform (save_secrets_request nm bundle) = save_tenant_secrets nm bundle
  perform (remove_secrets_request nm) = remove_tenant_secrets nm
  perform (create_machine_request id spec labels annotations) =
      create_machine c.machine_spec c.machine_status id spec labels annotations >> pure tt
  perform (update_machine_spec_request id v spec labels annotations) =
      update_machine_spec c.machine_spec c.machine_status id v spec labels annotations >> pure tt
  perform (update_machine_status_request id status) =
      update_machine_status c.machine_spec c.machine_status id status >> pure tt
  perform (delete_machine_request id) = delete_machine id
  perform (upsert_provider_request ty spec status labels) =
      upsert_provider c.provider_spec c.provider_status ty spec status labels >> pure tt
  perform (create_user_request nm spec) = create_user c.user_spec c.user_status nm spec >> pure tt
  perform (update_user_request nm v spec) =
      update_user c.user_spec c.user_status nm v spec >> pure tt
  perform (delete_user_request nm) = delete_user nm
  perform (last_login_request nm) = update_user_last_login set_last_login nm
  perform (create_token_request id user_name token_hash expires_at) =
      create_api_token id user_name token_hash expires_at >> pure tt
  perform (touch_token_request id) = touch_api_token id
  perform (delete_token_request id) = delete_api_token id

  ruleset operations = (
    keeps_rules, Preserves-preorder, create_resource-Preserves, update_resource-Preserves,
    update_status-Preserves, delete_resource-Preserves, get_resource-Preserves,
    remove_resource-Preserves, remove_resources_by_tenant-Preserves, add_finalizer-Preserves,
    remove_finalizer-Preserves, save_tenant_secrets-Preserves, remove_tenant_secrets-Preserves,
    create_api_token-Preserves, touch_api_token-Preserves, delete_api_token-Preserves,
    update_user_last_login-Preserves, upsert_provider-Preserves,
  )

  perform-Preserves : (r : Request) → Keeps Preserves (perform r)
  unfolding perform create_tenant update_tenant_spec update_tenant_status delete_tenant
      create_machine update_machine_spec update_machine_status delete_machine create_user
      update_user delete_user
  perform-Preserves (remove_resource_request ty nm) = remove_resource-Preserves ty nm
  perform-Preserves _ = search operations depth 12

  -- Every request is served, whatever the earlier ones returned.
  unfoldable pub run : List Request → Db Tables → Db Tables
  run [] d = d
  run (r ∷ requests) d = run requests (perform r d).1

  -- After any requests, with any failures of the driver between and inside them, the invariant
  -- holds that held before: the key (type, name) is unique, every version is at least 1, and no
  -- resource has a finalizer twice.
  pub run-IsWellFormed :
      (requests : List Request) (d : Db Tables)
      → IsWellFormed d.tables
      → IsWellFormed (run requests d).tables
  unfolding run
  run-IsWellFormed [] d w = w
  run-IsWellFormed (r ∷ requests) d w =
      run-IsWellFormed requests (perform r d).1 ((perform-Preserves r).at d w)
