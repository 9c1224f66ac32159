-- ===== src/State/Reads.antt =====
-- The reads of the state store (GetResource, GetTenant, GetMachine, ListResources, ListTyped and
-- the lists of machines in store.go and listtyped.go), as actions of any program that uses them.
use rezuscloud.Prelude.{Option, String, List}
use rezuscloud.Effects.{
  Result, ok, err, err_not_found, err_conflict, err_lock_held, driver, no_rows, constraint,
  syntax_error, io_failure, marshal_failure, message, wrap,
}
use rezuscloud.Effects.Keeps.{
  IsPreorder, Keeps, Keeps-pure, Keeps-raise, Keeps-bind, Keeps-query, Keeps-attempt, keeps_rules,
}
use rezuscloud.State.Types.{TenantSpec, TenantStatus, MachineSpec, MachineStatus}
use rezuscloud.State.Tables.{Tables, Row, SecretRow}
use rezuscloud.State.Json.{Codec}
use rezuscloud.State.Resources.{Loaded, get_resource, scanned}
use rezuscloud.State.Listing.{
  Sqlite, ListOption, ListOptions, list_resources, list_typed, list_typed_by_tenant,
}
use rezuscloud.State.Tenants.{get_tenant, or_nil, load_tenant_secrets, scanned_bundle}
use rezuscloud.State.Machines.{
  get_machine, list_machines, list_machines_by_tenant, find_machine_by_binding_token,
}

module _ {S : Tables → Tables → Type 0} (o : IsPreorder S) where
  Keeps-scanned : (r : Result Row) → Keeps S (scanned r)
  unfolding scanned
  Keeps-scanned (ok row) = Keeps-pure o _
  Keeps-scanned (err err_not_found) = Keeps-raise o _
  Keeps-scanned (err err_conflict) = Keeps-raise o _
  Keeps-scanned (err err_lock_held) = Keeps-raise o _
  Keeps-scanned (err (driver no_rows)) = Keeps-raise o _
  Keeps-scanned (err (driver constraint)) = Keeps-raise o _
  Keeps-scanned (err (driver syntax_error)) = Keeps-raise o _
  Keeps-scanned (err (driver io_failure)) = Keeps-raise o _
  Keeps-scanned (err marshal_failure) = Keeps-raise o _
  Keeps-scanned (err (message s)) = Keeps-raise o _
  Keeps-scanned (err (wrap c e)) = Keeps-raise o _

  pub Keeps-get_resource : (ty nm : String) → Keeps S (get_resource ty nm)
  unfolding get_resource
  Keeps-get_resource ty nm = Keeps-bind o _ _ (Keeps-attempt o _ (Keeps-query o _)) Keeps-scanned

  Keeps-or_nil : {A : Type 0} (f : Loaded → A) (r : Result Loaded) → Keeps S (or_nil f r)
  unfolding or_nil
  Keeps-or_nil f (ok found) = Keeps-pure o _
  Keeps-or_nil f (err err_not_found) = Keeps-pure o _
  Keeps-or_nil f (err err_conflict) = Keeps-raise o _
  Keeps-or_nil f (err err_lock_held) = Keeps-raise o _
  Keeps-or_nil f (err (driver e)) = Keeps-raise o _
  Keeps-or_nil f (err marshal_failure) = Keeps-raise o _
  Keeps-or_nil f (err (message s)) = Keeps-raise o _
  Keeps-or_nil f (err (wrap c e)) = Keeps-raise o _

  Keeps-scanned_bundle : (r : Result SecretRow) → Keeps S (scanned_bundle r)
  unfolding scanned_bundle
  Keeps-scanned_bundle (ok row) = Keeps-pure o _
  Keeps-scanned_bundle (err (driver no_rows)) = Keeps-pure o _
  Keeps-scanned_bundle (err e) = Keeps-raise o _

  pub Keeps-load_tenant_secrets : (nm : String) → Keeps S (load_tenant_secrets nm)
  unfolding load_tenant_secrets
  Keeps-load_tenant_secrets nm =
      Keeps-bind o _ _ (Keeps-attempt o _ (Keeps-query o _)) Keeps-scanned_bundle

  pub Keeps-get_tenant :
      (spec : Codec TenantSpec) (status : Codec TenantStatus) (nm : String)
      → Keeps S (get_tenant spec status nm)
  unfolding get_tenant
  Keeps-get_tenant spec status nm =
      Keeps-bind o _ _ (Keeps-attempt o _ (Keeps-get_resource "tenant" nm)) (Keeps-or_nil _)

  module _ {A : Type 0} (sqlite : Sqlite) where
    pub Keeps-list_typed :
        (ty : String) (opts : ListOptions) (build : Loaded → Option A)
        → Keeps S (list_typed sqlite ty opts build)
    unfolding list_typed list_resources
    Keeps-list_typed ty opts build = search (keeps_rules, o) depth 12

    pub Keeps-list_typed_by_tenant :
        (ty tenant : String) (build : Loaded → Option A)
        → Keeps S (list_typed_by_tenant sqlite ty tenant build)
    unfolding list_typed_by_tenant
    Keeps-list_typed_by_tenant ty tenant build = Keeps-list_typed ty _ build

  module _ (spec : Codec MachineSpec) (status : Codec MachineStatus) where
    pub Keeps-get_machine : (id : String) → Keeps S (get_machine spec status id)
    unfolding get_machine
    Keeps-get_machine id =
        Keeps-bind o _ _ (Keeps-attempt o _ (Keeps-get_resource "machine" id)) (Keeps-or_nil _)

    module _ (sqlite : Sqlite) where
      pub Keeps-list_machines :
          (opts : List ListOption) → Keeps S (list_machines spec status sqlite opts)
      unfolding list_machines list_resources
      Keeps-list_machines opts = search (keeps_rules, o) depth 12

      pub Keeps-list_machines_by_tenant :
          (tenant : String) (opts : List ListOption)
          → Keeps S (list_machines_by_tenant spec status sqlite tenant opts)
      unfolding list_machines_by_tenant
      Keeps-list_machines_by_tenant tenant opts = Keeps-list_machines _

      pub Keeps-find_machine :
          (token : String) → Keeps S (find_machine_by_binding_token spec status sqlite token)
      unfolding find_machine_by_binding_token
      Keeps-find_machine token = search (keeps_rules, o, Keeps-list_machines) depth 12
