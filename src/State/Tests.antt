-- ===== src/State/Tests.antt =====
-- The state store (internal/state) on small databases: what they hold.
mod Secrets
mod Writes
mod Deletion
mod Lists
mod Phases
use rezuscloud.Prelude.{
  ℕ, zero, suc, ◌+◌, ◌*◌, ◌<◌, ◌≤◌, ◌≡◌, ◌≢◌, ◌↔◌, refl, inl, inr, Bool, true, false, Option, none,
  some, String, List, [], ◌∷◌, ◌++◌, map, arith, ◌==◌, length, drop, if◌then◌else◌,
}
use Prim.Native.String.{◌++◌ as concat}
use mathlib.Core.List.{Memᴰ}
use rezuscloud.Maps.{StringMap}
use rezuscloud.Effects.{Db, ok, err, err_conflict, err_not_found, driver, syntax_error, wrap}
use rezuscloud.State.Types.{
  Metadata, Machine, MachineSpec, MachineStatus, Tenant, active, shrinking, removing, forming,
  ready,
}
use rezuscloud.State.Tables.{Tables, Row, select, same, metadata_of}
use rezuscloud.State.Json.{Codec}
use rezuscloud.State.WellFormed.{IsWellFormed}
use rezuscloud.State.Resources.{delete_resource}
use rezuscloud.State.Finalizers.{add_finalizer, remove_finalizer}
use rezuscloud.State.Tenants.{delete_tenant, empty_spec, empty_status}
use rezuscloud.State.Machines.{empty_machine_spec, empty_machine_status}
use rezuscloud.State.Accounts.{empty_user_status}
use rezuscloud.State.Operations.{
  Codecs, run, run-IsWellFormed, create_tenant_request, delete_tenant_request,
  update_resource_request, remove_finalizer_request,
}
use rezuscloud.State.Concurrency.{
  write, written, update_resource-exactly_one, update_resource-stale, update_resource-fresh,
}
use rezuscloud.State.Lifecycle.{
  marked, removal, addition, delete_resource-live, delete_resource-again, remove_finalizer-last,
  remove_finalizer-remaining, remove_finalizer-absent, add_finalizer-present, add_finalizer-absent,
}
use rezuscloud.State.Teardown.{IsDeletingWith, remove_from, tenant_teardown}
use rezuscloud.State.Listing.{list_resources}
use rezuscloud.State.BindingToken.{machines_of, find, NoToken, find_finds, find_misses}
use rezuscloud.Sql.{select_row}

-- A clock that counts, and a database that does not fail.
abbrev pub over : Tables → Db Tables
over t = record { tables = t; clock = λ n. n; readings = 7; faulty = λ n. false; statements = 0 }

abbrev pub every_third : ℕ → Bool
every_third zero = false
every_third (suc zero) = true
every_third (suc (suc zero)) = false
every_third (suc (suc (suc n))) = every_third n

-- The same one with a database that fails at every third statement, from the second.
abbrev pub failing : Tables → Db Tables
failing t = record (over t) { faulty = every_third }

abbrev pub with_rows : List Row → Tables
with_rows rows = record {
  resources = rows;
  tenant_secrets = [];
  api_tokens = [];
  bus = true;
  published = [];
}

abbrev pub tenant_row : Row
tenant_row = record {
  type = "tenant";
  name = "acme";
  uid = 1;
  version = 3;
  spec = "{}";
  status = "{}";
  finalizers = [];
  labels = [];
  annotations = [];
  created_at = 1;
  updated_at = 2;
  deletion_timestamp = none;
}

abbrev pub one_tenant : Db Tables
one_tenant = over (with_rows (tenant_row ∷ []))

pub one_tenant-IsWellFormed : IsWellFormed one_tenant.tables
unfolding select_row
one_tenant-IsWellFormed = record { unique = (refl, tt); rows = ((omega arith, tt), tt) }

pub acme-found : select "tenant" "acme" one_tenant.tables ≡ some tenant_row
unfolding select_row
acme-found = refl
