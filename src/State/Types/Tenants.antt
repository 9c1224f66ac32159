-- ===== src/State/Types/Tenants.antt =====
-- Metadata and tenants (internal/state/store.go, "Metadata" and "Tenant").
use rezuscloud.Prelude.{ℕ, String, Bool, Option, List}
use rezuscloud.Maps.{StringMap}

-- `uid` is the time.Now().UnixNano() reading that newUID prints in hexadecimal.
pub record Metadata : Type 0 where
  pub name : String
  pub uid : ℕ
  pub resource_version : ℕ
  pub created_at : ℕ
  pub updated_at : ℕ
  pub deletion_timestamp : Option ℕ
  pub finalizers : List String
  pub labels : StringMap
  pub annotations : StringMap

pub record PluginSpec : Type 0 where
  pub type : String
  pub version : String
  pub values : String

pub record TenantPlugins : Type 0 where
  pub cni : Option PluginSpec
  pub csi : Option PluginSpec

pub record ConfigPatchRef : Type 0 where
  pub name : String

-- `count` is an `int`; the API refuses a negative one, so it is a natural number here.
pub record NodeGroupSpec : Type 0 where
  pub name : String
  pub role : String
  pub count : ℕ
  pub provider_class : String
  pub provider_config : String
  pub talos_version : String
  pub config_patches : List ConfigPatchRef

pub record TenantSpec : Type 0 where
  pub kubernetes_version : String
  pub talos_version : String
  pub control_plane_endpoint : String
  pub pod_network : List String
  pub service_network : List String
  pub plugins : Option TenantPlugins
  pub node_groups : List NodeGroupSpec
  pub config_patches : List ConfigPatchRef

-- A string; `no_phase` is the zero value "".
pub data TenantPhase : Type 0 where
  no_phase forming shrinking active removing : TenantPhase

pub record ReconciliationStatus : Type 0 where
  pub phase : String
  pub last_error : String
  pub updated_at : Option ℕ

pub record MachineCounts : Type 0 where
  pub total : ℕ
  pub healthy : ℕ
  pub connected : ℕ

pub record TenantStatus : Type 0 where
  pub phase : TenantPhase
  pub available : Bool
  pub ready : Bool
  pub api_ready : Bool
  pub control_plane_ready : Bool
  pub machines : MachineCounts
  pub kubernetes_version : String
  pub talos_version : String
  pub reconciliation : Option ReconciliationStatus

pub record Tenant : Type 0 where
  pub metadata : Metadata
  pub spec : TenantSpec
  pub status : TenantStatus
