-- ===== src/State/Types/Machines.antt =====
-- Machines (internal/state/store.go, "Machine").
use rezuscloud.Prelude.{ℕ, String, Bool, Option, List}
use rezuscloud.State.Types.Tenants.{Metadata}

pub record MachineSpec : Type 0 where
  pub management_address : String
  pub connected : Bool
  pub binding_token : String

-- A string; `no_stage` is the zero value "".
pub data MachineStage : Type 0 where
  no_stage initializing installing configuring ready restarting stopping off updating removing :
      MachineStage

pub record ProcessorInfo : Type 0 where
  pub core_count : ℕ
  pub thread_count : ℕ
  pub frequency : ℕ
  pub description : String

pub record MemoryInfo : Type 0 where
  pub size_mb : ℕ
  pub description : String

pub record BlockDeviceInfo : Type 0 where
  pub size : ℕ
  pub type : String
  pub system_disk : Bool
  pub model : String

pub record HardwareInfo : Type 0 where
  pub processors : List ProcessorInfo
  pub memory_modules : List MemoryInfo
  pub block_devices : List BlockDeviceInfo
  pub arch : String

pub record NetworkInfo : Type 0 where
  pub hostname : String
  pub addresses : List String
  pub default_gateways : List String

pub record SchematicInfo : Type 0 where
  pub id : String
  pub extensions : List String

pub record MachineStatus : Type 0 where
  pub stage : MachineStage
  pub ready : Bool
  pub role : String
  pub talos_version : String
  pub k8s_version : String
  pub config_current : Bool
  pub maintenance : Bool
  pub hardware : Option HardwareInfo
  pub network : Option NetworkInfo
  pub schematic : Option SchematicInfo
  pub last_error : String

pub record Machine : Type 0 where
  pub metadata : Metadata
  pub spec : MachineSpec
  pub status : MachineStatus
