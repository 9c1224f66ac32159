-- ===== src/State/Types/Accounts.antt =====
-- Providers, users and API tokens (internal/state/store.go, "Provider", "User" and "API Token
-- Operations").
use rezuscloud.Prelude.{ℕ, String, Bool, Option, List}
use rezuscloud.State.Types.Tenants.{Metadata}

pub record ProviderSpec : Type 0 where
  pub endpoint : String

pub record ProviderSchema : Type 0 where
  pub machine_types : List String
  pub regions : List String

pub record ProviderStatus : Type 0 where
  pub connected : Bool
  pub last_heartbeat : ℕ
  pub schema : Option ProviderSchema
  pub error : String

pub record Provider : Type 0 where
  pub metadata : Metadata
  pub spec : ProviderSpec
  pub status : ProviderStatus

pub record UserSpec : Type 0 where
  pub role : String
  pub password_hash : String

pub record UserStatus : Type 0 where
  pub last_login : Option ℕ
  pub active_tokens : ℕ

pub record User : Type 0 where
  pub metadata : Metadata
  pub spec : UserSpec
  pub status : UserStatus

pub record ApiToken : Type 0 where
  pub id : String
  pub user_name : String
  pub role : String
  pub token_hash : String
  pub expires_at : Option ℕ
  pub created_at : ℕ
  pub last_used : Option ℕ
