-- ===== src/State/Tables.antt =====
-- The database of the state store (store.go, "Store" and "Migration"): the tables that the
-- migration creates and the state store reads and writes, the event bus beside them, and the key
-- of `resources`. The JSON columns finalizers, labels and annotations are held decoded, spec and
-- status as the text that json.Marshal made.
use rezuscloud.Prelude.{
  ℕ, ◌≡◌, ◌↔◌, Bool, true, ◌&&◌, Option, String, List, [], ◌∷◌, ◌++◌, arith, ◌==◌, eq_iff,
  if◌then◌else◌,
}
use rezuscloud.Maps.{StringMap}
use rezuscloud.Sql.{select_row}
use rezuscloud.Effects.{Exec, modify}
use rezuscloud.State.Types.{Metadata, ApiToken}

pub record Row : Type 0 where
  pub type : String
  pub name : String
  pub uid : ℕ
  pub version : ℕ
  pub spec : String
  pub status : String
  pub finalizers : List String
  pub labels : StringMap
  pub annotations : StringMap
  pub created_at : ℕ
  pub updated_at : ℕ
  pub deletion_timestamp : Option ℕ

pub record SecretRow : Type 0 where
  pub tenant_name : String
  pub bundle : List ℕ
  pub created_at : ℕ

pub record ResourceEvent : Type 0 where
  pub type : String
  pub mutation : String
  pub resource_type : String
  pub metadata : Metadata
  pub spec : Option String
  pub status : Option String

abbrev pub mutation_create : String
mutation_create = "create"

abbrev pub mutation_spec : String
mutation_spec = "spec"

abbrev pub mutation_status : String
mutation_status = "status"

abbrev pub mutation_delete : String
mutation_delete = "delete"

-- `bus` says whether SetBus was called; `published` is what the bus received, oldest first.
pub record Tables : Type 0 where
  pub resources : List Row
  pub tenant_secrets : List SecretRow
  pub api_tokens : List ApiToken
  pub bus : Bool
  pub published : List ResourceEvent

abbrev pub Key : Type 0
Key = String × String

-- UNIQUE(type, name).
abbrev pub key : Row → Key
key r = (r.type, r.name)

abbrev pub same : Key → Key → Bool
same (t, n) (u, m) = (t == u) && (n == m)

pub same_iff : (i j : Key) → (same i j ≡ true) ↔ (i ≡ j)
same_iff (t, n) (u, m) = ground (arith, eq_iff t u, eq_iff n m)

abbrev pub select : String → String → Tables → Option Row
select ty nm t = select_row (λ r. same (ty, nm) (key r)) t.resources

-- The columns that a SELECT scans into a Metadata.
unfoldable pub metadata_of : Row → Metadata
metadata_of r = record {
  name = r.name;
  uid = r.uid;
  resource_version = r.version;
  created_at = r.created_at;
  updated_at = r.updated_at;
  deletion_timestamp = r.deletion_timestamp;
  finalizers = r.finalizers;
  labels = r.labels;
  annotations = r.annotations;
}

unfoldable pub set_bus : Tables → Tables
set_bus t = record t { bus = true }

abbrev pub notify : ResourceEvent → Tables → Tables
notify e t = record t { published = if t.bus then t.published ++ e ∷ [] else t.published }

unfoldable pub publish :
    String → String → String → Metadata → Option String → Option String → Exec Tables Unit
unfolding modify
publish event_type mutation resource_type md spec status = modify (
    notify (record {
      type = event_type;
      mutation = mutation;
      resource_type = resource_type;
      metadata = md;
      spec = spec;
      status = status;
    }))
