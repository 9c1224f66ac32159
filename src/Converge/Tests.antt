-- ===== src/Converge/Tests.antt =====
-- The converge engine (internal/converge/engine.go) on one machine.
use rezuscloud.Prelude.{
  ℕ, ◌≡◌, refl, true, false, Option, none, some, String, List, [], ◌∷◌, All, arith, sym, ap, ◌∙◌,
}
use rezuscloud.Effects.{Db, ok, message}
use rezuscloud.State.Listing.Reading.{reading}
use rezuscloud.State.Types.{Machine, MachineSpec}
use rezuscloud.State.Tables.{Tables, Row}
use rezuscloud.State.Json.{Codec}
use rezuscloud.Maps.{get_text}
use rezuscloud.Sql.{select_row}
use rezuscloud.Effects.{now, modify}
use rezuscloud.Effects.Keeps.{ok-injective}
use rezuscloud.State.Resources.{get_resource}
use rezuscloud.State.Tenants.{load_tenant_secrets}
use rezuscloud.State.Listing.{list_resources}
use rezuscloud.State.Listing.Pages.{as_loaded}
use rezuscloud.State.Machines.{
  list_machines, build_machine, get_machine, empty_machine_spec, empty_machine_status,
  initializing_status,
}
use rezuscloud.Converge.World.{World, Outside, Answer, accepts, refuses, in_store}
use rezuscloud.Converge.Marks.{mark_disconnected}
use rezuscloud.Converge.Engine.{converge_with_retry}
use rezuscloud.Converge.Retry.{Decides, converge_with_retry-Decides}
use rezuscloud.Converge.Delivery.{Reached}
use rezuscloud.Converge.Verdict.{converge_with_retry-Reached}
use rezuscloud.Converge.Disconnect.{Elsewhere, listing, mark_disconnected-unmatched}

abbrev small_codec : {A : Type 0} → A → Codec A
small_codec a = record { marshal = λ x. some "{}"; unmarshal = λ text. a }

-- The management address is a bare address.
abbrev linked_spec : MachineSpec
linked_spec = record empty_machine_spec { management_address = "fd00::2"; connected = true }

abbrev node : Machine
node = record {
  metadata = record {
    name = "node";
    uid = 1;
    resource_version = 1;
    created_at = 1;
    updated_at = 1;
    deletion_timestamp = none;
    finalizers = [];
    labels = ("rezuscloud.io/tenant", "acme") ∷ [];
    annotations = [];
  };
  spec = linked_spec;
  status = initializing_status;
}

abbrev node_row : Row
node_row = record {
  type = "machine";
  name = "node";
  uid = 1;
  version = 1;
  spec = "{}";
  status = "{}";
  finalizers = [];
  labels = ("rezuscloud.io/tenant", "acme") ∷ [];
  annotations = [];
  created_at = 1;
  updated_at = 1;
  deletion_timestamp = none;
}

abbrev store : Tables
store = record {
  resources = node_row ∷ [];
  tenant_secrets = record { tenant_name = "acme"; bundle = 1 ∷ []; created_at = 1 } ∷ [];
  api_tokens = [];
  bus = true;
  published = [];
}

-- A configured node: it refuses the requests of the maintenance API.
abbrev configured_node : Option String → Answer
configured_node none = refuses (message "certificate required")
configured_node (some c) = accepts

abbrev outside : Outside
outside = record {
  answer = λ n w a. configured_node a.client_config;
  ctx_err = λ n. none;
  renderer = λ t tenant id. (ok "machine: {}", t);
  store_during = λ w a. w.store;
  mint = λ bundle before after. ok "certificate";
  split_host_port = λ addr. ok ("fd00::2", "51820");
  join_host_port = λ host port. host;
  quoted = λ s. s;
  converge_budget = 60000000000;
  machine_spec = small_codec linked_spec;
  machine_status = small_codec empty_machine_status;
  sqlite = reading "rezuscloud.io/tenant";
}

abbrev world : Db World
world = record {
  tables = record { store = store; addrs = []; sent = [] };
  clock = λ n. n;
  readings = 0;
  faulty = λ n. false;
  statements = 0;
}

converge_with_retry-Decides_example :
    Decides (converge_with_retry outside 122 node "[fd00::2]:51820") world
converge_with_retry-Decides_example =
    converge_with_retry-Decides outside node "[fd00::2]:51820" 121 world (λ n. omega arith)
      (omega arith)

reached : (converge_with_retry outside 1 node "[fd00::2]:51820" world).0 ≡ ok (some (ok tt))
unfolding converge_with_retry now get_text modify load_tenant_secrets select_row get_machine
    get_resource
reached = refl

converge_with_retry-Reached_example :
    Reached outside node "[fd00::2]:51820"
      (converge_with_retry outside 1 node "[fd00::2]:51820" world).1.tables
converge_with_retry-Reached_example =
    converge_with_retry-Reached outside node "[fd00::2]:51820" 1 world reached

abbrev listed_node : Machine
listed_node = build_machine outside.machine_spec outside.machine_status (as_loaded node_row)

listing-node : (listing outside world).0 ≡ ok (listed_node ∷ [], 1)
unfolding list_machines in_store list_resources
listing-node = refl

elsewhere : Elsewhere "[fd00::2]:51820" listed_node
unfolding build_machine
elsewhere = refl

listed :
    (machines : List Machine) (total : ℕ)
    → (listing outside world).0 ≡ ok (machines, total)
    → All (Elsewhere "[fd00::2]:51820") machines
listed machines total found =
    let only : machines ≡ listed_node ∷ [] =
      ap (λ (p : List Machine × ℕ). p.0) (ok-injective (sym listing-node ∙ found)) in
    rw only (elsewhere, tt)

mark_disconnected-unmatched_example :
    (mark_disconnected outside "[fd00::2]:51820" world).1.tables ≡ world.tables
mark_disconnected-unmatched_example =
    mark_disconnected-unmatched outside "[fd00::2]:51820" world listed
