-- ===== src/Upgrade/Tests.antt =====
-- Rolling upgrades (internal/upgrade) of three machines.
use rezuscloud.Prelude.{
  ◌≡◌, refl, ◌==◌, Bool, true, false, Option, none, some, String, List, [], ◌∷◌, ◌++◌,
}
use rezuscloud.Effects.{Db, Error, ok}
use rezuscloud.State.Types.{MachineSpec, MachineStatus}
use rezuscloud.State.Tables.{Tables, Row}
use rezuscloud.State.Json.{Codec}
use rezuscloud.State.Machines.{empty_machine_spec, empty_machine_status}
use rezuscloud.Upgrade.Rolling.{
  upgrade_machine, check_health, rollback_machine, Upgrader, roll_upgrade, roll_listed,
  roll_machines, turn, upgraded, checked, persist_status, run_result,
}
use rezuscloud.Upgrade.Endings.{passed_calls}
use rezuscloud.Upgrade.Order.{
  list_machines_in_order, list_machines_in_order-planes, planes, workers, outcome,
  control_planes_first,
}
use rezuscloud.Maps.{lookup}
use rezuscloud.State.Tables.{metadata_of}
use rezuscloud.State.Machines.{build_machine}
use rezuscloud.State.Listing.{Sqlite}
use rezuscloud.State.Listing.Names.{sort_by, text_leb}
use rezuscloud.State.Listing.Queries.{answers, label_is}
use rezuscloud.State.Listing.Reading.{reading, reading-ReadsKey}

abbrev three : List String
three = "cp" ∷ "w1" ∷ "w2" ∷ []

-- "w1" is unhealthy after its upgrade.
abbrev if_w1 : Bool → Option String
if_w1 true = some "not ready"
if_w1 false = none

abbrev one_fails : Upgrader
one_fails before (upgrade_machine m v) = none
one_fails before (check_health m) = if_w1 (m == "w1")
one_fails before (rollback_machine m v) = none

abbrev all_pass : Upgrader
all_pass before c = none

abbrev text : Error → String
text e = "error"

all_pass-ok :
    run_result (roll_upgrade all_pass (λ i. false) (ok three) text "1.7" "1.8" "talos").0 ≡ ok tt
unfolding run_result roll_upgrade roll_listed roll_machines turn upgraded checked persist_status
all_pass-ok = refl

abbrev spec_codec : Codec MachineSpec
spec_codec = record { marshal = λ s. some "{}"; unmarshal = λ t. empty_machine_spec }

-- The status of a machine record here is its role.
abbrev role_codec : Codec MachineStatus
role_codec = record {
  marshal = λ s. some s.role;
  unmarshal = λ t. record empty_machine_status { role = t };
}

abbrev machine : String → String → Row
machine nm role = record {
  type = "machine";
  name = nm;
  uid = 1;
  version = 1;
  spec = "{}";
  status = role;
  finalizers = [];
  labels = ("rezuscloud.io/tenant", "acme") ∷ [];
  annotations = [];
  created_at = 1;
  updated_at = 1;
  deletion_timestamp = none;
}

abbrev fleet : Db Tables
fleet = record {
  tables = record {
    resources = machine "a" "worker" ∷ machine "b" "controlplane" ∷ [];
    tenant_secrets = [];
    api_tokens = [];
    bus = false;
    published = [];
  };
  clock = λ n. n;
  readings = 0;
  faulty = λ n. false;
  statements = 0;
}

abbrev sqlite : Sqlite
sqlite = reading "rezuscloud.io/tenant"

fleet-machines :
    answers "machine" (label_is "rezuscloud.io/tenant" "acme") fleet.tables
    ≡ machine "a" "worker" ∷ machine "b" "controlplane" ∷ []
unfolding sort_by text_leb lookup
fleet-machines = refl

fleet-order :
    planes spec_codec role_codec sqlite "acme" fleet
      ++ workers spec_codec role_codec sqlite "acme" fleet
    ≡ "b" ∷ "a" ∷ []
unfolding build_machine metadata_of
fleet-order = rw fleet-machines refl

fleet-passes :
    run_result
      (outcome spec_codec role_codec sqlite "acme" fleet all_pass
        (λ i. false)
        text
        "1.7"
        "1.8"
        "talos").0
    ≡ ok tt
unfolding run_result roll_upgrade roll_listed roll_machines turn upgraded checked persist_status
fleet-passes =
    rw
      (
        list_machines_in_order-planes spec_codec role_codec sqlite "acme" fleet (λ n. refl)
            (reading-ReadsKey "rezuscloud.io/tenant"),
        fleet-order,
      )
      refl

control_planes_first_example :
    ((list_machines_in_order spec_codec role_codec sqlite "acme" fleet).0
      ≡ ok (
          planes spec_codec role_codec sqlite "acme" fleet
          ++ workers spec_codec role_codec sqlite "acme" fleet))
    × ((outcome spec_codec role_codec sqlite "acme" fleet all_pass
          (λ i. false)
          text
          "1.7"
          "1.8"
          "talos").1.calls
        ≡ passed_calls "1.8" (planes spec_codec role_codec sqlite "acme" fleet)
          ++ passed_calls "1.8" (workers spec_codec role_codec sqlite "acme" fleet))
control_planes_first_example =
    control_planes_first spec_codec role_codec sqlite "acme" fleet all_pass (λ i. false) text "1.7"
      "1.8" "talos" (λ n. refl) (reading-ReadsKey "rezuscloud.io/tenant") refl fleet-passes
