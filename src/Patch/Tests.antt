-- ===== src/Patch/Tests.antt =====
-- Config patches (internal/api/patch/resolve.go) of one tenant.
use rezuscloud.Prelude.{
  ◌≡◌, refl, Option, none, some, true, false, String, List, [], ◌∷◌, ◌++◌, map, ◌==◌, if◌then◌else◌,
}
use rezuscloud.Maps.{lookup}
use rezuscloud.Effects.{Db, ok}
use rezuscloud.State.Tables.{Tables, Row}
use rezuscloud.State.Listing.{Sqlite}
use rezuscloud.State.Listing.Names.{sort_by, text_leb}
use rezuscloud.State.Listing.Sorting.{IsSorted}
use rezuscloud.State.Listing.Reading.{reading, reading-ReadsKey}
use rezuscloud.Patch.Resolve.{PatchSpec, NamedSpec, resolve_patches}
use rezuscloud.Patch.Precedence.{
  for_cluster, for_machine, records, spec_by_name, resolve-precedence,
}

abbrev patch_for : String → String → PatchSpec
patch_for scope target = record {
  patch = "patch";
  format = "";
  scope = scope;
  target_machine = target;
  target_role = "";
  enabled = true;
}

-- A spec here is the machine that its patch is for, or "all".
abbrev decode : String → Option PatchSpec
decode text = some (if text == "all" then patch_for "" "" else patch_for "machine" text)

abbrev patch_row : String → String → Row
patch_row nm target = record {
  type = "configpatch";
  name = nm;
  uid = 1;
  version = 1;
  spec = target;
  status = "{}";
  finalizers = [];
  labels = ("rezuscloud.io/tenant", "acme") ∷ [];
  annotations = [];
  created_at = 1;
  updated_at = 1;
  deletion_timestamp = none;
}

abbrev store : Db Tables
store = record {
  tables = record {
    resources =
        patch_row "a" "m1" ∷ patch_row "c" "all" ∷ patch_row "d" "m2" ∷ patch_row "b" "all" ∷ [];
    tenant_secrets = [];
    api_tokens = [];
    bus = false;
    published = [];
  };
  clock = λ n. n;
  readings = 0;
  faulty = λ n. false;
  statements = 0;
}

abbrev sqlite : Sqlite
sqlite = reading "rezuscloud.io/tenant"

abbrev found : List NamedSpec
found = records sqlite decode "acme" "worker" "m1" store

abbrev named : String → String → String → NamedSpec
named nm scope target = record { name = nm; spec = patch_for scope target }

found-all :
    found
    ≡ named "a" "machine" "m1" ∷ named "b" "" "" ∷ named "c" "" "" ∷ named "d" "machine" "m2" ∷ []
unfolding sort_by text_leb lookup
found-all = refl

resolve-precedence_example :
    ((resolve_patches sqlite decode "acme" "worker" "m1" store).0
      ≡ ok (
          map (λ ns. ns.spec.patch) (for_cluster "worker" "m1" found)
          ++ map (λ ns. ns.spec.patch) (for_machine "worker" "m1" found)))
    × IsSorted spec_by_name (for_cluster "worker" "m1" found)
    × IsSorted spec_by_name (for_machine "worker" "m1" found)
resolve-precedence_example =
    resolve-precedence sqlite decode "acme" "worker" "m1" store (λ n. refl)
      (reading-ReadsKey "rezuscloud.io/tenant")
