-- ===== src/Reconcile/Tests/Teardown.antt =====
-- A tenant whose infrastructure is gone (destroy in internal/reconcile/applier.go), and the binding
-- tokens of its node groups.
use rezuscloud.Prelude.{
  suc, ◌≡◌, refl, Bool, true, false, Option, none, some, String, List, [], ◌∷◌, if◌then◌else◌,
  arith,
}
use rezuscloud.Maps.{StringMap, lookup, get_text}
use rezuscloud.Sql.{select_row}
use rezuscloud.Effects.{Db, ok}
use rezuscloud.State.Types.{NodeGroupSpec}
use rezuscloud.State.Tables.{Tables, Row, same, select}
use rezuscloud.State.Resources.{belongs_to}
use rezuscloud.State.WellFormed.{IsWellFormed}
use rezuscloud.State.Cascade.{unless_hit}
use rezuscloud.State.Teardown.{IsDeletingWith, machines_finalizer, secrets_finalizer}
use rezuscloud.State.Tenants.{secret_of}
use rezuscloud.Tfexec.World.{World}
use rezuscloud.Reconcile.Keys.{
  machine_keys_for, provider_type_of, slots, itoa, digits_of, binding_token_annotation, replace_all,
}
use rezuscloud.Reconcile.Tokens.{ensure_binding_tokens}
use rezuscloud.Reconcile.Minting.{token_in}
use rezuscloud.Reconcile.Stable.{Recorded, ensure, ensure_keys-again}
use rezuscloud.Reconcile.Slots.{IsSettled, slot_tokens-shared}
use rezuscloud.Reconcile.Applier.{clear_tenant}
use rezuscloud.Reconcile.Cleared.{clear_tenant-gone}
use rezuscloud.Reconcile.Tests.{over, acme, group_row, blank, token_at}

abbrev gone_row : Row
gone_row = record acme {
  deletion_timestamp = some 5;
  finalizers = machines_finalizer ∷ secrets_finalizer ∷ [];
}

abbrev torn_down : Db Tables
torn_down = record {
  tables = (over (gone_row ∷ group_row ∷ []) []).tables.store;
  clock = λ n. n;
  readings = 7;
  faulty = λ n. false;
  statements = 0;
}

torn_down-IsWellFormed : IsWellFormed torn_down.tables
unfolding select_row
torn_down-IsWellFormed = record {
  unique = (refl, (refl, tt));
  rows = ((omega arith, (refl, (refl, tt))), ((omega arith, tt), tt));
}

torn_down-IsDeleting :
    IsDeletingWith "tenant" "acme" (machines_finalizer ∷ secrets_finalizer ∷ []) torn_down
unfolding select_row
torn_down-IsDeleting = (gone_row, 5, refl, refl, refl)

clear_tenant-gone_example :
    let r = clear_tenant "acme" torn_down in
    (r.0 ≡ ok tt)
    × ((ty nm : String)
        → select ty nm r.1.tables ≡ (
            if same ("tenant", "acme") (ty, nm)
            then none
            else unless_hit (belongs_to "acme") (select ty nm torn_down.tables)))
    × (select_row (secret_of "acme") r.1.tables.tenant_secrets ≡ none)
clear_tenant-gone_example =
    clear_tenant-gone "acme" torn_down (λ n. refl) torn_down-IsWellFormed torn_down-IsDeleting

abbrev fresh : Db World
fresh = over (group_row ∷ []) []

fresh-IsWellFormed : IsWellFormed fresh.tables.store
unfolding select_row
fresh-IsWellFormed = record { unique = (refl, tt); rows = ((omega arith, tt), tt) }

group-found : select "nodegroup" "workers" fresh.tables.store ≡ some group_row
unfolding select_row
group-found = refl

abbrev no_machines : String → Option (List String)
no_machines text = none

abbrev any_spec : String → Bool
any_spec text = true

ensure_keys-again_example :
    let run = ensure token_at no_machines any_spec "workers" ("0" ∷ []) [] in
    Recorded token_at no_machines any_spec "workers" ("0" ∷ []) [] ((run fresh).0, (run fresh).1)
    × (run (run fresh).1
        ≡ ((run fresh).0, record (run fresh).1 { statements = suc (run fresh).1.statements }))
ensure_keys-again_example =
    ensure_keys-again token_at no_machines any_spec "workers" (λ n. refl) ("0" ∷ []) [] fresh
      group_row (λ n. refl) fresh-IsWellFormed group-found refl

-- Two node groups with a token each.
abbrev with_token : String → String → Row
with_token nm token = record (blank "nodegroup" nm []) {
  annotations = ("rezuscloud.io/binding-token/0", token) ∷ [];
}

abbrev two : Db World
two = over (with_token "control" "aaa" ∷ with_token "workers" "bbb" ∷ []) []

abbrev spec_of : String → NodeGroupSpec
spec_of nm = record {
  name = nm;
  role = "";
  count = 1;
  provider_class = "oci:A1";
  provider_config = "";
  talos_version = "";
  config_patches = [];
}

IsSettled-control :
    IsSettled token_at no_machines any_spec (spec_of "control") (with_token "control" "aaa") two
unfolding select_row provider_type_of machine_keys_for slots itoa digits_of binding_token_annotation
    replace_all get_text lookup
IsSettled-control = (refl, (λ e. cc), refl, (refl, tt))

IsSettled-workers :
    IsSettled token_at no_machines any_spec (spec_of "workers") (with_token "workers" "bbb") two
unfolding select_row provider_type_of machine_keys_for slots itoa digits_of binding_token_annotation
    replace_all get_text lookup
IsSettled-workers = (refl, (λ e. cc), refl, (refl, tt))

slot_tokens-shared_example :
    (tokens : StringMap) × ((ensure_binding_tokens token_at no_machines any_spec
        (spec_of "control" ∷ spec_of "workers" ∷ [])
        []
        two).0
      ≡ ok tokens)
    × (lookup "0" tokens ≡ some (token_in (with_token "workers" "bbb").annotations "0"))
slot_tokens-shared_example =
    slot_tokens-shared token_at no_machines any_spec (spec_of "control") (spec_of "workers")
      (with_token "control" "aaa") (with_token "workers" "bbb") two (λ n. refl) IsSettled-control
      IsSettled-workers
