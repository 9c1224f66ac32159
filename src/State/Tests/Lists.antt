-- ===== src/State/Tests/Lists.antt =====
-- Lists (internal/state) on small databases.
use rezuscloud.Prelude.{
  ℕ, zero, suc, ◌≡◌, refl, none, some, String, List, [], ◌∷◌, ◌++◌, map, arith, drop, All,
}
use Prim.Native.String.{◌++◌ as concat}
use mathlib.Core.List.{Memᴰ}
use rezuscloud.Effects.{Db, ok}
use rezuscloud.State.Types.{Machine, MachineSpec, MachineStatus}
use rezuscloud.State.Tables.{Tables, Row}
use rezuscloud.State.Json.{Codec}
use rezuscloud.State.Machines.{build_machine, empty_machine_spec, empty_machine_status}
use rezuscloud.State.Listing.{Sqlite, name_leb}
use rezuscloud.State.Listing.Names.{sort_by, text_leb}
use rezuscloud.Maps.{lookup}
use rezuscloud.State.Listing.Pages.{as_loaded, walk, walk_all}
use rezuscloud.State.Listing.Sorting.{IsSorted}
use rezuscloud.State.Listing.Reading.{reading, reading-ReadsKey}
use rezuscloud.State.Listing.Queries.{Query, answers, everything, label_is, Reads, tenant_key}
use rezuscloud.State.BindingToken.{machines_of, find, NoToken, find_finds, find_misses}
use rezuscloud.State.Tests.{over, with_rows, tenant_row}

-- The spec of a machine record here is its binding token.
abbrev token_codec : Codec MachineSpec
token_codec = record {
  marshal = λ s. some s.binding_token;
  unmarshal = λ text. record empty_machine_spec { binding_token = text };
}

abbrev status_codec : Codec MachineStatus
status_codec = record { marshal = λ s. some "{}"; unmarshal = λ text. empty_machine_status }

abbrev machine_row : String → String → Row
machine_row nm token = record tenant_row { type = "machine"; name = nm; spec = token }

abbrev three : Db Tables
three = over (
    with_rows
      (machine_row "b" "t2" ∷ machine_row "c" "t3" ∷ tenant_row ∷ machine_row "a" "t1" ∷ []))

three-order :
    answers "machine" everything three.tables
    ≡ machine_row "a" "t1" ∷ machine_row "b" "t2" ∷ machine_row "c" "t3" ∷ []
unfolding sort_by text_leb
three-order = refl

-- Machines of two tenants, one of them marked as deleted.
abbrev of_tenant : String → String → Row
of_tenant nm tenant = record tenant_row {
  type = "machine";
  name = nm;
  labels = ("rezuscloud.io/tenant", tenant) ∷ [];
}

abbrev two_tenants : Db Tables
two_tenants = over (
    with_rows (
      of_tenant "c" "acme"
      ∷ of_tenant "b" "beta"
      ∷ record (of_tenant "d" "acme") { deletion_timestamp = some 4 }
      ∷ of_tenant "a" "acme"
      ∷ []))

abbrev of_acme : Query
of_acme = label_is "rezuscloud.io/tenant" "acme"

two_tenants-order :
    answers "machine" of_acme two_tenants.tables ≡ of_tenant "a" "acme" ∷ of_tenant "c" "acme" ∷ []
unfolding sort_by text_leb lookup
two_tenants-order = refl

reads_tenant : Reads (reading "rezuscloud.io/tenant") of_acme
reads_tenant = reading-ReadsKey "rezuscloud.io/tenant"

walk_all_example :
    ((walk
        (reading "rezuscloud.io/tenant")
        "machine"
        of_acme
        tenant_key
        reads_tenant
        1
        2
        0
        two_tenants).0
      ≡ ok (map as_loaded (drop 0 (answers "machine" of_acme two_tenants.tables))))
    × IsSorted name_leb (answers "machine" of_acme two_tenants.tables)
walk_all_example =
    walk_all (reading "rezuscloud.io/tenant") "machine" of_acme tenant_key reads_tenant 1 2 0
      two_tenants (λ n. refl) (omega arith) (rw two_tenants-order (omega arith))

abbrev no_labels : Sqlite
no_labels = reading "rezuscloud.io/tenant"

abbrev machine_of : Row → Machine
machine_of = λ r. build_machine token_codec status_codec (as_loaded r)

three-machines :
    machines_of token_codec status_codec no_labels three.tables
    ≡ machine_of (machine_row "a" "t1")
      ∷ machine_of (machine_row "b" "t2")
      ∷ machine_of (machine_row "c" "t3")
      ∷ []
three-machines = rw three-order refl

second-token : (machine_of (machine_row "b" "t2")).spec.binding_token ≡ "t2"
unfolding build_machine
second-token = refl

find_finds_example :
    (n : Machine) × (find token_codec status_codec no_labels "t2" three ≡ ok (some n))
    × (n.spec.binding_token ≡ "t2")
find_finds_example =
    find_finds token_codec status_codec no_labels "t2" three (λ n. refl) refl
      (rw three-machines (omega arith)) {m = machine_of (machine_row "b" "t2")}
      (rw three-machines (Memᴰ.tail (Memᴰ.head refl))) second-token

-- Names "a", "aa", … in their order.
abbrev name_at : ℕ → String
name_at zero = "a"
name_at (suc n) = concat "a" (name_at n)

abbrev rows_from : ℕ → ℕ → List Row
rows_from zero i = []
rows_from (suc n) i = machine_row (name_at i) "other" ∷ rows_from n (suc i)

abbrev fifty_one : Db Tables
fifty_one = over (with_rows (rows_from 50 0 ++ machine_row (name_at 50) "mine" ∷ []))

fifty_one-order :
    answers "machine" everything fifty_one.tables
    ≡ rows_from 50 0 ++ machine_row (name_at 50) "mine" ∷ []
unfolding sort_by text_leb
fifty_one-order = refl

others :
    (n i : ℕ)
    → All (NoToken token_codec status_codec no_labels "mine") (map machine_of (rows_from n i))
unfolding build_machine
others zero i = tt
others (suc n) i = (refl, others n (suc i))

fifty_others :
    All (NoToken token_codec status_codec no_labels "mine") (map machine_of (rows_from 50 0))
unfolding build_machine
fifty_others = others 50 0

last-token : (machine_of (machine_row (name_at 50) "mine")).spec.binding_token ≡ "mine"
unfolding build_machine
last-token = refl

find_misses_example : find token_codec status_codec no_labels "mine" fifty_one ≡ ok none
find_misses_example =
    find_misses token_codec status_codec no_labels "mine" fifty_one (λ n. refl) refl
      (map machine_of (rows_from 50 0)) (machine_of (machine_row (name_at 50) "mine")) []
      (rw fifty_one-order refl) refl fifty_others last-token
