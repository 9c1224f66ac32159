-- ===== src/State/Cascade.antt =====
-- The removal of a tenant's resources (RemoveResourcesByTenant in store.go).
use mathlib.Core.Path.{subst}
use rezuscloud.Prelude.{
  suc, ◌≡◌, refl, sym, ap, ◌∙◌, inl, inr, Bool, false, Option, none, some, String, List, [], ◌∷◌,
  arith, filter, any, length, if◌then◌else◌, Bool-cases,
}
use rezuscloud.Sql.{select_row}
use rezuscloud.Sql.Keyed.{IsUnique, same_sym}
use rezuscloud.Effects.{Db, Result, ok, err, pure, query, exec, continue, modify}
use rezuscloud.State.Tables.{
  Tables, Row, Key, key, same, same_iff, select, publish, notify, metadata_of, mutation_delete,
}
use rezuscloud.State.Resources.{belongs_to, remove_each, remove_resources_by_tenant, delete_row}
use rezuscloud.State.Rows.{select-delete_row}
use rezuscloud.State.WellFormed.{IsWellFormed}
use rezuscloud.State.Amend.{IsHealthy}

abbrev pub names : Key → List Row → Bool
names k rows = any (λ r. same (key r) k) rows

-- What is left of a row: nothing where it passes the test.
abbrev pub unless_hit : (Row → Bool) → Option Row → Option Row
unless_hit p none = none
unless_hit p (some r) = if p r then none else some r

-- The database after one turn of the loop.
abbrev removed : Row → Db Tables → Db Tables
removed r d = record d {
  statements = suc d.statements;
  tables =
      notify
        (record {
          type = "DELETED";
          mutation = mutation_delete;
          resource_type = r.type;
          metadata = metadata_of r;
          spec = none;
          status = none;
        })
        (delete_row r.type r.name d.tables).1;
}

remove_each-step :
    (r : Row) (pending : List Row) (d : Db Tables)
    → IsHealthy d
    → remove_each (r ∷ pending) d ≡ remove_each pending (removed r d)
unfolding remove_each exec publish modify delete_row
remove_each-step r pending d fine = rw (fine d.statements) refl

-- Every row of the list is deleted.
remove_each-ok :
    (pending : List Row) (d : Db Tables)
    → IsHealthy d
    → ((remove_each pending d).0 ≡ ok tt)
      × ((ty nm : String)
          → select ty nm (remove_each pending d).1.tables
            ≡ (if names (ty, nm) pending then none else select ty nm d.tables))
      × ((remove_each pending d).1.tables.tenant_secrets ≡ d.tables.tenant_secrets)
remove_each-ok [] d fine = unfold remove_each in (refl, λ ty nm. refl, refl)
remove_each-ok (r ∷ pending) d fine =
    let (done, left, secrets) = remove_each-ok pending (removed r d) fine in
    rw (remove_each-step r pending d fine) (
      done,
      λ ty nm. left ty nm ∙ ground (arith, select-delete_row r.type r.name ty nm d.tables),
      secrets ∙ unfold delete_row in refl,
    )

names-none :
    (p : Row → Bool) (k : Key) (t : List Row)
    → select_row (λ r. same k (key r)) t ≡ none
    → names k (filter p t) ≡ false
unfolding select_row
names-none p k [] h = refl
names-none p k (r ∷ t) h = ground (arith, names-none p k t, same_sym key same same_iff (key r) k)

-- With unique keys, a key is among the rows that pass a test exactly when its row passes it.
names-filter :
    (p : Row → Bool) (k : Key) (t : List Row)
    → IsUnique key same t
    → (if names k (filter p t) then none else select_row (λ r. same k (key r)) t)
      ≡ unless_hit p (select_row (λ r. same k (key r)) t)
unfolding select_row
names-filter p k [] u = refl
names-filter p k (r ∷ t) u = elim (Bool-cases (same k (key r))) [
  | inl e ↦ elim (Bool-cases (p r)) [
    | inl q ↦ rw (e, q, same_sym key same same_iff (key r) k, e) refl
    | inr q ↦
        rw (e, q)
          (rw
            (names-none p k t (
              subst (λ j. select_row (λ s. same j (key s)) t ≡ none)
                (sym ((same_iff k (key r)).0 e)) u.0))
            refl)
  ]
  | inr e ↦ ground (arith, e, names-filter p k t u.1, same_sym key same same_iff (key r) k)
]

pure-tables :
    {A B : Type 0} (r : Result A) (b : B) (d : Db Tables)
    → (continue r (λ a. pure b) d).1.tables ≡ d.tables
pure-tables (ok a) b d = refl
pure-tables (err e) b d = refl

-- With a working database, the rows that are removed are the ones that carry the tenant's label and are no tenants; every
-- other row stays as it was, and so do the secrets.
pub remove_resources_by_tenant-exact :
    (tenant : String) (d : Db Tables)
    → IsHealthy d
    → IsWellFormed d.tables
    → let r = remove_resources_by_tenant tenant d in
      (r.0 ≡ ok (length (filter (belongs_to tenant) d.tables.resources)))
      × ((ty nm : String)
          → select ty nm r.1.tables ≡ unless_hit (belongs_to tenant) (select ty nm d.tables))
      × (r.1.tables.tenant_secrets ≡ d.tables.tenant_secrets)
unfolding remove_resources_by_tenant query
remove_resources_by_tenant-exact tenant d fine w =
    let pending = filter (belongs_to tenant) d.tables.resources in
    let listed : Db Tables = record d { statements = suc d.statements } in
    let (done, left, secrets) = remove_each-ok pending listed fine in
    let same_tables =
      pure-tables (remove_each pending listed).0 (length pending) (remove_each pending listed).1 in
    rw (fine d.statements) (
      rw done refl,
      λ ty nm.
          ap (λ (t : Tables). select ty nm t) same_tables
          ∙ left ty nm
          ∙ names-filter (belongs_to tenant) (ty, nm) d.tables.resources w.unique,
      ap (λ (t : Tables). t.tenant_secrets) same_tables ∙ secrets,
    )
