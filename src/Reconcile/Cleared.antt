-- ===== src/Reconcile/Cleared.antt =====
-- The end of a teardown: what follows a `tofu destroy` that returned nil (destroy in
-- internal/reconcile/applier.go).
use rezuscloud.Prelude.{
  suc, ◌≡◌, refl, ap, ◌∙◌, inl, inr, Bool, true, false, Option, none, some, String, List, [], ◌∷◌,
  arith, eq_iff, if◌then◌else◌, Bool-cases,
}
use rezuscloud.Sql.{select_row, delete_where}
use rezuscloud.Effects.{Db, Result, ok, err, exec}
use rezuscloud.Effects.Keeps.{
  IsPreorder, Keeps, Keeps-bind, Keeps-pure, Keeps-exec, Keeps-modify, Keeps-context, keeps_rules,
  Keeps-attempt,
}
use rezuscloud.State.Types.{Metadata}
use rezuscloud.State.Tables.{Tables, Row, SecretRow, key, same, select, publish}
use rezuscloud.State.Resources.{
  belongs_to, remove_resources_by_tenant, remove_resource, announce_removal, delete_row,
  update_rows, Loaded,
}
use rezuscloud.State.Reads.{Keeps-get_resource}
use rezuscloud.State.Rows.{same_self}
use rezuscloud.State.WellFormed.{IsWellFormed, remove_resources_by_tenant-Preserves}
use rezuscloud.State.Finalizers.{remove_finalizer, write_finalizers, without}
use rezuscloud.State.Finalizers.Invariant.{remove_finalizer-Preserves}
use rezuscloud.State.Amend.{IsHealthy}
use rezuscloud.State.Lifecycle.{remove_finalizer-last, remove_finalizer-remaining}
use rezuscloud.State.Teardown.{IsDeletingWith, machines_finalizer, secrets_finalizer}
use rezuscloud.State.Cascade.{remove_resources_by_tenant-exact, unless_hit}
use rezuscloud.State.Tenants.{remove_tenant_secrets, secret_of}
use rezuscloud.Reconcile.Applier.{clear_tenant}

-- The secrets bundles are as they were.
abbrev SameSecrets : Tables → Tables → Type 0
SameSecrets t u = u.tenant_secrets ≡ t.tenant_secrets

SameSecrets-preorder : IsPreorder SameSecrets
SameSecrets-preorder = record { same = λ t. refl; trans = λ t u v e f. f ∙ e }

Keeps-publish :
    (event_type mutation ty : String) (md : Metadata) (spec status : Option String)
    → Keeps SameSecrets (publish event_type mutation ty md spec status)
unfolding publish
Keeps-publish event_type mutation ty md spec status =
    Keeps-modify SameSecrets-preorder _ (λ t. refl)

Keeps-announce :
    (ty : String) (found : Result Loaded) → Keeps SameSecrets (announce_removal ty found)
unfolding announce_removal
Keeps-announce ty (err e) = Keeps-pure SameSecrets-preorder tt
Keeps-announce ty (ok found) = search (keeps_rules, SameSecrets-preorder, Keeps-publish)

Keeps-delete : (ty nm : String) → Keeps SameSecrets (exec (delete_row ty nm))
unfolding delete_row
Keeps-delete ty nm = Keeps-exec SameSecrets-preorder _ (λ t. refl)

Keeps-remove_resource : (ty nm : String) → Keeps SameSecrets (remove_resource ty nm)
unfolding remove_resource
Keeps-remove_resource ty nm =
    Keeps-bind SameSecrets-preorder _ _
      (Keeps-attempt SameSecrets-preorder _ (Keeps-get_resource SameSecrets-preorder ty nm))
      (λ found.
        Keeps-bind SameSecrets-preorder _ _
          (Keeps-context SameSecrets-preorder "remove resource" _ (Keeps-delete ty nm))
          (λ u. Keeps-announce ty found))

Keeps-update :
    (ty nm : String) (extra : Row → Bool) (f : Row → Row)
    → Keeps SameSecrets (exec (update_rows ty nm extra f))
unfolding update_rows
Keeps-update ty nm extra f = Keeps-exec SameSecrets-preorder _ (λ t. refl)

Keeps-remove_finalizer : (ty nm f : String) → Keeps SameSecrets (remove_finalizer ty nm f)
unfolding remove_finalizer write_finalizers
Keeps-remove_finalizer ty nm f =
    Keeps-bind SameSecrets-preorder _ _ (Keeps-get_resource SameSecrets-preorder ty nm) (λ found.
      search (keeps_rules, SameSecrets-preorder, Keeps-remove_resource, Keeps-update) depth 14)

select_row-hits :
    {A : Type 0} (q : A → Bool) (t : List A) {a : A} → select_row q t ≡ some a → q a ≡ true
unfolding select_row
select_row-hits q [] e = absurd (cc)
select_row-hits q (b ∷ t) e = elim (Bool-cases (q b)) [
  | inl h ↦ ground (arith, e, h)
  | inr h ↦ select_row-hits q t (ground (arith, e, h))
]

select_row-deleted :
    {A : Type 0} (q : A → Bool) (t : List A) → select_row q (delete_where q t) ≡ none
unfolding select_row delete_where
select_row-deleted q [] = refl
select_row-deleted q (a ∷ t) = ground (arith, select_row-deleted q t)

remove_tenant_secrets-ok :
    (nm : String) (d : Db Tables)
    → IsHealthy d
    → remove_tenant_secrets nm d ≡ (
      ok tt,
      record d {
        statements = suc d.statements;
        tables = record d.tables {
          tenant_secrets = delete_where (secret_of nm) d.tables.tenant_secrets;
        };
      },
    )
unfolding remove_tenant_secrets exec
remove_tenant_secrets-ok nm d fine = rw (fine d.statements) refl

no_tenant : (nm : String) (r : Row) → same ("tenant", nm) (key r) ≡ true → belongs_to nm r ≡ false
unfolding belongs_to
no_tenant nm r h = ground (arith, eq_iff "tenant" r.type, eq_iff r.type "tenant")

module _ (nm : String) (d : Db Tables) (fine : IsHealthy d) (w : IsWellFormed d.tables)
    (deleting : IsDeletingWith "tenant" nm (machines_finalizer ∷ secrets_finalizer ∷ []) d) where
  abbrev cascaded : Db Tables
  cascaded = (remove_resources_by_tenant nm d).1

  abbrev bare : Db Tables
  bare = (remove_tenant_secrets nm cascaded).1

  abbrev one_left : Result Bool × Db Tables
  one_left = remove_finalizer "tenant" nm machines_finalizer bare

  abbrev none_left : Result Bool × Db Tables
  none_left = remove_finalizer "tenant" nm secrets_finalizer one_left.1

  cascaded-IsHealthy : IsHealthy cascaded
  cascaded-IsHealthy n = rw ((remove_resources_by_tenant-Preserves nm).env d) (fine n)

  bare_lem : bare ≡ record cascaded {
    statements = suc cascaded.statements;
    tables = record cascaded.tables {
      tenant_secrets = delete_where (secret_of nm) cascaded.tables.tenant_secrets;
    };
  }
  bare_lem =
      ap (λ (r : Result (Unit {0}) × Db Tables). r.1)
        (remove_tenant_secrets-ok nm cascaded cascaded-IsHealthy)

  bare-IsHealthy : IsHealthy bare
  bare-IsHealthy n = rw bare_lem (cascaded-IsHealthy n)

  one_left-IsHealthy : IsHealthy one_left.1
  one_left-IsHealthy n =
      rw ((remove_finalizer-Preserves "tenant" nm machines_finalizer).env bare) (bare-IsHealthy n)

  -- The rows after the cascade.
  bare-select :
      (ty nm' : String)
      → select ty nm' bare.tables ≡ unless_hit (belongs_to nm) (select ty nm' d.tables)
  bare-select ty nm' =
      ap (λ (e : Db Tables). select ty nm' e.tables) bare_lem
      ∙ (remove_resources_by_tenant-exact nm d fine w).1 ty nm'

  bare-tenant : select "tenant" nm bare.tables ≡ some deleting.0
  bare-tenant =
      bare-select "tenant" nm
      ∙ rw
          (
            deleting.2,
            no_tenant nm deleting.0
                (select_row-hits (λ r. same ("tenant", nm) (key r)) _ deleting.2),
          )
          refl

  -- The tenant's row after the first removal.
  abbrev with_one : Row
  with_one = record deleting.0 {
    finalizers = without machines_finalizer deleting.0.finalizers;
    updated_at = bare.clock bare.readings;
  }

  first :
      (one_left.0 ≡ ok true)
      × ((ty nm' : String)
          → select ty nm' one_left.1.tables
            ≡ (if same ("tenant", nm) (ty, nm') then some with_one else select ty nm' bare.tables))
  first =
      remove_finalizer-remaining "tenant" nm bare bare-IsHealthy deleting.0 bare-tenant
        machines_finalizer (rw (deleting.4) refl) (inl (rw (deleting.4) (λ e. cc e)))

  second :
      (none_left.0 ≡ ok true)
      × ((ty nm' : String)
          → select ty nm' none_left.1.tables
            ≡ (if same ("tenant", nm) (ty, nm') then none else select ty nm' one_left.1.tables))
  second =
      remove_finalizer-last "tenant" nm one_left.1 one_left-IsHealthy with_one
        (first.1 "tenant" nm ∙ rw (same_self "tenant" nm) refl) secrets_finalizer
        (rw (deleting.4) refl) (deleting.3) (rw (deleting.4) refl)

  cleared-is : clear_tenant nm d ≡ (ok tt, none_left.1)
  unfolding clear_tenant
  cleared-is = rw (first.0, second.0) refl

  -- With a working database, a tenant marked as deleted that has the two finalizers is removed:
  -- its row is gone, the rows that carry its label are gone, its secrets are gone, and every
  -- other row is as it was.
  pub clear_tenant-gone :
      let r = clear_tenant nm d in
      (r.0 ≡ ok tt)
      × ((ty nm' : String)
          → select ty nm' r.1.tables ≡ (
              if same ("tenant", nm) (ty, nm')
              then none
              else unless_hit (belongs_to nm) (select ty nm' d.tables)))
      × (select_row (secret_of nm) r.1.tables.tenant_secrets ≡ none)
  clear_tenant-gone = rw cleared-is (
    refl,
    λ ty nm'. ground (arith, second.1 ty nm', first.1 ty nm', bare-select ty nm'),
    ap (λ (ts : List SecretRow). select_row (secret_of nm) ts)
          ((Keeps-remove_finalizer "tenant" nm secrets_finalizer).at one_left.1
            ∙ (Keeps-remove_finalizer "tenant" nm machines_finalizer).at bare
            ∙ ap (λ (e : Db Tables). e.tables.tenant_secrets) bare_lem)
        ∙ select_row-deleted (secret_of nm) cascaded.tables.tenant_secrets,
  )
