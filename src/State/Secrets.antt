-- ===== src/State/Secrets.antt =====
-- The secrets bundles of tenants (SaveTenantSecrets, LoadTenantSecrets and RemoveTenantSecrets in
-- store.go) as a map from names to bundles.
use mathlib.Core.Option
use mathlib.Core.Path.{fun_ext}
use rezuscloud.Prelude.{
  ℕ, ◌≡◌, refl, ◌∙◌, inl, inr, Bool, true, false, Option, none, some, String, List, [], ◌∷◌, ◌++◌,
  arith, ◌==◌, eq_iff, if◌then◌else◌, Bool-cases, Option-cases,
}
use rezuscloud.Sql.{select_row, delete_where, update_where}
use rezuscloud.Effects.{Db, Result, ok, err, exec, now, query}
use rezuscloud.State.Tables.{Tables, SecretRow}
use rezuscloud.State.Tenants.{
  secret_of, upsert_secret, save_tenant_secrets, load_tenant_secrets, remove_tenant_secrets,
  scanned_bundle,
}

-- What a caller sees of the table.
abbrev pub Bundles : Type 0
Bundles = String → Option (List ℕ)

abbrev pub bundle_of : String → List SecretRow → Option (List ℕ)
bundle_of nm rows = Option.map (λ (r : SecretRow). r.bundle) (select_row (secret_of nm) rows)

abbrev pub view : Tables → Bundles
view t nm = bundle_of nm t.tenant_secrets

abbrev pub put : String → Option (List ℕ) → Bundles → Bundles
put nm o m = λ nm'. if nm == nm' then o else m nm'

pub data SecretsCall : Type 0 where
  save_call : String → List ℕ → SecretsCall
  load_call remove_call : String → SecretsCall

-- `failed` is any error.
pub data Reply : Type 0 where
  done failed : Reply
  loaded : Option (List ℕ) → Reply

-- The map's own operations.
abbrev pub specified : SecretsCall → Bundles → Reply × Bundles
specified (save_call nm bundle) m = (done, put nm (some bundle) m)
specified (load_call nm) m = (loaded (m nm), m)
specified (remove_call nm) m = (done, put nm none m)

abbrev pub done_or_failed : Result (Unit {0}) → Reply
done_or_failed (ok u) = done
done_or_failed (err e) = failed

abbrev pub loaded_or_failed : Result (Option (List ℕ)) → Reply
loaded_or_failed (ok o) = loaded o
loaded_or_failed (err e) = failed

-- The store's.
abbrev pub served : SecretsCall → Db Tables → Reply × Db Tables
served (save_call nm bundle) d =
    (done_or_failed (save_tenant_secrets nm bundle d).0, (save_tenant_secrets nm bundle d).1)
served (load_call nm) d =
    (loaded_or_failed (load_tenant_secrets nm d).0, (load_tenant_secrets nm d).1)
served (remove_call nm) d =
    (done_or_failed (remove_tenant_secrets nm d).0, (remove_tenant_secrets nm d).1)

-- A call, whether its statement failed, and the reply.
abbrev pub Served : Type 0
Served = SecretsCall × (Bool × Reply)

unfoldable pub serve_all : List SecretsCall → Db Tables → List Served × Db Tables
serve_all [] d = ([], d)
serve_all (c ∷ calls) d =
    let rest = serve_all calls (served c d).1 in
    ((c, (d.faulty d.statements, (served c d).0)) ∷ rest.0, rest.1)

-- The reply is the map's, but for a call whose statement failed, which has left it as it was.
abbrev pub Agrees : SecretsCall → Bool → Reply → Bundles → Bundles → Type 0
Agrees c true r m m' = (r ≡ failed) × (m' ≡ m)
Agrees c false r m m' = (r ≡ (specified c m).0) × (m' ≡ (specified c m).1)

abbrev pub Replays : List Served → Bundles → Bundles → Type 0
Replays [] m m' = m' ≡ m
Replays ((c, (b, r)) ∷ t) m m' = (n : Bundles) × Agrees c b r m n × Replays t n m'

bundle_of-update :
    (nm nm' : String) (bundle : List ℕ) (at : ℕ) (rows : List SecretRow)
    → bundle_of nm'
        (update_where (secret_of nm) (λ r. record r { bundle = bundle; created_at = at }) rows)
      ≡ (if nm == nm'
          then Option.map (λ _. bundle) (select_row (secret_of nm) rows)
          else bundle_of nm' rows)
unfolding select_row update_where
bundle_of-update nm nm' bundle at [] = ground arith
bundle_of-update nm nm' bundle at (r ∷ rows) = ground (
  arith,
  bundle_of-update nm nm' bundle at rows,
  eq_iff nm r.tenant_name,
  eq_iff nm' r.tenant_name,
  eq_iff nm nm',
)

bundle_of-delete :
    (nm nm' : String) (rows : List SecretRow)
    → bundle_of nm' (delete_where (secret_of nm) rows)
      ≡ (if nm == nm' then none else bundle_of nm' rows)
unfolding select_row delete_where
bundle_of-delete nm nm' [] = ground arith
bundle_of-delete nm nm' (r ∷ rows) = ground (
  arith,
  bundle_of-delete nm nm' rows,
  eq_iff nm r.tenant_name,
  eq_iff nm' r.tenant_name,
  eq_iff nm nm',
)

bundle_of-append :
    (nm nm' : String) (r : SecretRow) (rows : List SecretRow)
    → r.tenant_name ≡ nm
    → select_row (secret_of nm) rows ≡ none
    → bundle_of nm' (rows ++ r ∷ []) ≡ (if nm == nm' then some r.bundle else bundle_of nm' rows)
unfolding select_row
bundle_of-append nm nm' r [] named free = ground (arith, named, eq_iff nm' nm, eq_iff nm nm')
bundle_of-append nm nm' r (s ∷ rows) named free = ground (
  arith,
  named,
  bundle_of-append nm nm' r rows,
  eq_iff nm s.tenant_name,
  eq_iff nm' s.tenant_name,
  eq_iff nm nm',
)

view-upsert :
    (row : SecretRow) (t : Tables)
    → view (upsert_secret row t).1 ≡ put row.tenant_name (some row.bundle) (view t)
unfolding upsert_secret
view-upsert row t = fun_ext (λ nm'.
    elim (Option-cases (select_row (secret_of row.tenant_name) t.tenant_secrets)) [
      | inl free ↦
          rw (upsert_secret, free)
            (bundle_of-append row.tenant_name nm' row t.tenant_secrets refl free)
      | inr (r, there) ↦
          rw (upsert_secret, there)
            (bundle_of-update row.tenant_name nm' row.bundle row.created_at t.tenant_secrets
              ∙ rw there refl)
    ])

served-Agrees :
    (c : SecretsCall) (d : Db Tables)
    → Agrees c (d.faulty d.statements) (served c d).0 (view d.tables) (view (served c d).1.tables)
unfolding save_tenant_secrets load_tenant_secrets remove_tenant_secrets scanned_bundle exec query
    now
served-Agrees (save_call nm bundle) d = elim (Bool-cases (d.faulty d.statements)) [
  | inl e ↦ rw e (refl, refl)
  | inr e ↦ rw e (refl, view-upsert _ d.tables)
]
served-Agrees (remove_call nm) d = elim (Bool-cases (d.faulty d.statements)) [
  | inl e ↦ rw e (refl, refl)
  | inr e ↦ rw e (refl, fun_ext (λ nm'. bundle_of-delete nm nm' d.tables.tenant_secrets))
]
served-Agrees (load_call nm) d = elim (Bool-cases (d.faulty d.statements)) [
  | inl e ↦ rw e (refl, refl)
  | inr e ↦ elim (Option-cases (select_row (secret_of nm) d.tables.tenant_secrets)) [
    | inl free ↦ rw (e, free) (refl, refl)
    | inr (r, there) ↦ rw (e, there) (refl, refl)
  ]
]

-- Any calls on the secrets of tenants, whatever statements fail, have the replies of a map from
-- names to bundles and leave the map's content; a call fails exactly where its statement fails,
-- and then counts as not made.
pub serve_all-Replays :
    (calls : List SecretsCall) (d : Db Tables)
    → Replays (serve_all calls d).0 (view d.tables) (view (serve_all calls d).1.tables)
unfolding serve_all
serve_all-Replays [] d = refl
serve_all-Replays (c ∷ calls) d =
    (view (served c d).1.tables, served-Agrees c d, serve_all-Replays calls (served c d).1)
