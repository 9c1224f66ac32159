-- ===== src/State/Concurrency.antt =====
-- Optimistic concurrency (UpdateResource in store.go): the version in the condition of the UPDATE.
use rezuscloud.Prelude.{
  ℕ, suc, ◌+◌, ◌≡◌, ◌≢◌, refl, ◌∙◌, inl, inr, Bool, false, Option, some, String, arith, ap, eqb_iff,
  eqb, Option-cases,
}
use rezuscloud.Maps.{StringMap}
use rezuscloud.Effects.{Db, Result, ok, err, err_conflict, now}
use rezuscloud.State.Types.{Metadata}
use rezuscloud.Sql.Keyed.{affected}
use rezuscloud.State.Tables.{Tables, Row, key, notify, same, select, metadata_of, mutation_spec}
use rezuscloud.State.Resources.{update_resource, update_rows}
use rezuscloud.State.WellFormed.{IsWellFormed, update_resource-Preserves}
use rezuscloud.State.Rows.{select-update_rows, select-update_rows_self}
use rezuscloud.State.Amend.{IsHealthy, event_of, amend_row-missed, amend_row-hit}

-- The row that the UPDATE leaves.
abbrev pub written : String → StringMap → StringMap → ℕ → Row → Row
written text labels annotations at r = record r {
  spec = text;
  labels = labels;
  annotations = annotations;
  updated_at = at;
  version = r.version + 1;
}

module _ (ty nm : String) (v : ℕ) (text : String) (labels annotations : StringMap) where
  abbrev at_version : Row → Bool
  at_version r = eqb r.version v

  abbrev pub write : Db Tables → Result Metadata × Db Tables
  write d = update_resource ty nm v (some text) labels annotations d

  module _ (d : Db Tables) (w : IsWellFormed d.tables) (fine : IsHealthy d) where
    abbrev started : Db Tables
    started = record d { readings = suc d.readings }

    abbrev update : Row → Row
    update = written text labels annotations (d.clock d.readings)

    write-missed :
        affected key same at_version (select ty nm d.tables) ≡ 0
        → write d ≡ (err err_conflict, record started { statements = suc d.statements })
    unfolding update_resource now
    write-missed h =
        amend_row-missed "update resource" err_conflict "MODIFIED" mutation_spec ty nm at_version
          update started w fine h

    pub write-hit :
        (r : Row)
        → select ty nm d.tables ≡ some r
        → r.version ≡ v
        → write d ≡ (
          ok (metadata_of (update r)),
          record started {
            statements = suc (suc d.statements);
            tables =
                notify
                  (event_of "MODIFIED" mutation_spec ty (update r))
                  (update_rows ty nm at_version update d.tables).1;
          },
        )
    unfolding update_resource now
    write-hit r found fresh =
        amend_row-hit "update resource" err_conflict "MODIFIED" mutation_spec ty nm at_version
          update started w fine r (λ _. refl) found ((eqb_iff r.version v).1 fresh)

    none_at_version :
        ((r : Row) → select ty nm d.tables ≡ some r → r.version ≢ v)
        → affected key same at_version (select ty nm d.tables) ≡ 0
    none_at_version old = elim (Option-cases (select ty nm d.tables)) [
      | inl missing ↦ rw missing
      | inr (r, found) ↦ rw found (ground (arith, old r found))
    ]

    -- At another version, or where there is no such resource, the write is refused with
    -- ErrConflict and no table changes.
    pub update_resource-stale :
        ((r : Row) → select ty nm d.tables ≡ some r → r.version ≢ v)
        → ((write d).0 ≡ err err_conflict) × ((write d).1.tables ≡ d.tables)
    update_resource-stale old = rw (write-missed (none_at_version old)) (refl, refl)

    -- At the version that is stored, the write returns the new metadata, its row stands under the
    -- key, and every other resource is as before.
    pub update_resource-fresh :
        (r : Row)
        → select ty nm d.tables ≡ some r
        → r.version ≡ v
        → ((write d).0 ≡ ok (metadata_of (update r)))
          × (select ty nm (write d).1.tables ≡ some (update r))
          × ((ty' nm' : String)
              → same (ty, nm) (ty', nm') ≡ false
              → select ty' nm' (write d).1.tables ≡ select ty' nm' d.tables)
    update_resource-fresh r found fresh = rw (write-hit r found fresh) (
      refl,
      select-update_rows_self ty nm at_version update d.tables r found
          ((eqb_iff r.version v).1 fresh) (λ _. refl),
      λ ty' nm' other.
          select-update_rows ty nm at_version update d.tables (λ _. refl) ty' nm' ∙ rw other refl,
    )

    write-IsHealthy :
        (r : Row) → select ty nm d.tables ≡ some r → r.version ≡ v → IsHealthy (write d).1
    write-IsHealthy r found fresh = rw (write-hit r found fresh) fine

newer :
    (o : Option Row) (r s r' : Row)
    → o ≡ some s
    → o ≡ some r'
    → {v : ℕ} → r.version ≡ v
    → s.version ≡ r.version + 1
    → r'.version ≢ v
newer o r s r' stored found same_before grown same_after = ground arith

-- Two writers that read one version: the write that comes first stands, and the second is refused
-- and changes nothing. No update is lost.
pub update_resource-exactly_one :
    (ty nm : String) (v : ℕ) (text text' : String)
    (labels labels' annotations annotations' : StringMap) (d : Db Tables)
    → IsWellFormed d.tables
    → IsHealthy d
    → (r : Row) → select ty nm d.tables ≡ some r
    → r.version ≡ v
    → let first = write ty nm v text labels annotations d in
      let second = write ty nm v text' labels' annotations' first.1 in
      ((md : Metadata) × (first.0 ≡ ok md) × (md.resource_version ≡ v + 1))
      × ((second.0 ≡ err err_conflict) × (second.1.tables ≡ first.1.tables))
unfolding metadata_of
update_resource-exactly_one ty nm v text text' labels labels' annotations annotations' d w fine r
      found fresh =
    let (done, stored, others) =
      update_resource-fresh ty nm v text labels annotations d w fine r found fresh in
    (
      (
        metadata_of (written text labels annotations (d.clock d.readings) r),
        done,
        ap (λ n. n + 1) fresh,
      ),
      update_resource-stale ty nm v text' labels' annotations'
          (write ty nm v text labels annotations d).1
          ((update_resource-Preserves ty nm v (some text) labels annotations).at d w)
          (write-IsHealthy ty nm v text labels annotations d w fine r found fresh)
          (λ r' found' same_version. newer _ r _ r' stored found' fresh refl same_version),
    )
