-- ===== src/State/Amend.antt =====
-- The UPDATE that is followed by a reload: UpdateResource, UpdateStatus and DeleteResource of
-- store.go all end in it. Its two outcomes are lemmas, which the theorems about the three use.
use rezuscloud.Prelude.{ℕ, suc, ◌≡◌, Bool, true, false, some, String, arith, eqb, if◌then◌else◌}
use rezuscloud.Effects.{Db, ok, err, Error, Exec, raise, context, exec, ◌>>=◌}
use rezuscloud.Sql.Keyed.{affected}
use rezuscloud.State.Types.{Metadata}
use rezuscloud.State.Tables.{Tables, Row, ResourceEvent, key, same, select, metadata_of, notify}
use rezuscloud.State.Resources.{update_rows, update_resource_metadata_and_publish}
use rezuscloud.State.WellFormed.{IsWellFormed}
use rezuscloud.State.Rows.{
  affected-update_rows, update_rows-none, update_rows-one, select-update_rows_self,
}

-- No statement of the run fails.
abbrev pub IsHealthy : Db Tables → Type 0
IsHealthy d = (n : ℕ) → d.faulty n ≡ false

abbrev pub event_of : String → String → String → Row → ResourceEvent
event_of event_type mutation ty r = record {
  type = event_type;
  mutation = mutation;
  resource_type = ty;
  metadata = metadata_of r;
  spec = some r.spec;
  status = some r.status;
}

pub reload_lem :
    (event_type mutation ty nm : String) (d : Db Tables) (r : Row)
    → d.faulty d.statements ≡ false
    → select ty nm d.tables ≡ some r
    → update_resource_metadata_and_publish event_type mutation ty nm d ≡ (
      ok (metadata_of r),
      record d {
        statements = suc d.statements;
        tables = notify (event_of event_type mutation ty r) d.tables;
      },
    )
unfolding update_resource_metadata_and_publish
reload_lem event_type mutation ty nm d r fine found = rw (fine, found)

module _ (failure : String) (missed : Error) (event_type mutation ty nm : String) where
  abbrev pub amend_row : (Row → Bool) → (Row → Row) → Exec Tables Metadata
  amend_row extra f = do
    rows_affected ← context failure (exec (update_rows ty nm extra f))
    if eqb rows_affected 0
        then raise missed
        else update_resource_metadata_and_publish event_type mutation ty nm

  module _ (extra : Row → Bool) (f : Row → Row) (d : Db Tables) (w : IsWellFormed d.tables)
      (fine : IsHealthy d) where
    pub amend_row-missed :
        affected key same extra (select ty nm d.tables) ≡ 0
        → amend_row extra f d ≡ (err missed, record d { statements = suc d.statements })
    unfolding exec
    amend_row-missed h = ground (
      arith,
      fine d.statements,
      affected-update_rows ty nm extra f d.tables w,
      update_rows-none ty nm extra f d.tables w,
    )

    pub amend_row-hit :
        (r : Row)
        → ((r : Row) → key (f r) ≡ key r)
        → select ty nm d.tables ≡ some r
        → extra r ≡ true
        → amend_row extra f d ≡ (
          ok (metadata_of (f r)),
          record d {
            statements = suc (suc d.statements);
            tables =
                notify
                  (event_of event_type mutation ty (f r))
                  (update_rows ty nm extra f d.tables).1;
          },
        )
    unfolding exec
    amend_row-hit r keeps found passes =
        rw (fine d.statements, update_rows-one ty nm extra f d.tables r found passes w)
          (reload_lem event_type mutation ty nm
            (record d {
              statements = suc d.statements;
              tables = (update_rows ty nm extra f d.tables).1;
            })
            (f r) (fine _) (select-update_rows_self ty nm extra f d.tables r found passes keeps))
