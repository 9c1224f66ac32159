-- ===== src/State/Lifecycle.antt =====
-- The life of a resource (store.go): soft deletion, finalizers, and the removal of the row.
use rezuscloud.Prelude.{
  ℕ, suc, ◌≡◌, refl, ◌∙◌, inl, inr, Bool, true, false, not, ◌&&◌, none, some, String, List, [], ◌∷◌,
  ◌++◌, arith, ◌==◌, any, Option-cases, if◌then◌else◌, length, length-filter, eqb, eqb_iff, ◌≢◌,
  ◌<◌, ◌⊎◌,
}
use rezuscloud.Sql.Keyed.{affected}
use rezuscloud.Effects.{Db, Result, ok, err, err_not_found, exec, now}
use rezuscloud.State.Tables.{Tables, Row, key, same, select, metadata_of, mutation_delete, publish}
use rezuscloud.State.Resources.{
  update_rows, delete_row, remove_resource, delete_resource, is_live, announce_removal,
}
use rezuscloud.State.WellFormed.{IsWellFormed}
use rezuscloud.State.Rows.{select-update_rows, select-delete_row}
use rezuscloud.State.Amend.{IsHealthy, amend_row-missed, amend_row-hit}
use rezuscloud.State.Finalizers.{
  write_finalizers, add_finalizer, remove_finalizer, without, is_deleting,
}
use rezuscloud.State.Finalizers.Invariant.{get_resource_lem, loaded}

length-without :
    (f : String) (fs : List String)
    → any (λ g. g == f) fs ≡ false
    → length (without f fs) ≡ length fs
length-without f [] absent = refl
length-without f (g ∷ fs) absent = ground (arith, length-without f fs)

length-without_lt :
    (f : String) (fs : List String)
    → any (λ g. g == f) fs ≡ true
    → length (without f fs) < length fs
length-without_lt f [] present = absurd (ground arith)
length-without_lt f (g ∷ fs) present =
    ground (arith, length-without_lt f fs, length-filter (λ h. not (h == f)) fs)

module _ (ty nm : String) (d : Db Tables) (fine : IsHealthy d) (r : Row)
    (found : select ty nm d.tables ≡ some r) where
  remove_resource-resources :
      (remove_resource ty nm d).1.tables.resources ≡ (delete_row ty nm d.tables).1.resources
  unfolding remove_resource announce_removal publish exec metadata_of delete_row
  remove_resource-resources =
      rw (get_resource_lem ty nm d (fine _), found)
        (ground (arith, fine d.statements, fine (suc d.statements)))

  -- RemoveResource removes the row, and no other.
  pub select-remove_resource :
      (ty' nm' : String)
      → select ty' nm' (remove_resource ty nm d).1.tables
        ≡ (if same (ty, nm) (ty', nm') then none else select ty' nm' d.tables)
  select-remove_resource ty' nm' =
      rw (remove_resource-resources) (select-delete_row ty nm ty' nm' d.tables)

module _ (ty nm : String) (d : Db Tables) (fine : IsHealthy d) (r : Row)
    (found : select ty nm d.tables ≡ some r) where
  module _ (f : String) where
    abbrev pub removal : Result Bool × Db Tables
    removal = remove_finalizer ty nm f d

    -- A finalizer that is not there: `false`, and no table changes.
    pub remove_finalizer-absent :
        any (λ g. g == f) r.finalizers ≡ false
        → (removal.0 ≡ ok false) × (removal.1.tables ≡ d.tables)
    unfolding remove_finalizer metadata_of
    remove_finalizer-absent absent =
        rw
          (
            get_resource_lem ty nm d (fine _),
            found,
            (eqb_iff (length (without f r.finalizers)) (length r.finalizers)).1
                (length-without f r.finalizers absent),
          )
          (refl, refl)

    module _ (present : any (λ g. g == f) r.finalizers ≡ true) where
      shorter : eqb (length (without f r.finalizers)) (length r.finalizers) ≡ false
      shorter = ground (arith, length-without_lt f r.finalizers present)

      not_last :
          (without f r.finalizers ≢ []) ⊎ (r.deletion_timestamp ≡ none)
          → (eqb (length (without f r.finalizers)) 0 && is_deleting (loaded r)) ≡ false
      unfolding metadata_of
      not_last kept = ground arith

      -- The last finalizer of a resource that is being deleted: the row is removed, and no other.
      pub remove_finalizer-last :
          {at : ℕ}
          → r.deletion_timestamp ≡ some at
          → without f r.finalizers ≡ []
          → (removal.0 ≡ ok true)
            × ((ty' nm' : String)
                → select ty' nm' removal.1.tables
                  ≡ (if same (ty, nm) (ty', nm') then none else select ty' nm' d.tables))
      unfolding remove_finalizer metadata_of
      remove_finalizer-last deleting last =
          rw (get_resource_lem ty nm d (fine _), found, shorter, last, deleting)
            (
              refl,
              select-remove_resource ty nm (record d { statements = suc d.statements }) fine r
                  found,
            )

      -- Any other: the row stays, with the other finalizers in their order.
      pub remove_finalizer-remaining :
          (without f r.finalizers ≢ []) ⊎ (r.deletion_timestamp ≡ none)
          → (removal.0 ≡ ok true)
            × ((ty' nm' : String)
                → select ty' nm' removal.1.tables ≡ (
                    if same (ty, nm) (ty', nm')
                    then some (record r {
                      finalizers = without f r.finalizers;
                      updated_at = d.clock d.readings;
                    })
                    else select ty' nm' d.tables))
      unfolding remove_finalizer metadata_of write_finalizers update_rows
      remove_finalizer-remaining kept =
          rw
            (
              get_resource_lem ty nm d (fine _),
              found,
              shorter,
              not_last kept,
              fine (suc d.statements),
            )
            (
              refl,
              λ ty' nm'.
                  select-update_rows ty nm (λ _. true) _ d.tables (λ _. refl) ty' nm'
                  ∙ rw found refl,
            )

-- The row after the first deletion.
abbrev pub marked : ℕ → Row → Row
marked at r = record r { deletion_timestamp = some at; updated_at = at }

module _ (ty nm : String) (d : Db Tables) (fine : IsHealthy d) (w : IsWellFormed d.tables) where
  -- Deletion marks a live row and keeps it, with its finalizers.
  pub delete_resource-live :
      (r : Row)
      → select ty nm d.tables ≡ some r
      → r.deletion_timestamp ≡ none
      → ((delete_resource ty nm d).0 ≡ ok (metadata_of (marked (d.clock d.readings) r)))
        × ((ty' nm' : String)
            → select ty' nm' (delete_resource ty nm d).1.tables ≡ (
                if same (ty, nm) (ty', nm')
                then some (marked (d.clock d.readings) r)
                else select ty' nm' d.tables))
  unfolding delete_resource now
  delete_resource-live r found live =
      rw
        (amend_row-hit "delete resource" err_not_found "DELETED" mutation_delete ty nm is_live
          (marked (d.clock d.readings)) (record d { readings = suc d.readings }) w fine r
          (λ _. refl) found (rw live refl))
        (
          refl,
          λ ty' nm'.
              select-update_rows ty nm is_live (marked (d.clock d.readings)) d.tables (λ _. refl)
                ty' nm'
              ∙ rw (found, live) refl,
        )

  -- A resource that is deleted already, or is not there, is reported as not found, and no table
  -- changes.
  pub delete_resource-again :
      ((r : Row) → select ty nm d.tables ≡ some r → is_live r ≡ false)
      → ((delete_resource ty nm d).0 ≡ err err_not_found)
        × ((delete_resource ty nm d).1.tables ≡ d.tables)
  unfolding delete_resource now
  delete_resource-again gone =
      rw
        (amend_row-missed "delete resource" err_not_found "DELETED" mutation_delete ty nm is_live
          (marked (d.clock d.readings)) (record d { readings = suc d.readings }) w fine none_live)
        (refl, refl)
    where
      none_live : affected key same is_live (select ty nm d.tables) ≡ 0
      none_live = elim (Option-cases (select ty nm d.tables)) [
        | inl missing ↦ rw missing refl
        | inr (r, found) ↦ rw (found, affected, gone r found) refl
      ]

module _ (ty nm f : String) (d : Db Tables) (fine : IsHealthy d) (r : Row)
    (found : select ty nm d.tables ≡ some r) where
  abbrev pub addition : Result (Unit {0}) × Db Tables
  addition = add_finalizer ty nm f d

  -- A finalizer that is there already is not added twice.
  pub add_finalizer-present :
      any (λ g. g == f) r.finalizers ≡ true → (addition.0 ≡ ok tt) × (addition.1.tables ≡ d.tables)
  unfolding add_finalizer metadata_of
  add_finalizer-present present =
      rw (get_resource_lem ty nm d (fine _), found, present) (refl, refl)

  -- A new finalizer is appended to those of the row, and every other resource is as before.
  pub add_finalizer-absent :
      any (λ g. g == f) r.finalizers ≡ false
      → (addition.0 ≡ ok tt)
        × ((ty' nm' : String)
            → select ty' nm' addition.1.tables ≡ (
                if same (ty, nm) (ty', nm')
                then some (record r {
                  finalizers = r.finalizers ++ f ∷ [];
                  updated_at = d.clock d.readings;
                })
                else select ty' nm' d.tables))
  unfolding add_finalizer metadata_of write_finalizers update_rows
  add_finalizer-absent absent =
      rw (get_resource_lem ty nm d (fine _), found, absent, fine (suc d.statements))
        (
          refl,
          λ ty' nm'.
              select-update_rows ty nm (λ _. true) _ d.tables (λ _. refl) ty' nm' ∙ rw found refl,
        )
