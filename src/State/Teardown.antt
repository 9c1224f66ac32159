-- ===== src/State/Teardown.antt =====
-- Deletion of a tenant (DeleteTenant and RemoveFinalizer in store.go): its row, and the two
-- finalizers that hold it.
use rezuscloud.Prelude.{
  ℕ, ◌≡◌, refl, ◌∙◌, inl, true, false, none, some, String, List, [], ◌∷◌, ◌++◌, arith, ◌==◌, eq_iff,
  any,
}
use rezuscloud.Effects.{Db, Result}
use rezuscloud.Effects.Keeps.{Keeps}
use rezuscloud.State.Tables.{Tables, Row, select}
use rezuscloud.State.Resources.{delete_resource}
use rezuscloud.State.Finalizers.{add_finalizer, remove_finalizer, without}
use rezuscloud.State.Finalizers.Invariant.{add_finalizer-Preserves, remove_finalizer-Preserves}
use rezuscloud.State.WellFormed.{IsWellFormed, delete_resource-Preserves}
use rezuscloud.State.Rows.{same_self}
use rezuscloud.State.Amend.{IsHealthy}
use rezuscloud.State.Lifecycle.{
  marked, delete_resource-live, add_finalizer-absent, remove_finalizer-last,
  remove_finalizer-remaining,
}
use rezuscloud.State.Tenants.{delete_tenant}

-- The resource is there, marked as deleted, with these finalizers.
abbrev pub IsDeletingWith : String → String → List String → Db Tables → Type 0
IsDeletingWith ty nm fs d =
    (r : Row) × (at : ℕ) × (select ty nm d.tables ≡ some r)
    × (r.deletion_timestamp ≡ some at)
    × (r.finalizers ≡ fs)

module _ (ty nm : String) where
  IsHealthy-after :
      {A : Type 0} {R : Tables → Tables → Type 0} {m : Db Tables → Result A × Db Tables}
      (d : Db Tables)
      → Keeps R m
      → IsHealthy d
      → IsHealthy (m d).1
  IsHealthy-after d k fine = rw (k.env d) fine

  marked_by_delete :
      (d : Db Tables)
      → IsHealthy d
      → IsWellFormed d.tables
      → (r : Row) → select ty nm d.tables ≡ some r
      → r.deletion_timestamp ≡ none
      → IsDeletingWith ty nm r.finalizers (delete_resource ty nm d).1
  marked_by_delete d fine w r found live = (
    marked (d.clock d.readings) r,
    d.clock d.readings,
    (delete_resource-live ty nm d fine w r found live).1 ty nm ∙ rw (same_self ty nm) refl,
    refl,
    refl,
  )

  grown_by_add :
      (d : Db Tables)
      → IsHealthy d
      → (f : String) (fs : List String) → any (λ g. g == f) fs ≡ false
      → IsDeletingWith ty nm fs d
      → IsDeletingWith ty nm (fs ++ f ∷ []) (add_finalizer ty nm f d).1
  grown_by_add d fine f fs absent (r, at, found, deleting, has) = (
    record r { finalizers = r.finalizers ++ f ∷ []; updated_at = d.clock d.readings },
    at,
    (add_finalizer-absent ty nm f d fine r found (rw has absent)).1 ty nm
        ∙ rw (same_self ty nm) refl,
    deleting,
    rw has refl,
  )

  shrunk_by_remove :
      (d : Db Tables)
      → IsHealthy d
      → (f g : String) (fs : List String) → any (λ h. h == f) fs ≡ true
      → without f fs ≡ g ∷ []
      → IsDeletingWith ty nm fs d
      → IsDeletingWith ty nm (g ∷ []) (remove_finalizer ty nm f d).1
  shrunk_by_remove d fine f g fs present left (r, at, found, deleting, has) = (
    record r { finalizers = without f r.finalizers; updated_at = d.clock d.readings },
    at,
    (remove_finalizer-remaining ty nm d fine r found f (rw has present)
            (inl (rw (has, left) (λ e. cc e)))).1
          ty nm
        ∙ rw (same_self ty nm) refl,
    deleting,
    rw has left,
  )

  gone_by_remove :
      (d : Db Tables)
      → IsHealthy d
      → (f : String) → IsDeletingWith ty nm (f ∷ []) d
      → select ty nm (remove_finalizer ty nm f d).1.tables ≡ none
  gone_by_remove d fine f (r, at, found, deleting, has) =
      (remove_finalizer-last ty nm d fine r found f (rw has (ground (arith, eq_iff f f))) deleting
          (rw has (ground (arith, eq_iff f f)))).1
        ty nm
      ∙ rw (same_self ty nm) refl

abbrev pub machines_finalizer : String
machines_finalizer = "rezuscloud.io/machines"

abbrev pub secrets_finalizer : String
secrets_finalizer = "rezuscloud.io/secrets"

abbrev pub remove_from : String → String → Db Tables → Db Tables
remove_from nm f d = (remove_finalizer "tenant" nm f d).1

module _ (nm : String) (d : Db Tables) (fine : IsHealthy d) (w : IsWellFormed d.tables) (r : Row)
    (found : select "tenant" nm d.tables ≡ some r) (live : r.deletion_timestamp ≡ none)
    (bare : r.finalizers ≡ []) where
  abbrev deleted : Db Tables
  deleted = (delete_resource "tenant" nm d).1

  abbrev one_added : Db Tables
  one_added = (add_finalizer "tenant" nm machines_finalizer deleted).1

  abbrev both_added : Db Tables
  both_added = (add_finalizer "tenant" nm secrets_finalizer one_added).1

  delete_tenant-steps : (delete_tenant nm d).1 ≡ both_added
  unfolding delete_tenant
  delete_tenant-steps = rw ((delete_resource-live "tenant" nm d fine w r found live).0) refl

  deleted-IsHealthy : IsHealthy deleted
  deleted-IsHealthy = IsHealthy-after "tenant" nm d (delete_resource-Preserves "tenant" nm) fine

  one_added-IsHealthy : IsHealthy one_added
  one_added-IsHealthy =
      IsHealthy-after "tenant" nm deleted (add_finalizer-Preserves "tenant" nm machines_finalizer)
        deleted-IsHealthy

  both_added-IsHealthy : IsHealthy both_added
  both_added-IsHealthy =
      IsHealthy-after "tenant" nm one_added (add_finalizer-Preserves "tenant" nm secrets_finalizer)
        one_added-IsHealthy

  both_added_lem :
      IsDeletingWith "tenant" nm (machines_finalizer ∷ secrets_finalizer ∷ []) both_added
  both_added_lem =
      grown_by_add "tenant" nm one_added one_added-IsHealthy secrets_finalizer
        (machines_finalizer ∷ []) refl
        (grown_by_add "tenant" nm deleted deleted-IsHealthy machines_finalizer [] refl
          (rw bare at (marked_by_delete "tenant" nm d fine w r found live)))

  -- Take a well-formed store on which no statement fails, and a tenant that is not deleted yet and
  -- has no finalizer. DeleteTenant leaves its row, marked, with the two finalizers. When one of
  -- the two has been removed, whichever it is, the row is still there with the other; when both
  -- have, it is gone.
  pub tenant_teardown :
      let d' = (delete_tenant nm d).1 in
      IsDeletingWith "tenant" nm (machines_finalizer ∷ secrets_finalizer ∷ []) d'
      × IsDeletingWith "tenant" nm (secrets_finalizer ∷ []) (remove_from nm machines_finalizer d')
      × IsDeletingWith "tenant" nm (machines_finalizer ∷ []) (remove_from nm secrets_finalizer d')
      × (select "tenant" nm
            (remove_from nm secrets_finalizer (remove_from nm machines_finalizer d')).tables
          ≡ none)
      × (select "tenant" nm
            (remove_from nm machines_finalizer (remove_from nm secrets_finalizer d')).tables
          ≡ none)
  tenant_teardown = rw delete_tenant-steps (
    both_added_lem,
    without_machines,
    without_secrets,
    gone_by_remove "tenant" nm _ (still_healthy machines_finalizer) secrets_finalizer
        without_machines,
    gone_by_remove "tenant" nm _ (still_healthy secrets_finalizer) machines_finalizer
        without_secrets,
  )
    where
      still_healthy : (f : String) → IsHealthy (remove_from nm f both_added)
      still_healthy f =
          IsHealthy-after "tenant" nm both_added (remove_finalizer-Preserves "tenant" nm f)
            both_added-IsHealthy

      without_machines :
          IsDeletingWith "tenant" nm
            (secrets_finalizer ∷ [])
            (remove_from nm machines_finalizer both_added)
      without_machines =
          shrunk_by_remove "tenant" nm both_added both_added-IsHealthy machines_finalizer
            secrets_finalizer _ refl refl both_added_lem

      without_secrets :
          IsDeletingWith "tenant" nm
            (machines_finalizer ∷ [])
            (remove_from nm secrets_finalizer both_added)
      without_secrets =
          shrunk_by_remove "tenant" nm both_added both_added-IsHealthy secrets_finalizer
            machines_finalizer _ refl refl both_added_lem
