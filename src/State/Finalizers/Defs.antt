-- ===== src/State/Finalizers/Defs.antt =====
-- Finalizer-controlled deletion (store.go, "Finalizer Operations").
use rezuscloud.Prelude.{
  Bool, true, false, ◌&&◌, not, none, some, String, List, [], ◌∷◌, ◌++◌, ◌==◌, eqb, if◌then◌else◌,
  filter, length, any,
}
use rezuscloud.Effects.{Exec, pure, attempt, exec, now, ◌>>=◌, ◌>>◌}
use rezuscloud.State.Tables.{Tables}
use rezuscloud.State.Resources.{get_resource, remove_resource, update_rows, Loaded}

-- UPDATE resources SET finalizers = ?, updated_at = ? WHERE type = ? AND name = ?.
unfoldable pub write_finalizers : String → String → List String → Exec Tables Unit
unfolding now exec
write_finalizers ty nm finalizers = do
  at ← now
  exec (update_rows ty nm (λ r. true) (λ r. record r { finalizers = finalizers; updated_at = at }))
  pure tt

unfoldable pub add_finalizer : String → String → String → Exec Tables Unit
add_finalizer ty nm finalizer = do
  found ← get_resource ty nm
  if any (λ f. f == finalizer) found.metadata.finalizers
      then pure tt
      else write_finalizers ty nm (found.metadata.finalizers ++ finalizer ∷ [])

abbrev pub without : String → List String → List String
without finalizer = filter (λ f. not (f == finalizer))

abbrev pub is_deleting : Loaded → Bool
is_deleting found = elim found.metadata.deletion_timestamp [ none ↦ false | some _ ↦ true ]

unfoldable pub remove_finalizer : String → String → String → Exec Tables Bool
remove_finalizer ty nm finalizer = do
  found ← get_resource ty nm
  let new_finalizers = without finalizer found.metadata.finalizers
  if eqb (length new_finalizers) (length found.metadata.finalizers)
      then pure false
      else if eqb (length new_finalizers) 0 && is_deleting found
      then (do attempt (remove_resource ty nm); pure true)
      else (do write_finalizers ty nm new_finalizers; pure true)
