-- ===== src/Reconcile/Order.antt =====
-- The order of the commands of an apply (Apply and destroy in internal/reconcile/applier.go).
use mathlib.Core.List.{append-nil}
use rezuscloud.Prelude.{
  sym, ◌∙◌, ℕ, ◌≡◌, refl, inl, inr, Bool, true, false, Option, some, String, List, [], ◌∷◌, ◌++◌,
  if◌then◌else◌, Bool-cases,
}
use rezuscloud.Effects.{Db, Result, ok, err, Exec, context, pure, ◌>>=◌, ◌>>◌}
use rezuscloud.Effects.Keeps.{
  Keeps, keeps_rules, Keeps-pure, Keeps-Anything, Anything-preorder, Anything,
}
use rezuscloud.State.Types.{Tenant, Machine}
use rezuscloud.State.Resources.{remove_resources_by_tenant}
use rezuscloud.State.WellFormed.{remove_resources_by_tenant-Preserves}
use rezuscloud.State.Finalizers.{remove_finalizer}
use rezuscloud.State.Finalizers.Invariant.{remove_finalizer-Preserves}
use rezuscloud.State.Tenants.{get_tenant, remove_tenant_secrets}
use rezuscloud.State.Machines.{list_machines_by_tenant}
use rezuscloud.Tfexec.{run}
use rezuscloud.Tfexec.World.{World, Command, tofu, upgrade, in_store}
use rezuscloud.Tfexec.Trace.{
  IsQuiet, IsQuiet-preorder, Traced, Emits, Emits-quiet, Emits-gets, Emits-bind, Emits-context,
  Emits-finish, Emits-from, continue_emits, Traced-from,
}
use rezuscloud.Reconcile.Applier.{
  Platform, drifts, observed_talos, run_upgrade, upgrade_drifted, upgrade_listed,
  run_upgrades_if_needed, prepare, clear_tenant, destroy, destroy_prepared, converge, apply,
  reconcile_found, is_deleting, init_args, apply_args, destroy_args,
}
use rezuscloud.State.Reads.{Keeps-get_tenant, Keeps-list_machines_by_tenant}
use rezuscloud.Reconcile.Changes.{
  Allows, amends-Anything, Keeps-in_store, Keeps-workdir, Keeps-prepare,
}

quiet : (dir : String) → Allows dir Anything IsQuiet
quiet dir = record {
  order = IsQuiet-preorder;
  store_order = Anything-preorder;
  amends = amends-Anything;
  stores = λ w t h. refl;
  sets = λ w name text. refl;
  removes = λ w name. refl;
}

pub Keeps-clear : (tenant : String) → Keeps Anything (clear_tenant tenant)
unfolding clear_tenant remove_tenant_secrets
Keeps-clear tenant = search (keeps_rules, Anything-preorder, by_tenant, removal) depth 14
  where
    by_tenant : (nm : String) → Keeps Anything (remove_resources_by_tenant nm)
    by_tenant nm = Keeps-Anything (remove_resources_by_tenant-Preserves nm)

    removal : (ty nm f : String) → Keeps Anything (remove_finalizer ty nm f)
    removal ty nm f = Keeps-Anything (remove_finalizer-Preserves ty nm f)

-- The upgrade that the machines listed call for.
abbrev pub upgrades_for : String → Tenant → Result (List Machine × ℕ) → List Command
upgrades_for tenant t (err e) = []
upgrades_for tenant t (ok (machines, n)) =
    if drifts t.spec.talos_version machines
    then upgrade tenant (observed_talos machines) t.spec.talos_version ∷ []
    else []

module _ (p : Platform) (tenant : String) where
  abbrev pub lookup_tenant : Exec World (Option Tenant)
  lookup_tenant = in_store (get_tenant p.tenant_spec p.tenant_status tenant)

  abbrev pub listing : Exec World (List Machine × ℕ)
  listing = in_store (list_machines_by_tenant p.machine_spec p.machine_status p.sqlite tenant [])

  -- The commands for a tenant.
  abbrev pub commands : Bool → Tenant → Result (List Machine × ℕ) → List Command
  commands deleting t listed =
      if deleting
      then tofu tenant init_args ∷ tofu tenant destroy_args ∷ []
      else ((if p.upgrades then upgrades_for tenant t listed else [])
          ++ tofu tenant init_args ∷ tofu tenant apply_args ∷ [])

  pub Emits-run : (args : List String) → Emits (tofu tenant args ∷ []) (run p.outside tenant args)
  unfolding run
  Emits-run args =
      Emits-bind [] (tofu tenant args ∷ []) _ _ (Emits-quiet _ (Keeps-workdir p tenant (quiet _)))
        (λ dir.
          Emits-bind [] (tofu tenant args ∷ []) _ _ (Emits-gets _)
            (λ result. Emits-finish p.outside (tofu tenant args) result))

  Emits-run_upgrade :
      (current target : String)
      → Emits (upgrade tenant current target ∷ []) (run_upgrade p tenant current target)
  unfolding run_upgrade
  Emits-run_upgrade current target =
      Emits-bind [] (upgrade tenant current target ∷ []) _ _ (Emits-gets _)
        (λ result. Emits-finish p.outside (upgrade tenant current target) result)

  Emits-prepare : (t : Tenant) → Emits [] (prepare p tenant t)
  Emits-prepare t = Emits-quiet _ (Keeps-prepare p tenant (quiet _) t)

  -- Both commands after the preparation.
  Emits-commands :
      (t : Tenant) (c : String) (args : List String)
      → Emits (tofu tenant init_args ∷ tofu tenant args ∷ []) (
          prepare p tenant t
          >> (context "tofu init" (run p.outside tenant init_args)
              >> context c (run p.outside tenant args)))
  Emits-commands t c args = Emits-bind [] _ _ _ (Emits-prepare t) (λ u.
      Emits-bind (tofu tenant init_args ∷ []) (tofu tenant args ∷ []) _ _
        (Emits-context _ _ _ (Emits-run init_args)) (λ u2. Emits-context _ _ _ (Emits-run args)))

  Emits-destroy :
      (t : Tenant)
      → Emits (tofu tenant init_args ∷ tofu tenant destroy_args ∷ []) (destroy p tenant t)
  unfolding destroy destroy_prepared
  Emits-destroy t = Emits-bind [] _ _ _ (Emits-prepare t) (λ u.
      Emits-bind (tofu tenant init_args ∷ []) (tofu tenant destroy_args ∷ []) _ _
        (Emits-context _ _ _ (Emits-run init_args))
        (λ u2.
          Emits-bind (tofu tenant destroy_args ∷ []) [] _ _
            (Emits-context _ _ _ (Emits-run destroy_args))
            (λ u3. Emits-quiet _ (Keeps-in_store (quiet "") _ (Keeps-clear tenant)))))

  Emits-drifted :
      (t : Tenant) (machines : List Machine) (n : ℕ)
      → Emits (upgrades_for tenant t (ok (machines, n))) (upgrade_drifted p tenant t machines)
  unfolding upgrade_drifted
  Emits-drifted t machines n = elim (Bool-cases (drifts t.spec.talos_version machines)) [
    | inl e ↦ rw e (Emits-context _ _ _ (Emits-run_upgrade _ _))
    | inr e ↦ rw e (Emits-quiet _ (Keeps-pure IsQuiet-preorder tt))
  ]

  Traced-listed :
      (t : Tenant) (r : Result (List Machine × ℕ)) (v : World) (d : Db World)
      → d.tables.log ≡ v.log
      → let m = context "list machines" (λ (d : Db World). (r, d)) >>= λ x.
          upgrade_drifted p tenant t x.0 in
        let c = context "pre-apply upgrade" m d in Traced (upgrades_for tenant t r) v c.0 c.1.tables
  Traced-listed t (err e) v d same_log = ([], same_log ∙ sym (append-nil v.log), tt)
  Traced-listed t (ok (machines, n)) v d same_log =
      Emits-from (upgrades_for tenant t (ok (machines, n)))
        (context "pre-apply upgrade" (upgrade_drifted p tenant t machines)) v d same_log
        (Emits-context "pre-apply upgrade" _ _ (Emits-drifted t machines n))

  Traced-hook :
      (hook : Bool) (t : Tenant) (d : Db World)
      → let r =
          context "pre-apply upgrade" (if hook then upgrade_listed p tenant t else pure tt) d in
        Traced (if hook then upgrades_for tenant t (listing d).0 else []) d.tables r.0 r.1.tables
  unfolding upgrade_listed
  Traced-hook true t d = Traced-listed t (listing d).0 d.tables (listing d).1 (
      (Keeps-in_store (quiet "") _
          (Keeps-list_machines_by_tenant Anything-preorder _ _ _ tenant [])).at
        d)
  Traced-hook false t d =
      (Emits-context "pre-apply upgrade" [] _
          (Emits-quiet (pure tt) (Keeps-pure IsQuiet-preorder tt))).at
        d

  Traced-upgrades :
      (t : Tenant) (d : Db World)
      → let r = context "pre-apply upgrade" (run_upgrades_if_needed p tenant t) d in
        Traced
          (if p.upgrades then upgrades_for tenant t (listing d).0 else [])
          d.tables
          r.0
          r.1.tables
  unfolding run_upgrades_if_needed
  Traced-upgrades t d = Traced-hook p.upgrades t d

  -- Either way that a tenant that is there goes.
  Traced-way :
      (deleting : Bool) (t : Tenant) (d : Db World)
      → let r = (if deleting then destroy p tenant t else converge p tenant t) d in
        Traced (commands deleting t (listing d).0) d.tables r.0 r.1.tables
  unfolding converge
  Traced-way true t d = (Emits-destroy t).at d
  Traced-way false t d =
      continue_emits (if p.upgrades then upgrades_for tenant t (listing d).0 else []) _ d.tables
        d.tables (context "pre-apply upgrade" (run_upgrades_if_needed p tenant t) d).0 _
        (context "pre-apply upgrade" (run_upgrades_if_needed p tenant t) d).1 (Traced-upgrades t d)
        (λ u. Emits-commands t "tofu apply" apply_args)

  Traced-found :
      (r : Result (Option Tenant)) (t : Tenant) (d : Db World)
      → r ≡ ok (some t)
      → let c = context "load tenant" (λ (d : Db World). (r, d)) >>= reconcile_found p tenant in
        Traced (commands (is_deleting t) t (listing d).0) d.tables (c d).0 (c d).1.tables
  Traced-found r t d found = rw found (Traced-way (is_deleting t) t d)

  -- An apply of a tenant that is there runs these commands, in this order, and no others: for one
  -- marked as deleted, init and destroy; for any other, the upgrade if a hook is configured and
  -- the machines all report one version, which is not the declared one, then init and apply. If
  -- it returns nil, all were run and all succeeded. If it returns an error, the first of them
  -- were, and none after one that failed.
  pub apply-Traced :
      (d : Db World) (t : Tenant)
      → (lookup_tenant d).0 ≡ ok (some t)
      → Traced
          (commands (is_deleting t) t (listing (lookup_tenant d).1).0)
          d.tables
          (apply p tenant d).0
          (apply p tenant d).1.tables
  unfolding apply
  apply-Traced d t found =
      Traced-from (commands (is_deleting t) t (listing (lookup_tenant d).1).0) d.tables
        (lookup_tenant d).1.tables (apply p tenant d).0 (apply p tenant d).1.tables
        ((Keeps-in_store (quiet "") _ (Keeps-get_tenant Anything-preorder _ _ tenant)).at d)
        (Traced-found (lookup_tenant d).0 t (lookup_tenant d).1 found)
