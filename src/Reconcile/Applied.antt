-- ===== src/Reconcile/Applied.antt =====
-- What a whole apply changes (Apply in internal/reconcile/applier.go), from what its commands and
-- the end of a teardown change.
use rezuscloud.Prelude.{Option, none, some, String, List, []}
use rezuscloud.Effects.{Error}
use rezuscloud.Effects.Keeps.{
  IsPreorder, Keeps, Keeps-pure, Keeps-bind, Keeps-context, Keeps-gets, Keeps-if, Keeps-modify,
  Keeps-lift,
}
use rezuscloud.State.Types.{Tenant}
use rezuscloud.State.Tables.{Tables}
use rezuscloud.State.Reads.{Keeps-get_tenant, Keeps-list_machines_by_tenant}
use rezuscloud.Tfexec.{sanitize_tenant, run, finish, error_result}
use rezuscloud.Tfexec.World.{World, Outside, Event, Command, ended}
use rezuscloud.Reconcile.Applier.{
  Platform, run_upgrade, upgrade_drifted, upgrade_listed, run_upgrades_if_needed, destroy,
  destroy_prepared, clear_tenant, converge, apply, reconcile_found, is_deleting, drifts,
}
use rezuscloud.Reconcile.Changes.{Allows, Keeps-in_store, Keeps-workdir, Keeps-prepare}

pub Keeps-finish :
    (o : Outside) {R : World → World → Type 0}
    → IsPreorder R
    → ((w : World) (e : Event) → R w (ended o e w))
    → (c : Command) (result : Option Error) → Keeps R (finish o c result)
unfolding finish
Keeps-finish o order ends c result =
    Keeps-bind order _ _ (Keeps-modify order _ (λ w. ends w _))
      (λ u. Keeps-lift order (error_result result))

module _ (p : Platform) (tenant : String) {S : Tables → Tables → Type 0}
    {R : World → World → Type 0} (a : Allows (sanitize_tenant tenant) S R)
    (finishes : (c : Command) (result : Option Error) → Keeps R (finish p.outside c result)) where
  pub Keeps-run : (args : List String) → Keeps R (run p.outside tenant args)
  unfolding run
  Keeps-run args =
      Keeps-bind a.order _ _ (Keeps-workdir p tenant a)
        (λ dir. Keeps-bind a.order _ _ (Keeps-gets a.order _) (finishes _))

  Keeps-run_upgrade : (current target : String) → Keeps R (run_upgrade p tenant current target)
  unfolding run_upgrade
  Keeps-run_upgrade current target = Keeps-bind a.order _ _ (Keeps-gets a.order _) (finishes _)

  Keeps-upgrades : (t : Tenant) → Keeps R (run_upgrades_if_needed p tenant t)
  unfolding run_upgrades_if_needed upgrade_listed upgrade_drifted
  Keeps-upgrades t =
      Keeps-if a.order p.upgrades _ _
        (Keeps-bind a.order _ _
          (Keeps-context a.order _ _
            (Keeps-in_store a _ (Keeps-list_machines_by_tenant a.store_order _ _ _ tenant [])))
          (λ x.
            Keeps-if a.order (drifts t.spec.talos_version x.0) _ _
              (Keeps-context a.order _ _ (Keeps-run_upgrade _ _)) (Keeps-pure a.order tt)))
        (Keeps-pure a.order tt)

  Keeps-converge : (t : Tenant) → Keeps R (converge p tenant t)
  unfolding converge
  Keeps-converge t = Keeps-bind a.order _ _ (Keeps-context a.order _ _ (Keeps-upgrades t)) (λ u.
      Keeps-bind a.order _ _ (Keeps-prepare p tenant a t) (λ u1.
        Keeps-bind a.order _ _ (Keeps-context a.order _ _ (Keeps-run _))
          (λ u2. Keeps-context a.order _ _ (Keeps-run _))))

  -- Where the end of the teardown is within `S` like the rest.
  pub Keeps-destroy_prepared : Keeps S (clear_tenant tenant) → Keeps R (destroy_prepared p tenant)
  unfolding destroy_prepared
  Keeps-destroy_prepared clears =
      Keeps-bind a.order _ _ (Keeps-context a.order _ _ (Keeps-run _))
        (λ u. Keeps-in_store a _ clears)

  module _ (destroys : Keeps R (destroy_prepared p tenant)) where
    Keeps-destroy : (t : Tenant) → Keeps R (destroy p tenant t)
    unfolding destroy
    Keeps-destroy t =
        Keeps-bind a.order _ _ (Keeps-prepare p tenant a t)
          (λ u. Keeps-bind a.order _ _ (Keeps-context a.order _ _ (Keeps-run _)) (λ u1. destroys))

    Keeps-found : (found : Option Tenant) → Keeps R (reconcile_found p tenant found)
    Keeps-found none = Keeps-pure a.order tt
    Keeps-found (some t) = Keeps-if a.order (is_deleting t) _ _ (Keeps-destroy t) (Keeps-converge t)

    pub Keeps-apply : Keeps R (apply p tenant)
    unfolding apply
    Keeps-apply =
        Keeps-bind a.order _ _
          (Keeps-context a.order _ _
            (Keeps-in_store a _ (Keeps-get_tenant a.store_order _ _ tenant)))
          Keeps-found
