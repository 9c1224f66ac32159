-- ===== src/Upgrade/Order.antt =====
-- The order of a rolling upgrade (internal/upgrade/rolling.go, ListMachinesInOrder).
use rezuscloud.Prelude.{
  ℕ, ◌≡◌, refl, sym, ◌∙◌, ap, inl, inr, Bool, false, not, String, List, [], ◌∷◌, ◌++◌, map, arith,
  ◌==◌, filter, take, if◌then◌else◌, Bool-cases,
}
use rezuscloud.Effects.{Db, Result, Error, ok, err, Exec, pure, ◌>>=◌}
use rezuscloud.State.Types.{Machine, MachineSpec, MachineStatus}
use rezuscloud.State.Tables.{Tables}
use rezuscloud.State.Json.{Codec}
use rezuscloud.State.Amend.{IsHealthy}
use rezuscloud.State.Listing.{Sqlite, new_list_options, with_label_selector, apply_options}
use rezuscloud.State.Listing.Queries.{answers, label_is, ReadsKey, tenant_key}
use rezuscloud.State.Listing.Pages.{as_loaded, list_resources-limited}
use rezuscloud.Effects.Keeps.{ok-injective}
use rezuscloud.State.Machines.{list_machines, list_machines_by_tenant, build_machine}
use rezuscloud.Upgrade.Rolling.{
  upgrade_machine, check_health, Upgrader, Status, Run, roll_upgrade, run_result,
}
use rezuscloud.Upgrade.Endings.{passed_calls, run_upgrade-passed}

abbrev pub is_controlplane : Machine → Bool
is_controlplane m = m.status.role == "controlplane"

abbrev pub name_of : Machine → String
name_of m = m.metadata.name

-- The two slices that the loop appends to.
unfoldable pub by_role : List Machine → List String × List String
by_role [] = ([], [])
by_role (m ∷ ms) =
    let rest = by_role ms in
    if is_controlplane m then (name_of m ∷ rest.0, rest.1) else (rest.0, name_of m ∷ rest.1)

abbrev pub in_order : List Machine → List String
in_order ms = (by_role ms).0 ++ (by_role ms).1

module _ (spec_codec : Codec MachineSpec) (status_codec : Codec MachineStatus)
    (sqlite : Sqlite) where
  unfoldable pub list_machines_in_order : String → Exec Tables (List String)
  list_machines_in_order tenant = do
    (machines, _) ← list_machines_by_tenant spec_codec status_codec sqlite tenant []
    pure (in_order machines)

  -- The first 50 machines that carry the tenant's label, in name order.
  abbrev pub machines_of : String → Tables → List Machine
  machines_of tenant t =
      map (build_machine spec_codec status_codec)
        (map as_loaded (take 50 (answers "machine" (label_is "rezuscloud.io/tenant" tenant) t)))

  list_machines_in_order-first :
      (tenant : String) (d : Db Tables)
      → IsHealthy d
      → ReadsKey sqlite "rezuscloud.io/tenant"
      → (list_machines_in_order tenant d).0 ≡ ok (in_order (machines_of tenant d.tables))
  unfolding list_machines_in_order list_machines_by_tenant list_machines new_list_options
      with_label_selector apply_options
  list_machines_in_order-first tenant d fine reads =
      rw
        (
          list_machines_in_order,
          list_machines_by_tenant,
          list_machines,
          list_resources-limited sqlite "machine" (label_is "rezuscloud.io/tenant" tenant)
              tenant_key reads 50 0 d fine (omega arith),
        )
        refl

by_role-filter :
    (ms : List Machine)
    → by_role ms ≡ (
      map name_of (filter is_controlplane ms),
      map name_of (filter (λ m. not (is_controlplane m)) ms),
    )
unfolding by_role
by_role-filter [] = refl
by_role-filter (m ∷ ms) = elim (Bool-cases (is_controlplane m)) [
  | inl e ↦ rw (e, by_role-filter ms) refl
  | inr e ↦ rw (e, by_role-filter ms) refl
]

passed_calls-append :
    (target : String) (xs ys : List String)
    → passed_calls target (xs ++ ys) ≡ passed_calls target xs ++ passed_calls target ys
passed_calls-append target [] ys = refl
passed_calls-append target (x ∷ xs) ys =
    ap (λ cs. upgrade_machine x target ∷ check_health x ∷ cs) (passed_calls-append target xs ys)

module _ (spec_codec : Codec MachineSpec) (status_codec : Codec MachineStatus) (sqlite : Sqlite)
    (tenant : String) (d : Db Tables) where
  abbrev pub planes : List String
  planes =
      map (λ (m : Machine). m.metadata.name)
        (filter (λ (m : Machine). m.status.role == "controlplane")
          (machines_of spec_codec status_codec sqlite tenant d.tables))

  abbrev pub workers : List String
  workers =
      map (λ (m : Machine). m.metadata.name)
        (filter (λ (m : Machine). not (m.status.role == "controlplane"))
          (machines_of spec_codec status_codec sqlite tenant d.tables))

  pub list_machines_in_order-planes :
      IsHealthy d
      → ReadsKey sqlite "rezuscloud.io/tenant"
      → (list_machines_in_order spec_codec status_codec sqlite tenant d).0 ≡ ok (planes ++ workers)
  list_machines_in_order-planes fine reads =
      list_machines_in_order-first spec_codec status_codec sqlite tenant d fine reads
      ∙ ap (λ (s : List String × List String). ok (s.0 ++ s.1)) (by_role-filter _)

  module _ (answer : Upgrader) (stopped : ℕ → Bool) (text : Error → String)
      (current target component : String) where
    -- RunUpgrade's loop over what the store lists.
    abbrev pub outcome : Status × Run
    outcome =
        roll_upgrade answer stopped
          (list_machines_in_order spec_codec status_codec sqlite tenant d).0 text current target
          component

    -- Take a database on which no statement fails and whose json_extract reads the tenant label.
    -- Of the first 50 machine records in name order that carry the tenant's label, the upgrade
    -- order is those whose role is "controlplane" and then the others; and an upgrade to another
    -- version over that list that returns nil has upgraded and checked the control planes, and
    -- then the others, and made no other call.
    pub control_planes_first :
        IsHealthy d
        → ReadsKey sqlite "rezuscloud.io/tenant"
        → (current == target) ≡ false
        → run_result outcome.0 ≡ ok tt
        → ((list_machines_in_order spec_codec status_codec sqlite tenant d).0
            ≡ ok (planes ++ workers))
          × (outcome.1.calls ≡ passed_calls target planes ++ passed_calls target workers)
    control_planes_first fine reads differ passed =
        let order = list_machines_in_order-planes fine reads in
        (order, ran (list_machines_in_order spec_codec status_codec sqlite tenant d).0 order passed)
      where
        ran :
            (r : Result (List String))
            → r ≡ ok (planes ++ workers)
            → run_result (roll_upgrade answer stopped r text current target component).0 ≡ ok tt
            → (roll_upgrade answer stopped r text current target component).1.calls
              ≡ passed_calls target planes ++ passed_calls target workers
        ran (ok ms) e passed =
            run_upgrade-passed answer stopped ms text current target component differ passed
            ∙ rw (ok-injective (sym e)) (passed_calls-append target planes workers)
        ran (err x) e passed = absurd (cc)
