-- ===== src/Reconcile/Merging.antt =====
-- The parts of an enrichment (internal/reconcile/enricher.go) and what they leave alone.
use rezuscloud.State.Listing.{Sqlite}
use rezuscloud.Prelude.{ℕ, Bool, Option, none, some, String, List, [], ◌∷◌}
use rezuscloud.Maps.{StringMap}
use rezuscloud.Effects.{Result, ok, err}
use rezuscloud.Effects.Keeps.{Keeps, Keeps-bind, keeps_rules}
use rezuscloud.State.Types.{Machine, MachineSpec, MachineStatus}
use rezuscloud.State.Json.{Codec}
use rezuscloud.State.Machines.{create_machine, update_machine_spec}
use rezuscloud.State.Reads.{Keeps-get_resource, Keeps-get_machine, Keeps-list_machines_by_tenant}
use rezuscloud.Reconcile.Enricher.{
  Resource, enrich_resource, enrich_each, attach_token, found_and_attached, apply_binding_token,
  apply_binding_tokens, enrich_listed, enrich,
}
use rezuscloud.Reconcile.Enriched.{
  Enriches, Enriches-preorder, Keeps-create_resource, Keeps-update_resource,
}

module _ (spec_codec : Codec MachineSpec) (status_codec : Codec MachineStatus) where
  Keeps-create_machine :
      (id : String) (spec : MachineSpec) (labels annotations : StringMap)
      → Keeps Enriches (create_machine spec_codec status_codec id spec labels annotations)
  unfolding create_machine
  Keeps-create_machine id spec labels annotations =
      search (keeps_rules, Enriches-preorder, Keeps-create_resource) depth 8

  Keeps-update_machine_spec :
      (id : String) (v : ℕ) (spec : MachineSpec) (labels annotations : StringMap)
      → Keeps Enriches (update_machine_spec spec_codec status_codec id v spec labels annotations)
  unfolding update_machine_spec
  Keeps-update_machine_spec id v spec labels annotations =
      search (keeps_rules, Enriches-preorder, Keeps-update_resource, Keeps-get_resource) depth 8

  module _ (sqlite : Sqlite) (to_lower : String → String) (contains : String → String → Bool) where
    Keeps-enrich_resource :
        (tenant : String) (existing : List Machine) (r : Resource)
        → Keeps Enriches
            (enrich_resource spec_codec status_codec sqlite to_lower contains tenant existing r)
    unfolding enrich_resource
    Keeps-enrich_resource tenant existing r =
        search (keeps_rules, Enriches-preorder, Keeps-create_machine) depth 8

    Keeps-enrich_each :
        (tenant : String) (existing : List Machine) (rs : List Resource)
        → Keeps Enriches
            (enrich_each spec_codec status_codec sqlite to_lower contains tenant existing rs)
    unfolding enrich_each
    Keeps-enrich_each tenant existing [] = search (keeps_rules, Enriches-preorder)
    Keeps-enrich_each tenant existing (r ∷ rest) =
        let first = Keeps-enrich_resource tenant existing r in
        let others = Keeps-enrich_each tenant existing rest in
        search (keeps_rules, Enriches-preorder, first, others) depth 8

    Keeps-attach_token :
        (token : String) (r : Result (Option Machine))
        → Keeps Enriches (attach_token spec_codec status_codec sqlite to_lower contains token r)
    unfolding attach_token
    Keeps-attach_token token (err e) = search (keeps_rules, Enriches-preorder)
    Keeps-attach_token token (ok none) = search (keeps_rules, Enriches-preorder)
    Keeps-attach_token token (ok (some m)) =
        search (keeps_rules, Enriches-preorder, Keeps-update_machine_spec) depth 8

    Keeps-found_and_attached :
        (name token : String)
        → Keeps Enriches
            (found_and_attached spec_codec status_codec sqlite to_lower contains name token)
    unfolding found_and_attached
    Keeps-found_and_attached name token =
        search (keeps_rules, Enriches-preorder, Keeps-get_machine, Keeps-attach_token) depth 8

    Keeps-apply_binding_token :
        (b : Resource) (token : String)
        → Keeps Enriches
            (apply_binding_token spec_codec status_codec sqlite to_lower contains b token)
    unfolding apply_binding_token
    Keeps-apply_binding_token b token =
        search (keeps_rules, Enriches-preorder, Keeps-found_and_attached) depth 8

    Keeps-tokens :
        (bindings : List Resource)
        → Keeps Enriches
            (apply_binding_tokens spec_codec status_codec sqlite to_lower contains bindings)
    unfolding apply_binding_tokens
    Keeps-tokens [] = search (keeps_rules, Enriches-preorder)
    Keeps-tokens (b ∷ rest) =
        Keeps-bind Enriches-preorder _ _ (Keeps-apply_binding_token b _) (λ u. Keeps-tokens rest)

    Keeps-enrich_listed :
        (tenant : String) (machines bindings : List Resource) (r : Result (List Machine × ℕ))
        → Keeps Enriches (
            enrich_listed spec_codec status_codec sqlite to_lower contains tenant machines bindings
              r)
    unfolding enrich_listed
    Keeps-enrich_listed tenant machines bindings (err e) = search (keeps_rules, Enriches-preorder)
    Keeps-enrich_listed tenant machines bindings (ok (existing, total)) =
        search (keeps_rules, Enriches-preorder, Keeps-enrich_each, Keeps-tokens) depth 8

    -- Whatever fails, an enrichment leaves every row that is no machine, the secrets bundles and
    -- the API tokens as they were, and removes no machine: each stays with its status, finalizers
    -- and deletion mark.
    pub enrich-Enriches :
        (tenant : String) (machines bindings : List Resource)
        → Keeps Enriches
            (enrich spec_codec status_codec sqlite to_lower contains tenant machines bindings)
    unfolding enrich
    enrich-Enriches tenant machines bindings =
        search (keeps_rules, Enriches-preorder, Keeps-list_machines_by_tenant, Keeps-enrich_listed)
          depth 8
