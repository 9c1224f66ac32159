-- ===== src/Reconcile/Changes.antt =====
-- What the steps of the applier change (internal/reconcile/applier.go, internal/tfexec): one lemma
-- for each, over any relation that the writes to one directory and to the store respect.
use rezuscloud.Prelude.{arith, ℕ, ◌≡◌, refl, Bool, true, false, Option, String, List, [], ◌∷◌}
use rezuscloud.Maps.{StringMap}
use rezuscloud.Sql.{delete_where}
use rezuscloud.Effects.{Result, ok, err, Exec, exec}
use rezuscloud.Effects.Keeps.{
  IsPreorder, Keeps, keeps_rules, Keeps-pure, Keeps-bind, Keeps-bind_post, Returns, Returns-bind,
  Returns-pure, Returns-context, Keeps-if, Keeps-context, Keeps-exec, Keeps-attempt, Anything,
  Keeps-Anything,
}
use rezuscloud.State.Types.{Tenant, NodeGroupSpec}
use rezuscloud.State.Tables.{Tables}
use rezuscloud.State.Resources.{get_resource, update_resource, Loaded}
use rezuscloud.State.WellFormed.{update_resource-Preserves}
use rezuscloud.State.Reads.{Keeps-get_resource, Keeps-list_typed_by_tenant}
use rezuscloud.Tfexec.{sanitize_tenant, workdir, write_backend}
use rezuscloud.Tfexec.World.{
  World, in_store, set_file, write_file, remove_file, read_dir, read_file, at_place,
}
use rezuscloud.Reconcile.Tokens.{
  Minted, new_binding_token, mint_fresh, mint_key, mint_keys, persist_tokens, ensure_keys,
  unless_empty, ensure_binding_tokens,
}
use rezuscloud.Reconcile.Render.{
  Renderer, Provider, RenderRequest, is_provider_config, remove_each, clean_provider_configs,
  found_in, references_in, references_listed, config_references_talos, render_provider,
  render_matching, render_each, render_config, render_common_config, render_tfvars, render_inputs,
}
use rezuscloud.Reconcile.Applier.{Platform, load_node_groups, render_talos, prepare}

-- A change of the store within `S`, and a write or a removal in the directory, are within `R`; the
-- tokens written on a node group are within `S`.
pub record Allows (dir : String) (S : Tables → Tables → Type 0) (R : World → World → Type 0)
    : Type 0 where
  pub order : IsPreorder R
  pub store_order : IsPreorder S
  pub amends :
      (ng : String) (v : ℕ) (spec : Option String) (labels annotations : StringMap)
      → Keeps S (update_resource "nodegroup" ng v spec labels annotations)
  pub stores : (w : World) (t : Tables) → S w.store t → R w (record w { store = t })
  pub sets :
      (w : World) (name text : String)
      → R w (record w { files = set_file (record { dir = dir; name = name; text = text }) w.files })
  pub removes :
      (w : World) (name : String)
      → R w (record w { files = delete_where (at_place dir name) w.files })

-- The tables may be changed in any way.
pub amends-Anything :
    (ng : String) (v : ℕ) (spec : Option String) (labels annotations : StringMap)
    → Keeps Anything (update_resource "nodegroup" ng v spec labels annotations)
amends-Anything ng v spec labels annotations =
    Keeps-Anything (update_resource-Preserves "nodegroup" ng v spec labels annotations)

module _ {dir : String} {S : Tables → Tables → Type 0} {R : World → World → Type 0}
    (a : Allows dir S R) where
  pub Keeps-in_store : {A : Type 0} (m : Exec Tables A) → Keeps S m → Keeps R (in_store m)
  unfolding in_store
  Keeps-in_store m k = record {
    at = λ d. a.stores d.tables _ (k.at _);
    env = λ d. k.env _;
    time = λ d. k.time _;
  }

  pub Keeps-write_file :
      (torn : String → String) (name text : String) → Keeps R (write_file torn dir name text)
  unfolding write_file
  Keeps-write_file torn name text = record {
    at = λ d. a.sets d.tables name _;
    env = λ d. refl;
    time = λ d. (refl, omega arith);
  }

  pub Keeps-remove_file : (name : String) → Keeps R (remove_file dir name)
  unfolding remove_file
  Keeps-remove_file name = Keeps-exec a.order _ (λ w. a.removes w name)

  Keeps-read_dir : Keeps R (read_dir dir)
  unfolding read_dir
  Keeps-read_dir = search (keeps_rules, a.order)

  Keeps-read_file : (name : String) → Keeps R (read_file dir name)
  unfolding read_file
  Keeps-read_file name = search (keeps_rules, a.order)

  Keeps-new_token : (draw : ℕ → String) → Keeps R (new_binding_token draw)
  unfolding new_binding_token
  Keeps-new_token draw = record {
    at = λ d. a.order.same d.tables;
    env = λ d. refl;
    time = λ d. (refl, omega arith);
  }

  in_order : IsPreorder R
  in_order = a.order

  ruleset world_rules = (
    keeps_rules, in_order, Keeps-in_store, Keeps-write_file, Keeps-remove_file, Keeps-read_dir,
    Keeps-read_file, Keeps-new_token,
  )

  Keeps-remove_each : (names : List String) → Keeps R (remove_each dir names)
  unfolding remove_each
  Keeps-remove_each [] = Keeps-pure a.order tt
  Keeps-remove_each (name ∷ names) =
      Keeps-bind a.order _ _
        (Keeps-if a.order (is_provider_config name) _ _ (Keeps-remove_file name)
          (Keeps-pure a.order tt))
        (λ u. Keeps-remove_each names)

  Keeps-clean : Keeps R (clean_provider_configs dir)
  unfolding clean_provider_configs
  Keeps-clean = search (world_rules, Keeps-remove_each)

  Keeps-references_in : (names : List String) → Keeps R (references_in dir names)
  unfolding references_in
  Keeps-references_in [] = Keeps-pure a.order false
  Keeps-references_in (name ∷ names) =
      Keeps-if a.order (is_provider_config name) _ _
        (Keeps-bind a.order _ _ (Keeps-attempt a.order _ (Keeps-read_file name)) (λ text.
          Keeps-if a.order (found_in text) _ _ (Keeps-pure a.order true)
            (Keeps-references_in names)))
        (Keeps-references_in names)

  Keeps-references_listed : (names : Result (List String)) → Keeps R (references_listed dir names)
  Keeps-references_listed (ok names) = Keeps-references_in names
  Keeps-references_listed (err e) = Keeps-pure a.order false

  Keeps-references : Keeps R (config_references_talos dir)
  unfolding config_references_talos
  Keeps-references = search (world_rules, Keeps-references_listed)

  Keeps-group : (ty nm : String) → Keeps R (in_store (get_resource ty nm))
  Keeps-group ty nm = Keeps-in_store _ (Keeps-get_resource a.store_order ty nm)

  Keeps-amend :
      (ng : String) (v : ℕ) (spec : Option String) (labels annotations : StringMap)
      → Keeps R (in_store (update_resource "nodegroup" ng v spec labels annotations))
  Keeps-amend ng v spec labels annotations =
      Keeps-in_store _ (a.amends ng v spec labels annotations)

  module _ (draw : ℕ → String) where
    Keeps-mint_key : (key : String) (m : Minted) → Keeps R (mint_key draw key m)
    unfolding mint_key mint_fresh
    Keeps-mint_key key m = search world_rules depth 12

    Keeps-mint_keys : (keys : List String) (m : Minted) → Keeps R (mint_keys draw keys m)
    unfolding mint_keys
    Keeps-mint_keys [] m = Keeps-pure a.order m
    Keeps-mint_keys (key ∷ keys) m =
        Keeps-bind a.order _ _ (Keeps-mint_key key m) (Keeps-mint_keys keys)

    module _ (machines_in : String → Option (List String)) (is_spec : String → Bool) where
      Keeps-persist_tokens :
          (ng : String) (found : Loaded) (m : Minted)
          → Keeps R (persist_tokens draw machines_in is_spec ng found m)
      unfolding persist_tokens
      Keeps-persist_tokens ng found m = search (world_rules, Keeps-amend) depth 12

      Keeps-ensure_keys :
          (ng : String) (keys : List String) (tokens : StringMap)
          → Keeps R (ensure_keys draw machines_in is_spec ng keys tokens)
      unfolding ensure_keys
      Keeps-ensure_keys ng keys tokens =
          search (world_rules, Keeps-group, Keeps-mint_keys, Keeps-persist_tokens) depth 12

      Keeps-unless_empty :
          (ng : String) (keys : List String) (tokens : StringMap)
          → Keeps R (unless_empty draw machines_in is_spec ng keys tokens)
      Keeps-unless_empty ng [] tokens = Keeps-pure a.order tokens
      Keeps-unless_empty ng (key ∷ keys) tokens = Keeps-ensure_keys ng (key ∷ keys) tokens

      Keeps-ensure :
          (ngs : List NodeGroupSpec) (tokens : StringMap)
          → Keeps R (ensure_binding_tokens draw machines_in is_spec ngs tokens)
      unfolding ensure_binding_tokens
      Keeps-ensure [] tokens = Keeps-pure a.order tokens
      Keeps-ensure (ng ∷ ngs) tokens =
          Keeps-bind a.order _ _ (Keeps-unless_empty ng.name _ tokens) (Keeps-ensure ngs)

  module _ (r : Renderer) where
    Keeps-render_matching :
        (t : Tenant) (req : RenderRequest) (p : Provider) (matching : List NodeGroupSpec)
        (wrote : Bool)
        → Keeps R (render_matching r dir t req p matching wrote)
    unfolding render_provider
    Keeps-render_matching t req p [] wrote = Keeps-pure a.order wrote
    Keeps-render_matching t req p (ng ∷ ngs) wrote = search world_rules depth 12

    Keeps-render_each :
        (t : Tenant) (ngs : List NodeGroupSpec) (req : RenderRequest) (ps : List Provider)
        (wrote : Bool)
        → Keeps R (render_each r dir t ngs req ps wrote)
    unfolding render_each
    Keeps-render_each t ngs req [] wrote = Keeps-pure a.order wrote
    Keeps-render_each t ngs req (p ∷ ps) wrote =
        Keeps-bind a.order _ _ (Keeps-render_matching t req p _ wrote)
          (Keeps-render_each t ngs req ps)

    pub Keeps-render_config :
        (t : Tenant) (ngs : List NodeGroupSpec) (req : RenderRequest)
        → Keeps R (render_config r dir t ngs req)
    unfolding render_config
    Keeps-render_config t ngs req = search (world_rules, Keeps-clean, Keeps-render_each) depth 12

    Keeps-render_inputs : (ngs : List NodeGroupSpec) → Keeps R (render_inputs r ngs)
    unfolding render_inputs
    Keeps-render_inputs ngs = search (world_rules, Keeps-ensure) depth 12

  module _ (p : Platform) where
    Keeps-render_talos : (t : Tenant) (req : RenderRequest) → Keeps R (render_talos p dir t req)
    unfolding render_talos render_common_config render_tfvars
    Keeps-render_talos t req = search (world_rules, Keeps-references) depth 12

    Keeps-load : (tenant : String) → Keeps R (in_store (load_node_groups p tenant))
    unfolding load_node_groups
    Keeps-load tenant = Keeps-in_store _ (
        Keeps-bind a.store_order _ _
          (Keeps-list_typed_by_tenant a.store_order p.sqlite "nodegroup" tenant _)
          (λ x. Keeps-pure a.store_order _))

module _ (p : Platform) (tenant : String) {S : Tables → Tables → Type 0}
    {R : World → World → Type 0} (a : Allows (sanitize_tenant tenant) S R) where
  Keeps-ready : Keeps R (exec {T = World} (λ w. (ok tt, w)))
  Keeps-ready = Keeps-exec a.order _ (λ w. a.order.same w)

  pub Keeps-workdir : Keeps R (workdir p.outside tenant)
  unfolding workdir write_backend
  Keeps-workdir = search (keeps_rules, Keeps-ready, Keeps-write_file a, order) depth 12
    where
      order : IsPreorder R
      order = a.order

  Returns-workdir : Returns (λ dir. dir ≡ sanitize_tenant tenant) (workdir p.outside tenant)
  unfolding workdir
  Returns-workdir =
      let same_dir : sanitize_tenant tenant ≡ sanitize_tenant tenant = refl in
      search (Returns-bind, Returns-pure, same_dir)

  pub Keeps-prepare : (t : Tenant) → Keeps R (prepare p tenant t)
  unfolding prepare
  Keeps-prepare t =
      Keeps-bind a.order _ _ (Keeps-context a.order _ _ (Keeps-load a p tenant)) (λ ngs.
        Keeps-bind_post a.order {P = λ dir. dir ≡ sanitize_tenant tenant} _ _
          (Keeps-context a.order _ _ Keeps-workdir)
          (Returns-context "workdir" _ Returns-workdir).post
          (λ dir e. rw e (
            Keeps-bind a.order _ _
              (Keeps-context a.order _ _ (Keeps-render_inputs a p.renderer ngs))
              (λ req.
                Keeps-bind a.order _ _
                  (Keeps-context a.order _ _ (Keeps-render_config a p.renderer t ngs req))
                  (λ u. Keeps-render_talos a p t req)))))
