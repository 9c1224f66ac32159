-- ===== src/Reconcile/Render.antt =====
-- The configuration files of a tenant's working directory (renderConfig, cleanProviderConfigs,
-- configReferencesTalos, renderCommonConfig, renderTFVars and renderInputs in
-- internal/reconcile/applier.go). The providers, internal/talosconfig and encoding/json are
-- parameters.
use Prim.Native.String.{◌++◌ as concat}
use text.Mathlib.Text.{find?}
use rezuscloud.Prelude.{
  ℕ, Bool, true, false, ◌&&◌, not, Option, none, some, String, List, [], ◌∷◌, ◌==◌, if◌then◌else◌,
}
use rezuscloud.Maps.{StringMap, insert}
use rezuscloud.Effects.{Result, ok, err, Exec, pure, lift, attempt, context, ◌>>=◌, ◌>>◌}
use rezuscloud.State.Types.{Tenant, NodeGroupSpec}
use rezuscloud.Tfexec.{backend_file}
use rezuscloud.Tfexec.World.{World, write_file, remove_file, read_dir, read_file}
use rezuscloud.Reconcile.Keys.{filter_by_provider, provider_type_of}
use rezuscloud.Reconcile.Tokens.{ensure_binding_tokens}

-- `tenant` is set, and `node_groups` filtered, for each provider.
pub record RenderRequest : Type 0 where
  pub tenant : Option Tenant
  pub node_groups : List NodeGroupSpec
  pub bootstrap_config : String
  pub binding_tokens : StringMap
  pub mgmt_endpoint : String

pub record Provider : Type 0 where
  pub type : String
  pub render : RenderRequest → Result String

pub record OciConfig : Type 0 where
  pub compartment_ocid : String
  pub image_ocid : String
  pub region : String

-- `providers` is what All returns, whose order is not fixed; `common_config` the text that
-- renderCommonConfig writes, `tfvars` the encoding of a map, `oci_config` the decoding of a
-- provider's configuration, `none` for an error.
pub record Renderer : Type 0 where
  pub torn : String → String
  pub providers : List Provider
  pub common_config : String
  pub tfvars : StringMap → String
  pub oci_config : String → Option OciConfig
  pub bootstrap : Result String
  pub mgmt_endpoint : String
  pub draw : ℕ → String
  pub machines_in : String → Option (List String)
  pub is_spec : String → Bool

unfoldable pub has_suffix : String → String → Bool
has_suffix t String.[] = String.[] == t
has_suffix t (String.◌∷◌ c s) =
    let rest = has_suffix t s in if String.◌∷◌ c s == t then true else rest

-- A configuration that is not tfexec's own.
unfoldable pub is_provider_config : String → Bool
unfolding has_suffix
is_provider_config name = not (name == backend_file) && has_suffix ".tf.json" name

unfoldable pub remove_each : String → List String → Exec World Unit
unfolding is_provider_config
remove_each dir [] = pure tt
remove_each dir (name ∷ names) = do
  if is_provider_config name then remove_file dir name else pure tt
  remove_each dir names

unfoldable pub clean_provider_configs : String → Exec World Unit
unfolding remove_each
clean_provider_configs dir = do entries ← read_dir dir; remove_each dir entries

abbrev pub contains : String → String → Bool
contains s t = elim (find? s t) [ none ↦ false | some i ↦ true ]

abbrev pub found_in : Result String → Bool
found_in (ok text) = contains text "talos_machine_secrets"
found_in (err e) = false

-- The first file that can be read and that names the resource ends the search.
unfoldable pub references_in : String → List String → Exec World Bool
unfolding is_provider_config
references_in dir [] = pure false
references_in dir (name ∷ names) =
    let rest = references_in dir names in
    if is_provider_config name
    then (attempt (read_file dir name) >>= λ text. if found_in text then pure true else rest)
    else rest

abbrev pub references_listed : String → Result (List String) → Exec World Bool
references_listed dir (ok names) = references_in dir names
references_listed dir (err e) = pure false

unfoldable pub config_references_talos : String → Exec World Bool
unfolding references_in
config_references_talos dir = attempt (read_dir dir) >>= references_listed dir

module _ (r : Renderer) where
  unfoldable pub render_provider :
      String → Tenant → List NodeGroupSpec → RenderRequest → Provider → Exec World Unit
  render_provider dir tenant matching req p = do
    raw ← context (concat (concat "provider " p.type) " render") (
        lift (
          p.render (record {
            tenant = some tenant;
            node_groups = matching;
            bootstrap_config = req.bootstrap_config;
            binding_tokens = req.binding_tokens;
            mgmt_endpoint = req.mgmt_endpoint;
          })))
    context "write" (write_file r.torn dir (concat p.type ".tf.json") raw)

  abbrev pub render_matching :
      String → Tenant → RenderRequest → Provider → List NodeGroupSpec → Bool → Exec World Bool
  render_matching dir tenant req p [] wrote = pure wrote
  render_matching dir tenant req p (ng ∷ ngs) wrote =
      render_provider dir tenant (ng ∷ ngs) req p >> pure true

  -- The loop over the providers, with `wroteAny`.
  unfoldable pub render_each :
      String → Tenant → List NodeGroupSpec → RenderRequest → List Provider → Bool → Exec World Bool
  unfolding render_provider filter_by_provider
  render_each dir tenant ngs req [] wrote = pure wrote
  render_each dir tenant ngs req (p ∷ ps) wrote =
      render_matching dir tenant req p (filter_by_provider ngs p.type) wrote
      >>= render_each dir tenant ngs req ps

  unfoldable pub render_config :
      String → Tenant → List NodeGroupSpec → RenderRequest → Exec World Unit
  unfolding clean_provider_configs render_each
  render_config dir tenant ngs req = do
    context "clean stale configs" (clean_provider_configs dir)
    wrote_any ← render_each dir tenant ngs req r.providers false
    if wrote_any
        then pure tt
        else context "write minimal main.tf.json"
            (write_file r.torn dir "main.tf.json" "{\"terraform\":{}}")

  unfoldable pub render_common_config : String → Exec World Unit
  render_common_config dir = write_file r.torn dir "common.tf.json" r.common_config

  -- A value that is there is set.
  abbrev pub set_given : String → String → StringMap → StringMap
  set_given key value vars = if value == "" then vars else insert key value vars

  abbrev pub with_oci : OciConfig → StringMap → StringMap
  with_oci cfg vars = set_given "region" cfg.region (
      set_given "talos_image_ocid" cfg.image_ocid
        (set_given "compartment_ocid" cfg.compartment_ocid vars))

  abbrev pub has_config : NodeGroupSpec → Bool
  has_config ng = (provider_type_of ng.provider_class == "oci") && not (ng.provider_config == "")

  -- The values of the first node group whose configuration can be decoded.
  unfoldable pub oci_vars : List NodeGroupSpec → StringMap → StringMap
  oci_vars [] vars = vars
  oci_vars (ng ∷ ngs) vars =
      let rest = oci_vars ngs vars in
      if has_config ng
      then elim (r.oci_config ng.provider_config) [ none ↦ rest | some cfg ↦ with_oci cfg vars ]
      else rest

  unfoldable pub render_tfvars : String → Tenant → RenderRequest → Exec World Unit
  unfolding oci_vars
  render_tfvars dir t req = write_file r.torn dir "terraform.tfvars.json" (
      r.tfvars (
        oci_vars t.spec.node_groups (
          ("cluster_name", t.metadata.name)
          ∷ ("cluster_endpoint", t.spec.control_plane_endpoint)
          ∷ ("talos_version", t.spec.talos_version)
          ∷ ("kubernetes_version", t.spec.kubernetes_version)
          ∷ ("bootstrap_config", req.bootstrap_config)
          ∷ ("mgmtlink_endpoint", req.mgmt_endpoint)
          ∷ [])))

  unfoldable pub render_inputs : List NodeGroupSpec → Exec World RenderRequest
  render_inputs ngs = do
    tokens ← context "binding tokens" (ensure_binding_tokens r.draw r.machines_in r.is_spec ngs [])
    bootstrap ← context "bootstrap config" (lift r.bootstrap)
    pure (record {
      tenant = none;
      node_groups = [];
      bootstrap_config = bootstrap;
      binding_tokens = tokens;
      mgmt_endpoint = r.mgmt_endpoint;
    })
