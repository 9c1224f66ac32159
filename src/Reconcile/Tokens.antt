-- ===== src/Reconcile/Tokens.antt =====
-- The binding tokens of a tenant's machines (ensureBindingTokens and newBindingToken in
-- internal/reconcile/applier.go). `draw` is the token that crypto/rand gives at each call, which
-- may also fail; `machines_in` and `is_spec` are json.Unmarshal of a provider's configuration and
-- of a node group's spec.
use rezuscloud.Prelude.{
  ℕ, suc, Bool, true, false, Option, String, List, [], ◌∷◌, some, ◌==◌, if◌then◌else◌,
}
use rezuscloud.Maps.{StringMap, get_text, insert}
use rezuscloud.Effects.{
  Result, ok, err, Exec, pure, raise, context, driver, io_failure, wrap, message, ◌>>=◌, ◌>>◌,
}
use rezuscloud.State.Types.{NodeGroupSpec}
use rezuscloud.State.Resources.{get_resource, update_resource, Loaded}
use rezuscloud.Tfexec.World.{World, in_store}
use rezuscloud.Reconcile.Keys.{machine_keys_for, binding_token_annotation}

-- The variables of the inner loop.
pub record Minted : Type 0 where
  pub annotations : StringMap
  pub tokens : StringMap
  pub changed : Bool

abbrev pub drawn : Bool → String → Result String
drawn true token = err (wrap "generate binding token" (driver io_failure))
drawn false token = ok token

abbrev pub start_from : StringMap → Loaded → Minted
start_from tokens found = record {
  annotations = found.metadata.annotations;
  tokens = tokens;
  changed = false;
}

module _ (draw : ℕ → String) where
  unfoldable pub new_binding_token : Exec World String
  new_binding_token d = (
    drawn (d.faulty d.statements) (draw d.statements),
    record d { statements = suc d.statements },
  )

  -- The annotation is empty or not there.
  unfoldable pub mint_fresh : String → Minted → Exec World Minted
  unfolding new_binding_token
  mint_fresh key m = do
    tok ← new_binding_token
    pure (record {
      annotations = insert (binding_token_annotation key) tok m.annotations;
      tokens = insert key tok m.tokens;
      changed = true;
    })

  unfoldable pub mint_key : String → Minted → Exec World Minted
  unfolding mint_fresh
  mint_key key m =
      let tok = get_text m.annotations (binding_token_annotation key) in
      if tok == "" then mint_fresh key m else pure (record m { tokens = insert key tok m.tokens })

  unfoldable pub mint_keys : List String → Minted → Exec World Minted
  unfolding mint_key
  mint_keys [] m = pure m
  mint_keys (key ∷ keys) m = mint_key key m >>= mint_keys keys

  module _ (machines_in : String → Option (List String)) (is_spec : String → Bool) where
    unfoldable pub persist_tokens : String → Loaded → Minted → Exec World Unit
    persist_tokens ng found m =
        if m.changed
        then (if is_spec found.spec
            then context "persist binding tokens" (
                in_store (
                  update_resource "nodegroup" ng found.metadata.resource_version (some found.spec)
                    found.metadata.labels m.annotations))
              >> pure tt
            else raise (wrap "node group spec" (message "json")))
        else pure tt

    -- The body of the outer loop, for a node group with a key at least.
    unfoldable pub ensure_keys : String → List String → StringMap → Exec World StringMap
    unfolding persist_tokens
    ensure_keys ng keys tokens = do
      found ← context "node group" (in_store (get_resource "nodegroup" ng))
      m ← mint_keys keys (start_from tokens found)
      persist_tokens ng found m
      pure m.tokens

    abbrev pub unless_empty : String → List String → StringMap → Exec World StringMap
    unless_empty ng [] tokens = pure tokens
    unless_empty ng (key ∷ keys) tokens = ensure_keys ng (key ∷ keys) tokens

    unfoldable pub ensure_binding_tokens : List NodeGroupSpec → StringMap → Exec World StringMap
    unfolding ensure_keys
    ensure_binding_tokens [] tokens = pure tokens
    ensure_binding_tokens (ng ∷ ngs) tokens =
        unless_empty ng.name (machine_keys_for machines_in ng) tokens >>= ensure_binding_tokens ngs
