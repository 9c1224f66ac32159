-- ===== src/Reconcile/Slots.antt =====
-- The binding tokens of several node groups (ensureBindingTokens and machineKeysFor in
-- internal/reconcile/applier.go).
use rezuscloud.Prelude.{
  ℕ, zero, suc, ◌≡◌, ◌≢◌, refl, ◌∙◌, Bool, false, Option, some, String, List, [], ◌∷◌, arith, ◌==◌,
  eq_iff, All, any, if◌then◌else◌,
}
use rezuscloud.Maps.{StringMap, lookup, lookup-insert}
use rezuscloud.Effects.{Db, ok}
use rezuscloud.State.Types.{NodeGroupSpec}
use rezuscloud.State.Tables.{Row}
use rezuscloud.Tfexec.World.{World}
use rezuscloud.Reconcile.Keys.{machine_keys_for, provider_type_of, slots, itoa, digits_of}
use rezuscloud.Reconcile.Tokens.{ensure_binding_tokens, unless_empty}
use rezuscloud.Reconcile.Minting.{HasToken, IsSound, reuse, token_in}
use rezuscloud.Reconcile.Stable.{group, ensure_keys-held}

pub lookup-reuse :
    (annotations : StringMap) (k : String) (keys : List String) (tokens : StringMap)
    → lookup k (reuse annotations keys tokens)
      ≡ (if any (λ j. j == k) keys then some (token_in annotations k) else lookup k tokens)
unfolding reuse
lookup-reuse annotations k [] tokens = refl
lookup-reuse annotations k (key ∷ keys) tokens =
    lookup-reuse annotations k keys _
    ∙ ground (arith, lookup-insert key (token_in annotations key) k tokens, eq_iff key k)

module _ (draw : ℕ → String) (machines_in : String → Option (List String))
    (is_spec : String → Bool) where
  -- A node group of a cloud provider with a machine, whose tokens are all there.
  abbrev pub IsSettled : NodeGroupSpec → Row → Db World → Type 0
  IsSettled ng r d =
      ((provider_type_of ng.provider_class == "metal") ≡ false)
      × (ng.count ≢ 0)
      × (group draw machines_in is_spec ng.name d ≡ some r)
      × All (HasToken r.annotations) (machine_keys_for machines_in ng)

  slot_keys :
      (ng : NodeGroupSpec)
      → (provider_type_of ng.provider_class == "metal") ≡ false
      → ng.count ≢ 0
      → (rest : List String) × (machine_keys_for machines_in ng ≡ "0" ∷ rest)
  unfolding machine_keys_for slots itoa digits_of
  slot_keys ng cloud some_count = go ng.count refl
    where
      go :
          (n : ℕ)
          → ng.count ≡ n
          → (rest : List String) × (machine_keys_for machines_in ng ≡ "0" ∷ rest)
      go zero e = absurd (some_count e)
      go (suc n) e = (slots 1 n, rw (machine_keys_for, cloud, e) refl)

  step-settled :
      (ng : NodeGroupSpec) (r : Row) (d : Db World) (tokens : StringMap)
      → IsSound d
      → IsSettled ng r d
      → unless_empty draw machines_in is_spec ng.name (machine_keys_for machines_in ng) tokens d ≡ (
        ok (reuse r.annotations (machine_keys_for machines_in ng) tokens),
        record d { statements = suc d.statements },
      )
  step-settled ng r d tokens fine (cloud, count, found, all) =
      let (rest, keys) = slot_keys ng cloud count in
      rw keys (
        ensure_keys-held draw machines_in is_spec ng.name ("0" ∷ rest) tokens d r fine found
          (rw keys at all))

  -- The map has one entry for a slot, whatever the number of node groups: of two groups of cloud
  -- providers that both have a machine, and a token for it, slot 0 gets the second group's.
  pub slot_tokens-shared :
      (ng ng' : NodeGroupSpec) (r r' : Row) (d : Db World)
      → IsSound d
      → IsSettled ng r d
      → IsSettled ng' r' d
      → (tokens : StringMap) × ((ensure_binding_tokens draw machines_in is_spec
            (ng ∷ ng' ∷ [])
            []
            d).0
          ≡ ok tokens)
        × (lookup "0" tokens ≡ some (token_in r'.annotations "0"))
  unfolding ensure_binding_tokens
  slot_tokens-shared ng ng' r r' d fine first second = (
    reuse r'.annotations (machine_keys_for machines_in ng')
        (reuse r.annotations (machine_keys_for machines_in ng) []),
    rw
        (
          step-settled ng r d [] fine first,
          step-settled ng' r' (record d { statements = suc d.statements })
              (reuse r.annotations (machine_keys_for machines_in ng) []) fine second,
        )
        refl,
    lookup-reuse r'.annotations "0" (machine_keys_for machines_in ng') _
        ∙ rw ((slot_keys ng' second.0 second.1).1) refl,
  )
