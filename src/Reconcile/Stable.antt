-- ===== src/Reconcile/Stable.antt =====
-- The binding tokens of one node group, twice (ensureBindingTokens in
-- internal/reconcile/applier.go).
use rezuscloud.Prelude.{
  ℕ, suc, ◌≡◌, refl, ap, ◌∙◌, inl, inr, Bool, true, false, Option, some, String, List, ◌==◌, All,
  Bool-cases,
}
use rezuscloud.Maps.{StringMap}
use rezuscloud.Effects.{Db, Result, ok, Exec, continue, pure}
use rezuscloud.State.Tables.{Tables, Row, select, metadata_of}
use rezuscloud.State.Resources.{get_resource}
use rezuscloud.State.WellFormed.{IsWellFormed, update_resource-Preserves}
use rezuscloud.State.Finalizers.Invariant.{get_resource_lem, loaded}
use rezuscloud.State.Concurrency.{update_resource-fresh, written}
use rezuscloud.Tfexec.World.{World, in_store}
use rezuscloud.Reconcile.Tokens.{Minted, mint_keys, ensure_keys, persist_tokens, start_from}
use rezuscloud.Reconcile.Minting.{
  HasToken, IsSound, IsMinted, reuse, mint_keys-IsMinted, mint_keys-settled,
}

-- The view of the database that a store operation has.
abbrev store_of : Db World → Db Tables
store_of d = record {
  tables = d.tables.store;
  clock = d.clock;
  readings = d.readings;
  faulty = d.faulty;
  statements = d.statements;
}

module _ (draw : ℕ → String) (machines_in : String → Option (List String)) (is_spec : String → Bool)
    (ng : String) where
  abbrev pub group : Db World → Option Row
  group d = select "nodegroup" ng d.tables.store

  abbrev pub ensure : List String → StringMap → Exec World StringMap
  ensure keys tokens = ensure_keys draw machines_in is_spec ng keys tokens

  get-group :
      (d : Db World) (r : Row)
      → IsSound d
      → group d ≡ some r
      → in_store (get_resource "nodegroup" ng) d
        ≡ (ok (loaded r), record d { statements = suc d.statements })
  unfolding in_store
  get-group d r fine found =
      rw (get_resource_lem "nodegroup" ng (store_of d) (fine d.statements), found) refl

  -- Where every key has its token, the tokens are read and nothing is written.
  pub ensure_keys-held :
      (keys : List String) (tokens : StringMap) (d : Db World) (r : Row)
      → IsSound d
      → group d ≡ some r
      → All (HasToken r.annotations) keys
      → ensure keys tokens d
        ≡ (ok (reuse r.annotations keys tokens), record d { statements = suc d.statements })
  unfolding ensure_keys persist_tokens metadata_of
  ensure_keys-held keys tokens d r fine found all =
      rw
        (
          get-group d r fine found,
          mint_keys-settled draw keys (start_from tokens (loaded r))
              (record d { statements = suc d.statements }) all,
        )
        refl

  abbrev persist : Row → Minted → Exec World Unit
  persist r m = persist_tokens draw machines_in is_spec ng (loaded r) m

  module _ (d : Db World) (r : Row) (fine : IsSound d) (w : IsWellFormed d.tables.store)
      (found : group d ≡ some r) (decodes : is_spec r.spec ≡ true) where
    -- The tokens stand on the node group.
    persist-changed :
        (m : Minted)
        → m.changed ≡ true
        → ((persist r m d).0 ≡ ok tt)
          × (group (persist r m d).1
              ≡ some (written r.spec r.labels m.annotations (d.clock d.readings) r))
          × IsSound (persist r m d).1
    unfolding persist_tokens in_store metadata_of
    persist-changed m changed =
        let write =
          update_resource-fresh "nodegroup" ng r.version r.spec r.labels m.annotations (store_of d)
            w fine r found refl in
        rw (changed, decodes, write.0)
          (
            refl,
            write.1,
            λ n.
                rw
                  ((update_resource-Preserves "nodegroup" ng r.version (some r.spec) r.labels
                      m.annotations).env
                    (store_of d))
                  (fine n),
          )

    persist-unchanged : (m : Minted) → m.changed ≡ false → persist r m d ≡ (ok tt, d)
    unfolding persist_tokens
    persist-unchanged m same = rw same refl

  -- What a run leaves: every key has its token on the node group, and these are the tokens that
  -- it returned.
  abbrev pub Recorded : List String → StringMap → Result StringMap × Db World → Type 0
  Recorded keys tokens (result, d) =
      (r : Row) × (group d ≡ some r)
      × All (HasToken r.annotations) keys
      × IsSound d
      × (result ≡ ok (reuse r.annotations keys tokens))

  module _ (good : (n : ℕ) → (draw n == "") ≡ false) (keys : List String) (tokens : StringMap)
      (d : Db World) (r : Row) (fine : IsSound d) (w : IsWellFormed d.tables.store)
      (found : group d ≡ some r) (decodes : is_spec r.spec ≡ true) where
    abbrev at : ℕ → Db World
    at n = record d { statements = n }

    ensure_keys-steps :
        (m' : Minted) (n : ℕ)
        → mint_keys draw keys (start_from tokens (loaded r)) (at (suc d.statements)) ≡ (ok m', at n)
        → ensure keys tokens d
          ≡ continue (persist r m' (at n)).0 (λ u. pure m'.tokens) (persist r m' (at n)).1
    unfolding ensure_keys
    ensure_keys-steps m' n run = rw (get-group d r fine found, run) refl

    recorded :
        (m' : Minted) (n : ℕ)
        → IsMinted keys (start_from tokens (loaded r)) m'
        → Recorded keys tokens
            (continue (persist r m' (at n)).0 (λ u. pure m'.tokens) (persist r m' (at n)).1)
    unfolding metadata_of
    recorded m' n i = elim (Bool-cases m'.changed) [
      | inl e ↦
          let (done, stands, sound) = persist-changed (at n) r fine w found decodes m' e in
          rw done (
            written r.spec r.labels m'.annotations (d.clock d.readings) r,
            stands,
            i.settled,
            sound,
            ap ok i.tokens,
          )
      | inr e ↦
          let same = i.unchanged e in
          rw (persist-unchanged (at n) r fine w found decodes m' e)
            (r, found, rw⁻¹ same i.settled, fine, ap ok (i.tokens ∙ rw same refl))
    ]

    ensure_keys-Recorded : Recorded keys tokens (ensure keys tokens d)
    ensure_keys-Recorded =
        let (m', n, run, i) =
          mint_keys-IsMinted draw good keys (start_from tokens (loaded r)) (at (suc d.statements))
            fine in
        rw (ensure_keys-steps m' n run) (recorded m' n i)

    -- With a working database, a run returns a token for each machine key and leaves it on the
    -- node group; a second run returns the same tokens and writes nothing.
    pub ensure_keys-again :
        let (result, d') = ensure keys tokens d in
        Recorded keys tokens (result, d')
        × (ensure keys tokens d' ≡ (result, record d' { statements = suc d'.statements }))
    ensure_keys-again =
        let (r', stands, all, sound, returned) = ensure_keys-Recorded in
        (
          ensure_keys-Recorded,
          ensure_keys-held keys tokens (ensure keys tokens d).1 r' sound stands all
              ∙ rw returned refl,
        )
