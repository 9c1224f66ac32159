-- ===== src/Patch/Resolve.antt =====
-- Which patches apply to a machine, and in which order (internal/api/patch/resolve.go).
use rezuscloud.Prelude.{
  ℕ, Bool, true, ◌&&◌, not, Option, none, some, String, List, [], ◌∷◌, map, ◌==◌, eqb, ltb,
  if◌then◌else◌,
}
use rezuscloud.Effects.{Exec, pure, ◌>>=◌}
use rezuscloud.State.Tables.{Tables}
use rezuscloud.State.Resources.{Loaded}
use rezuscloud.State.Listing.{Sqlite, list_typed_by_tenant}
use rezuscloud.State.Listing.Names.{text_leb, sort_by}

pub record PatchSpec : Type 0 where
  pub patch : String
  pub format : String
  pub scope : String
  pub target_machine : String
  pub target_role : String
  pub enabled : Bool

pub record NamedSpec : Type 0 where
  pub spec : PatchSpec
  pub name : String

pub record Scoped : Type 0 where
  pub name : String
  pub rank : ℕ
  pub patches : String

unfoldable pub effective_scope : String → String
effective_scope scope = if scope == "" then "cluster" else scope

-- The first two `continue`s and the third, in their order.
unfoldable pub skipped : String → String → PatchSpec → Bool
unfolding effective_scope
skipped role machine ps =
    if not ps.enabled
    then true
    else if (effective_scope ps.scope == "machine") && not (ps.target_machine == machine)
    then true
    else not (ps.target_role == "")
      && (not (ps.target_role == "all") && (not (role == "") && not (ps.target_role == role)))

unfoldable pub scoped_of : NamedSpec → Scoped
unfolding effective_scope
scoped_of ns = record {
  name = ns.name;
  rank = if effective_scope ns.spec.scope == "machine" then 1 else 0;
  patches = ns.spec.patch;
}

unfoldable pub resolved : String → String → List NamedSpec → List Scoped
unfolding skipped scoped_of
resolved role machine [] = []
resolved role machine (ns ∷ rest) =
    let others = resolved role machine rest in
    if skipped role machine ns.spec then others else scoped_of ns ∷ others

-- The order of the sort: its `less` is "not after".
unfoldable pub scoped_leb : Scoped → Scoped → Bool
scoped_leb a b = if eqb a.rank b.rank then text_leb a.name b.name else ltb a.rank b.rank

unfoldable pub in_precedence : List Scoped → List String
in_precedence xs = map (λ s. s.patches) (sort_by scoped_leb xs)

-- The build callback.
unfoldable pub named_spec : (String → Option PatchSpec) → Loaded → Option NamedSpec
named_spec decode l = elim (decode l.spec) [
  | none ↦ none
  | some ps ↦ some (record { spec = ps; name = l.metadata.name })
]

-- `decode` is json.Unmarshal of a spec into a PatchSpec.
unfoldable pub resolve_patches :
    Sqlite → (String → Option PatchSpec) → String → String → String → Exec Tables (List String)
unfolding in_precedence resolved
resolve_patches sqlite decode tenant role machine = do
  (items, _) ← list_typed_by_tenant sqlite "configpatch" tenant (named_spec decode)
  pure (in_precedence (resolved role machine items))
