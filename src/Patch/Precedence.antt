-- ===== src/Patch/Precedence.antt =====
-- The precedence of config patches (internal/api/patch/resolve.go): the generator applies them in
-- the order of the list, and the last writer wins.
use rezuscloud.Prelude.{
  ◌≡◌, refl, ◌∙◌, ap, inl, inr, Bool, not, String, List, [], ◌∷◌, ◌++◌, map, arith, ◌==◌, filter,
  Bool-cases, Option, none, some, true, false,
}
use mathlib.Core.List.{map-append}
use rezuscloud.State.Listing.Names.{text_leb, insert_by, sort_by}
use rezuscloud.State.Listing.Sorting.{IsSorted, sort-IsSorted, text_leb-total, text_leb_trans}
use rezuscloud.Patch.Resolve.{PatchSpec, NamedSpec, Scoped, scoped_of, resolved, in_precedence}
use rezuscloud.Effects.{Db, ok}
use rezuscloud.State.Tables.{Tables, Row, metadata_of}
use rezuscloud.State.Amend.{IsHealthy}
use rezuscloud.State.Listing.{Sqlite, build_all, list_typed, list_typed_by_tenant}
use rezuscloud.State.Listing.Queries.{answers, label_is, ReadsKey, tenant_key}
use rezuscloud.State.Listing.Pages.{as_loaded, list_resources-unlimited}
use rezuscloud.Patch.Resolve.{named_spec, resolve_patches}
use rezuscloud.Patch.Ranked.{
  by_name, is_cluster, applies, applicable, effective_scope-machine, resolved-applicable,
  sort-split, ranks,
}

-- The patches of cluster scope, and those of one machine.
abbrev pub is_for_machine : NamedSpec → Bool
is_for_machine ns = ns.spec.scope == "machine"

abbrev pub spec_by_name : NamedSpec → NamedSpec → Bool
spec_by_name a b = text_leb a.name b.name

abbrev pub chosen : String → String → List NamedSpec → List NamedSpec
chosen role machine items = filter (λ ns. applies role machine ns.spec) items

abbrev pub for_cluster : String → String → List NamedSpec → List NamedSpec
for_cluster role machine items =
    sort_by spec_by_name (filter (λ ns. not (is_for_machine ns)) (chosen role machine items))

abbrev pub for_machine : String → String → List NamedSpec → List NamedSpec
for_machine role machine items =
    sort_by spec_by_name (filter is_for_machine (chosen role machine items))

insert_by-scoped_of :
    (a : NamedSpec) (t : List NamedSpec)
    → insert_by by_name (scoped_of a) (map scoped_of t) ≡ map scoped_of (insert_by spec_by_name a t)
unfolding insert_by scoped_of
insert_by-scoped_of a [] = refl
insert_by-scoped_of a (b ∷ t) = elim (Bool-cases (text_leb a.name b.name)) [
  | inl e ↦ rw e refl
  | inr e ↦ rw (e, insert_by-scoped_of a t) refl
]

sort_by-scoped_of :
    (t : List NamedSpec)
    → sort_by by_name (map scoped_of t) ≡ map scoped_of (sort_by spec_by_name t)
unfolding sort_by
sort_by-scoped_of [] = refl
sort_by-scoped_of (a ∷ t) =
    ap (insert_by by_name (scoped_of a)) (sort_by-scoped_of t) ∙ insert_by-scoped_of a _

is_cluster-scoped_of : (ns : NamedSpec) → is_cluster (scoped_of ns) ≡ not (is_for_machine ns)
unfolding scoped_of
is_cluster-scoped_of ns = rw (effective_scope-machine ns.spec.scope) (ground arith)

filter-scoped_of :
    (p : Scoped → Bool) (p' : NamedSpec → Bool)
    → ((ns : NamedSpec) → p (scoped_of ns) ≡ p' ns)
    → (t : List NamedSpec) → filter p (map scoped_of t) ≡ map scoped_of (filter p' t)
filter-scoped_of p p' alike [] = refl
filter-scoped_of p p' alike (ns ∷ t) = elim (Bool-cases (p' ns)) [
  | inl e ↦ rw (alike ns, e, filter-scoped_of p p' alike t) refl
  | inr e ↦ rw (alike ns, e, filter-scoped_of p p' alike t) refl
]

patches-scoped_of :
    (t : List NamedSpec) → map (λ s. s.patches) (map scoped_of t) ≡ map (λ ns. ns.spec.patch) t
unfolding scoped_of
patches-scoped_of [] = refl
patches-scoped_of (ns ∷ t) = ap (◌∷◌ ns.spec.patch) (patches-scoped_of t)

pub in_precedence-chosen :
    (role machine : String) (items : List NamedSpec)
    → in_precedence (resolved role machine items)
      ≡ map (λ ns. ns.spec.patch) (for_cluster role machine items)
        ++ map (λ ns. ns.spec.patch) (for_machine role machine items)
unfolding in_precedence
in_precedence-chosen role machine items =
    rw
      (
        resolved-applicable role machine items,
        sort-split (applicable role machine items) (ranks (chosen role machine items)),
        filter-scoped_of is_cluster (λ ns. not (is_for_machine ns)) is_cluster-scoped_of
            (chosen role machine items),
        filter-scoped_of (λ s. not (is_cluster s)) is_for_machine
            (λ ns. rw (is_cluster-scoped_of ns) (ground arith)) (chosen role machine items),
        sort_by-scoped_of,
        sort_by-scoped_of,
      )
      (map-append (λ (s : Scoped). s.patches) (map scoped_of (for_cluster role machine items))
          (map scoped_of (for_machine role machine items))
        ∙ rw
            (
              patches-scoped_of (for_cluster role machine items),
              patches-scoped_of (for_machine role machine items),
            )
            refl)

-- The patch records among these rows, in their order; a row that does not decode is none.
abbrev pub with_record : String → Option PatchSpec → List NamedSpec → List NamedSpec
with_record nm none rest = rest
with_record nm (some ps) rest = record { spec = ps; name = nm } ∷ rest

abbrev pub declared : (String → Option PatchSpec) → List Row → List NamedSpec
declared decode [] = []
declared decode (r ∷ rows) = with_record r.name (decode r.spec) (declared decode rows)

build_all-declared :
    (decode : String → Option PatchSpec) (rows : List Row)
    → build_all (named_spec decode) (map as_loaded rows) ≡ declared decode rows
unfolding build_all named_spec metadata_of
build_all-declared decode [] = refl
build_all-declared decode (r ∷ rows) =
    go (decode r.spec) refl
    ∙ ap (with_record r.name (decode r.spec)) (build_all-declared decode rows)
  where
    go :
        (o : Option PatchSpec)
        → decode r.spec ≡ o
        → build_all (named_spec decode) (as_loaded r ∷ map as_loaded rows)
          ≡ with_record r.name o (build_all (named_spec decode) (map as_loaded rows))
    go none e = rw (build_all, named_spec, e) refl
    go (some ps) e = rw (build_all, named_spec, e) refl

spec_by_name-total : (a b : NamedSpec) → spec_by_name a b ≡ false → spec_by_name b a ≡ true
spec_by_name-total a b h = text_leb-total a.name b.name h

spec_by_name_trans :
    (a b c : NamedSpec)
    → spec_by_name a b ≡ true
    → spec_by_name b c ≡ true
    → spec_by_name a c ≡ true
spec_by_name_trans a b c h k = text_leb_trans a.name b.name c.name h k

module _ (sqlite : Sqlite) (decode : String → Option PatchSpec) (tenant role machine : String)
    (d : Db Tables) where
  -- The patch records of the tenant.
  abbrev pub records : List NamedSpec
  records =
      declared decode (answers "configpatch" (label_is "rezuscloud.io/tenant" tenant) d.tables)

  -- Take a database on which no statement fails and whose json_extract reads the tenant label.
  -- ResolvePatches returns the texts of the tenant's patch records that decode, are enabled, are
  -- for this machine if their scope is "machine", and whose role filter takes the machine's role:
  -- first those whose scope is not "machine", then those whose scope is, each sorted by name.
  pub resolve-precedence :
      IsHealthy d
      → ReadsKey sqlite "rezuscloud.io/tenant"
      → ((resolve_patches sqlite decode tenant role machine d).0
          ≡ ok (
              map (λ ns. ns.spec.patch) (for_cluster role machine records)
              ++ map (λ ns. ns.spec.patch) (for_machine role machine records)))
        × IsSorted spec_by_name (for_cluster role machine records)
        × IsSorted spec_by_name (for_machine role machine records)
  unfolding resolve_patches list_typed_by_tenant list_typed
  resolve-precedence fine reads = (
    rw
        (
          resolve_patches,
          list_typed_by_tenant,
          list_typed,
          list_resources-unlimited sqlite "configpatch" (label_is "rezuscloud.io/tenant" tenant)
              tenant_key reads d fine,
        )
        (ap ok (
          in_precedence-chosen role machine (
            build_all (named_spec decode) (
              map as_loaded
                (answers "configpatch" (label_is "rezuscloud.io/tenant" tenant) d.tables)))
          ∙ rw
              (build_all-declared decode
                (answers "configpatch" (label_is "rezuscloud.io/tenant" tenant) d.tables))
              refl)),
    sort-IsSorted spec_by_name spec_by_name-total spec_by_name_trans _,
    sort-IsSorted spec_by_name spec_by_name-total spec_by_name_trans _,
  )
