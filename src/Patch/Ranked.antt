-- ===== src/Patch/Ranked.antt =====
-- The sort by rank and name (internal/api/patch/resolve.go).
use rezuscloud.Prelude.{
  ℕ, ◌≡◌, refl, ◌∙◌, ap, inl, inr, Bool, ◌&&◌, ◌||◌, not, String, List, [], ◌∷◌, ◌++◌, map, arith,
  ◌==◌, ◌≤◌, eqb, eqb_iff, filter, Bool-cases, text-cases, All,
}
use rezuscloud.State.Listing.Names.{text_leb, insert_by, sort_by}
use rezuscloud.State.Listing.Sorting.{All-sort}
use rezuscloud.Patch.Resolve.{
  PatchSpec, NamedSpec, Scoped, effective_scope, skipped, scoped_of, resolved, scoped_leb,
}

abbrev pub by_name : Scoped → Scoped → Bool
by_name a b = text_leb a.name b.name

abbrev pub is_cluster : Scoped → Bool
is_cluster s = eqb s.rank 0

-- Which patches a machine gets.
abbrev pub applies : String → String → PatchSpec → Bool
applies role machine ps =
    ps.enabled
    && ((not (ps.scope == "machine") || (ps.target_machine == machine))
        && ((ps.target_role == "")
            || ((ps.target_role == "all") || ((role == "") || (ps.target_role == role)))))

pub effective_scope-machine :
    (scope : String) → (effective_scope scope == "machine") ≡ (scope == "machine")
unfolding effective_scope
effective_scope-machine scope = elim (text-cases scope "") [
  | inl none_given ↦ rw none_given refl
  | inr given ↦ rw given refl
]

skipped-applies :
    (role machine : String) (ps : PatchSpec)
    → skipped role machine ps ≡ not (applies role machine ps)
unfolding skipped
skipped-applies role machine ps = rw (effective_scope-machine ps.scope) (ground arith)

abbrev pub applicable : String → String → List NamedSpec → List Scoped
applicable role machine items = map scoped_of (filter (λ ns. applies role machine ns.spec) items)

pub resolved-applicable :
    (role machine : String) (items : List NamedSpec)
    → resolved role machine items ≡ applicable role machine items
unfolding resolved
resolved-applicable role machine [] = refl
resolved-applicable role machine (ns ∷ rest) = elim (Bool-cases (applies role machine ns.spec)) [
  | inl e ↦ rw (skipped-applies role machine ns.spec, e, resolved-applicable role machine rest) refl
  | inr e ↦ rw (skipped-applies role machine ns.spec, e, resolved-applicable role machine rest) refl
]

abbrev Rank : ℕ → Scoped → Type 0
Rank n s = s.rank ≡ n

insert_cluster :
    (a : Scoped) (xs ys : List Scoped)
    → a.rank ≡ 0
    → All (Rank 0) xs
    → All (Rank 1) ys
    → insert_by scoped_leb a (xs ++ ys) ≡ insert_by by_name a xs ++ ys
unfolding insert_by scoped_leb
insert_cluster a [] [] e hx hy = refl
insert_cluster a [] (y ∷ ys) e hx hy = ground arith
insert_cluster a (x ∷ xs) ys e hx hy = ground (arith, insert_cluster a xs ys e hx.1 hy)

insert_machine :
    (a : Scoped) (xs ys : List Scoped)
    → a.rank ≡ 1
    → All (Rank 0) xs
    → All (Rank 1) ys
    → insert_by scoped_leb a (xs ++ ys) ≡ xs ++ insert_by by_name a ys
unfolding insert_by scoped_leb
insert_machine a [] [] e hx hy = refl
insert_machine a [] (y ∷ ys) e hx hy = ground (arith, insert_machine a [] ys e hx hy.1)
insert_machine a (x ∷ xs) ys e hx hy = ground (arith, insert_machine a xs ys e hx.1 hy)

abbrev pub clusters : List Scoped → List Scoped
clusters xs = sort_by by_name (filter is_cluster xs)

abbrev pub machines : List Scoped → List Scoped
machines xs = sort_by by_name (filter (λ s. not (is_cluster s)) xs)

filter-clusters : (xs : List Scoped) → All (Rank 0) (filter is_cluster xs)
filter-clusters [] = tt
filter-clusters (x ∷ xs) = elim (Bool-cases (is_cluster x)) [
  | inl e ↦ rw e (ground arith, filter-clusters xs)
  | inr e ↦ rw e (filter-clusters xs)
]

filter-machines :
    (xs : List Scoped)
    → All (λ s. s.rank ≤ 1) xs
    → All (Rank 1) (filter (λ s. not (is_cluster s)) xs)
filter-machines [] h = tt
filter-machines (x ∷ xs) h = elim (Bool-cases (is_cluster x)) [
  | inl e ↦ rw e (filter-machines xs h.1)
  | inr e ↦ rw e (ground arith, filter-machines xs h.1)
]

pub sort-split :
    (xs : List Scoped)
    → All (λ s. s.rank ≤ 1) xs
    → sort_by scoped_leb xs ≡ clusters xs ++ machines xs
unfolding sort_by
sort-split [] h = refl
sort-split (x ∷ xs) h =
    let all_clusters = All-sort by_name (Rank 0) (filter is_cluster xs) (filter-clusters xs) in
    let all_machines =
      All-sort by_name (Rank 1) (filter (λ s. not (is_cluster s)) xs) (filter-machines xs h.1) in
    ap (insert_by scoped_leb x) (sort-split xs h.1) ∙ elim (Bool-cases (is_cluster x)) [
      | inl e ↦ rw e (
          insert_cluster x (clusters xs) (machines xs) ((eqb_iff x.rank 0).0 e) all_clusters
            all_machines)
      | inr e ↦
          rw e
            (insert_machine x (clusters xs) (machines xs) (ground arith) all_clusters all_machines)
    ]

pub ranks : (items : List NamedSpec) → All (λ s. s.rank ≤ 1) (map scoped_of items)
unfolding scoped_of
ranks [] = tt
ranks (ns ∷ rest) = (ground arith, ranks rest)
