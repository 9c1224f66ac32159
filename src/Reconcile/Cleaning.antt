-- ===== src/Reconcile/Cleaning.antt =====
-- Which configurations a render leaves in the working directory (cleanProviderConfigs and
-- renderConfig in internal/reconcile/applier.go).
use rezuscloud.Prelude.{
  suc, ◌≡◌, refl, ◌∙◌, inl, inr, Bool, true, false, ◌&&◌, Option, none, some, String, List, [], ◌∷◌,
  arith, ◌==◌, eq_iff, any, map, filter, if◌then◌else◌, Bool-cases,
}
use rezuscloud.Sql.{select_row, delete_where}
use rezuscloud.Effects.{Db, ok, exec, query}
use rezuscloud.State.Listing.Names.{text_leb, sort_by, insert_by}
use rezuscloud.Tfexec.World.{World, File, at_place, file_at, remove_file, read_dir}
use rezuscloud.Reconcile.Minting.{IsSound}
use rezuscloud.Reconcile.Render.{is_provider_config, remove_each, clean_provider_configs}

any-insert :
    {A : Type 0} (leb : A → A → Bool) (q : A → Bool) (a : A) (t : List A)
    → any q (insert_by leb a t) ≡ any q (a ∷ t)
unfolding insert_by
any-insert leb q a [] = refl
any-insert leb q a (b ∷ t) = ground (arith, any-insert leb q a t)

any-sort :
    {A : Type 0} (leb : A → A → Bool) (q : A → Bool) (t : List A) → any q (sort_by leb t) ≡ any q t
unfolding sort_by
any-sort leb q [] = refl
any-sort leb q (a ∷ t) = any-insert leb q a (sort_by leb t) ∙ ground (arith, any-sort leb q t)

-- The names that os.ReadDir returns.
abbrev pub listed : String → List File → List String
listed dir files = sort_by text_leb (map (λ (f : File). f.name) (filter (λ f. dir == f.dir) files))

abbrev is_there : Option File → Bool
is_there none = false
is_there (some f) = true

unsorted-listed :
    (dir name : String) (files : List File)
    → any (λ n. n == name) (map (λ (f : File). f.name) (filter (λ f. dir == f.dir) files))
      ≡ is_there (file_at dir name files)
unfolding select_row
unsorted-listed dir name [] = refl
unsorted-listed dir name (f ∷ files) =
    ground (arith, unsorted-listed dir name files, eq_iff f.name name, eq_iff name f.name)

listed-file_at :
    (dir name : String) (files : List File)
    → any (λ n. n == name) (listed dir files) ≡ is_there (file_at dir name files)
listed-file_at dir name files = any-sort text_leb _ _ ∙ unsorted-listed dir name files

file_at-delete :
    (dir gone name : String) (files : List File)
    → file_at dir name (delete_where (at_place dir gone) files)
      ≡ (if gone == name then none else file_at dir name files)
unfolding select_row delete_where
file_at-delete dir gone name [] = ground arith
file_at-delete dir gone name (f ∷ files) = ground (
  arith,
  file_at-delete dir gone name files,
  eq_iff gone f.name,
  eq_iff name f.name,
  eq_iff gone name,
)

abbrev without_file : String → String → Db World → Db World
without_file dir name d = record d {
  statements = suc d.statements;
  tables = record d.tables { files = delete_where (at_place dir name) d.tables.files };
}

remove_file-ok :
    (dir name : String) (d : Db World)
    → IsSound d
    → remove_file dir name d ≡ (ok tt, without_file dir name d)
unfolding remove_file exec
remove_file-ok dir name d fine = rw (fine d.statements) refl

remove_each-ok :
    (dir : String) (names : List String) (d : Db World)
    → IsSound d
    → ((remove_each dir names d).0 ≡ ok tt)
      × IsSound (remove_each dir names d).1
      × ((name : String)
          → file_at dir name (remove_each dir names d).1.tables.files ≡ (
              if is_provider_config name && any (λ n. n == name) names
              then none
              else file_at dir name d.tables.files))
unfolding remove_each
remove_each-ok dir [] d fine = (refl, fine, λ name. ground arith)
remove_each-ok dir (n ∷ names) d fine = elim (Bool-cases (is_provider_config n)) [
  | inl e ↦
      let (done, sound, left) = remove_each-ok dir names (without_file dir n d) fine in
      rw (e, remove_file-ok dir n d fine)
        (
          done,
          sound,
          λ name.
              left name
              ∙ ground (arith, e, eq_iff n name, file_at-delete dir n name d.tables.files),
        )
  | inr e ↦
      let (done, sound, left) = remove_each-ok dir names d fine in
      rw e (done, sound, λ name. left name ∙ ground (arith, e, eq_iff n name))
]

-- With a working file system, the configurations that are not tfexec's own are gone, and every
-- other file is as it was.
pub clean_provider_configs-exact :
    (dir : String) (d : Db World)
    → IsSound d
    → let r = clean_provider_configs dir d in
      (r.0 ≡ ok tt)
      × IsSound r.1
      × ((name : String)
          → file_at dir name r.1.tables.files
            ≡ (if is_provider_config name then none else file_at dir name d.tables.files))
unfolding clean_provider_configs read_dir query
clean_provider_configs-exact dir d fine =
    let (done, sound, left) =
      remove_each-ok dir (listed dir d.tables.files) (record d { statements = suc d.statements })
        fine in
    rw (fine d.statements) (done, sound, λ name. left name ∙ gone name)
  where
    cases :
        (b : Bool) (f : Option File)
        → (if b && is_there f then none else f) ≡ (if b then none else f)
    cases true none = refl
    cases true (some f) = refl
    cases false f = refl

    gone :
        (name : String)
        → (if is_provider_config name && any (λ n. n == name) (listed dir d.tables.files)
            then none
            else file_at dir name d.tables.files)
          ≡ (if is_provider_config name then none else file_at dir name d.tables.files)
    gone name =
        rw (listed-file_at dir name d.tables.files)
          (cases (is_provider_config name) (file_at dir name d.tables.files))
