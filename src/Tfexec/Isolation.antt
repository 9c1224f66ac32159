-- ===== src/Tfexec/Isolation.antt =====
-- Files by their directory and name (internal/tfexec, os.WriteFile and os.Remove).
use rezuscloud.Prelude.{
  ◌≡◌, refl, inl, inr, Bool, true, false, String, List, [], ◌∷◌, ◌++◌, arith, ◌==◌, eq_iff,
  Option-cases,
}
use rezuscloud.Sql.{select_row, delete_where, update_where}
use rezuscloud.Tfexec.World.{File, at_place, file_at, set_file}

-- A lookup that no row touched by a statement answers.
module _ {A : Type 0} (q : A → Bool) where
  select_row-append_apart :
      (t : List A) (a : A) → q a ≡ false → select_row q (t ++ a ∷ []) ≡ select_row q t
  unfolding select_row
  select_row-append_apart [] a h = ground arith
  select_row-append_apart (b ∷ t) a h = ground (arith, select_row-append_apart t a)

  module _ (p : A → Bool) (apart : (a : A) → q a ≡ true → p a ≡ false) where
    pub select_row-delete_apart : (t : List A) → select_row q (delete_where p t) ≡ select_row q t
    unfolding select_row delete_where
    select_row-delete_apart [] = refl
    select_row-delete_apart (a ∷ t) = ground (arith, select_row-delete_apart t, apart a)

    select_row-update_apart :
        (f : A → A)
        → ((a : A) → q (f a) ≡ q a)
        → (t : List A) → select_row q (update_where p f t) ≡ select_row q t
    unfolding select_row update_where
    select_row-update_apart f keeps [] = refl
    select_row-update_apart f keeps (a ∷ t) =
        ground (arith, select_row-update_apart f keeps t, apart a, keeps a)

module _ (dir dir' : String) (apart : (dir == dir') ≡ false) where
  elsewhere :
      (name name' : String) (f : File) → at_place dir' name' f ≡ true → at_place dir name f ≡ false
  elsewhere name name' f h =
      ground (arith, apart, eq_iff dir' f.dir, eq_iff dir f.dir, eq_iff dir dir')

  pub file_at-set :
      (name' name text : String) (files : List File)
      → file_at dir' name' (set_file (record { dir = dir; name = name; text = text }) files)
        ≡ file_at dir' name' files
  unfolding set_file
  file_at-set name' name text files = elim (Option-cases (file_at dir name files)) [
    | inl e ↦
        rw (set_file, e)
          (select_row-append_apart (at_place dir' name') files _
            (ground (arith, apart, eq_iff dir' dir, eq_iff dir dir')))
    | inr (g, e) ↦
        rw (set_file, e)
          (select_row-update_apart (at_place dir' name') (at_place dir name) (elsewhere name name')
            _ (λ g. refl) files)
  ]

  pub file_at-remove :
      (name' name : String) (files : List File)
      → file_at dir' name' (delete_where (at_place dir name) files) ≡ file_at dir' name' files
  file_at-remove name' name files =
      select_row-delete_apart (at_place dir' name') (at_place dir name) (elsewhere name name') files
