-- ===== src/State/Rows.antt =====
-- What the SQL statements on `resources` do to the row that a key selects: the laws by which the
-- theorems about the operations are proved.
use mathlib.Core.Option
use rezuscloud.Prelude.{
  ◌≡◌, refl, ◌∙◌, ap, inl, inr, Bool, true, none, some, String, List, [], ◌∷◌, arith, if◌then◌else◌,
  Bool-cases,
}
use rezuscloud.Sql.{update_where, count_where}
use rezuscloud.Sql.Keyed.{
  lookup-append_free, lookup-delete_where, lookup-update_where, count_where-lookup, amend, affected,
  same_refl,
}
use rezuscloud.Effects.{ok}
use rezuscloud.State.Tables.{Tables, Row, key, same, same_iff, select}
use rezuscloud.State.Resources.{insert_row, update_rows, delete_row}
use rezuscloud.State.WellFormed.{IsWellFormed}

update_where-none :
    (p : Row → Bool) (f : Row → Row) (t : List Row) → count_where p t ≡ 0 → update_where p f t ≡ t
unfolding count_where update_where
update_where-none p f [] h = refl
update_where-none p f (r ∷ t) h = elim (Bool-cases (p r)) [
  | inl e ↦ absurd (ground arith)
  | inr e ↦ rw e (ap (◌∷◌ r) (update_where-none p f t (rw e at h)))
]

module _ (ty nm : String) (extra : Row → Bool) (f : Row → Row) (t : Tables) where
  -- The rows affected show in the selected row.
  pub affected-update_rows :
      IsWellFormed t
      → (update_rows ty nm extra f t).0 ≡ ok (affected key same extra (select ty nm t))
  unfolding update_rows
  affected-update_rows w =
      ap ok (count_where-lookup key same same_iff extra (ty, nm) t.resources w.unique)

  -- An UPDATE that affects no row changes nothing.
  pub update_rows-none :
      IsWellFormed t
      → affected key same extra (select ty nm t) ≡ 0
      → (update_rows ty nm extra f t).1 ≡ t
  unfolding update_rows
  update_rows-none w h =
      ap (λ (rs : List Row). record t { resources = rs })
        (update_where-none _ f t.resources
          (count_where-lookup key same same_iff extra (ty, nm) t.resources w.unique ∙ h))

  pub select-update_rows :
      ((r : Row) → key (f r) ≡ key r)
      → (ty' nm' : String)
      → select ty' nm' (update_rows ty nm extra f t).1 ≡ (
          if same (ty, nm) (ty', nm')
          then Option.map (amend key same extra f) (select ty nm t)
          else select ty' nm' t)
  unfolding update_rows
  select-update_rows keeps ty' nm' =
      lookup-update_where key same same_iff extra f keeps (ty, nm) (ty', nm') t.resources

  module _ (r : Row) (found : select ty nm t ≡ some r) (passes : extra r ≡ true) where
    pub update_rows-one : IsWellFormed t → (update_rows ty nm extra f t).0 ≡ ok 1
    update_rows-one w = affected-update_rows w ∙ rw (found, affected, passes) refl

    pub select-update_rows_self :
        ((r : Row) → key (f r) ≡ key r) → select ty nm (update_rows ty nm extra f t).1 ≡ some (f r)
    select-update_rows_self keeps =
        select-update_rows keeps ty nm
        ∙ rw (same_refl key same same_iff (ty, nm), found, passes) refl

pub select-delete_row :
    (ty nm ty' nm' : String) (t : Tables)
    → select ty' nm' (delete_row ty nm t).1
      ≡ (if same (ty, nm) (ty', nm') then none else select ty' nm' t)
unfolding delete_row
select-delete_row ty nm ty' nm' t =
    lookup-delete_where key same same_iff (ty, nm) (ty', nm') t.resources

pub select-insert_row :
    (r : Row) (t : Tables) (ty nm : String)
    → select r.type r.name t ≡ none
    → select ty nm (insert_row r t).1
      ≡ (if same (r.type, r.name) (ty, nm) then some r else select ty nm t)
unfolding insert_row
select-insert_row r t ty nm free =
    rw (free, insert_row) (lookup-append_free key same same_iff (ty, nm) t.resources r free)

pub same_self : (ty nm : String) → same (ty, nm) (ty, nm) ≡ true
same_self ty nm = same_refl key same same_iff (ty, nm)
