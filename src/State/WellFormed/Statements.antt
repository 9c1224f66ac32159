-- ===== src/State/WellFormed/Statements.antt =====
-- The invariant of the `resources` table (store.go), and each SQL statement on it.
use rezuscloud.Prelude.{
  ◌≤◌, ◌≡◌, inl, inr, Bool, false, String, List, [], ◌∷◌, ◌==◌, All, any, Option-cases,
}
use rezuscloud.Sql.Rows.{All-append, All-delete_where, All-update_where}
use rezuscloud.Sql.Keyed.{IsUnique, IsUnique-append, IsUnique-delete_where, IsUnique-update_where}
use rezuscloud.Effects.Keeps.{IsPreorder}
use rezuscloud.State.Tables.{Tables, Row, ResourceEvent, key, same, same_iff, select, notify}
use rezuscloud.State.Resources.{insert_row, update_rows, delete_row}

-- No finalizer stands twice.
abbrev pub IsDistinct : List String → Type 0
IsDistinct [] = Unit
IsDistinct (f ∷ fs) = (any (λ g. g == f) fs ≡ false) × IsDistinct fs

abbrev pub IsGoodRow : Row → Type 0
IsGoodRow r = (1 ≤ r.version) × IsDistinct r.finalizers

pub record IsWellFormed (t : Tables) : Type 0 where
  pub unique : IsUnique key same t.resources
  pub rows : All IsGoodRow t.resources

abbrev pub Preserves : Tables → Tables → Type 0
Preserves t u = IsWellFormed t → IsWellFormed u

pub Preserves-preorder : IsPreorder Preserves
Preserves-preorder = record { same = λ t h. h; trans = λ t u v f g h. g (f h) }

pub insert_row-Preserves : (r : Row) → IsGoodRow r → (t : Tables) → Preserves t (insert_row r t).1
unfolding insert_row
insert_row-Preserves r good t w = elim (Option-cases (select r.type r.name t)) [
  | inl free ↦
      rw (free, insert_row)
        (record {
          unique = IsUnique-append key same same_iff t.resources r free w.unique;
          rows = All-append IsGoodRow t.resources r w.rows good;
        })
  | inr (_, taken) ↦ rw (taken, insert_row) w
]

pub delete_row-Preserves : (ty nm : String) (t : Tables) → Preserves t (delete_row ty nm t).1
unfolding delete_row
delete_row-Preserves ty nm t w = record {
  unique = IsUnique-delete_where key same same_iff _ t.resources w.unique;
  rows = All-delete_where IsGoodRow _ t.resources w.rows;
}

pub update_rows-Preserves :
    (ty nm : String) (extra : Row → Bool) (f : Row → Row)
    → ((r : Row) → key (f r) ≡ key r)
    → ((r : Row) → IsGoodRow r → IsGoodRow (f r))
    → (t : Tables) → Preserves t (update_rows ty nm extra f t).1
unfolding update_rows
update_rows-Preserves ty nm extra f keeps good t w = record {
  unique = IsUnique-update_where key same same_iff _ f keeps t.resources w.unique;
  rows = All-update_where IsGoodRow _ f good t.resources w.rows;
}

pub notify-Preserves : (e : ResourceEvent) (t : Tables) → Preserves t (notify e t)
notify-Preserves e t w = record { unique = w.unique; rows = w.rows }
