-- ===== src/Sql.antt =====
-- The SQL statements that the stores send to the management-plane database, as functions on a
-- table, which is the list of its rows: `SELECT … WHERE`, `UPDATE … SET … WHERE`,
-- `DELETE … WHERE`, and the number of rows affected. `Keyed` has the laws of a table with a
-- UNIQUE key.
pub mod Keyed
pub mod Rows
use rezuscloud.Prelude.{ℕ, suc, Bool, true, false, Option, none, some, List, [], ◌∷◌, if◌then◌else◌}

module _ {A : Type 0} (p : A → Bool) where
  -- QueryRow: the first row that passes, and `none` for sql.ErrNoRows.
  unfoldable pub select_row : List A → Option A
  select_row [] = none
  select_row (a ∷ t) = let rest = select_row t in if p a then some a else rest

  unfoldable pub delete_where : List A → List A
  delete_where [] = []
  delete_where (a ∷ t) = let rest = delete_where t in if p a then rest else a ∷ rest

  unfoldable pub update_where : (A → A) → List A → List A
  update_where f [] = []
  update_where f (a ∷ t) = let rest = update_where f t in if p a then f a ∷ rest else a ∷ rest

  -- RowsAffected of an UPDATE or a DELETE with this condition, or SELECT COUNT(*).
  unfoldable pub count_where : List A → ℕ
  count_where [] = 0
  count_where (a ∷ t) = let rest = count_where t in if p a then suc rest else rest
