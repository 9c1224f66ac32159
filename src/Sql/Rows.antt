-- ===== src/Sql/Rows.antt =====
-- What holds of every row of a table, after each statement.
use rezuscloud.Prelude.{◌≡◌, inl, inr, Bool, some, List, [], ◌∷◌, ◌++◌, arith, Bool-cases, All}
use rezuscloud.Sql.{select_row, delete_where, update_where}

module _ {A : Type 0} (P : A → Type 0) where
  pub All-append : (t : List A) (a : A) → All P t → P a → All P (t ++ a ∷ [])
  All-append [] a h ha = (ha, tt)
  All-append (b ∷ t) a h ha = (h.0, All-append t a h.1 ha)

  pub All-delete_where : (p : A → Bool) (t : List A) → All P t → All P (delete_where p t)
  unfolding delete_where
  All-delete_where p [] h = tt
  All-delete_where p (a ∷ t) h = elim (Bool-cases (p a)) [
    | inl e ↦ rw e (All-delete_where p t h.1)
    | inr e ↦ rw e (h.0, All-delete_where p t h.1)
  ]

  pub All-update_where :
      (p : A → Bool) (f : A → A)
      → ((a : A) → P a → P (f a))
      → (t : List A) → All P t
      → All P (update_where p f t)
  unfolding update_where
  All-update_where p f keeps [] h = tt
  All-update_where p f keeps (a ∷ t) h = elim (Bool-cases (p a)) [
    | inl e ↦ rw e (keeps a h.0, All-update_where p f keeps t h.1)
    | inr e ↦ rw e (h.0, All-update_where p f keeps t h.1)
  ]

  pub All-select_row : (p : A → Bool) (t : List A) {a : A} → All P t → select_row p t ≡ some a → P a
  unfolding select_row
  All-select_row p [] h e = absurd (ground arith)
  All-select_row p (b ∷ t) {a} h e = elim (Bool-cases (p b)) [
    | inl q ↦ ground arith
    | inr q ↦ All-select_row p t h.1 (ground arith)
  ]
