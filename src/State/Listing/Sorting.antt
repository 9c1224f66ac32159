-- ===== src/State/Listing/Sorting.antt =====
-- ORDER BY on a key whose order is total: what a sorted list is (internal/state/store.go sorts
-- lists by name, internal/api/patch/resolve.go patches by rank and name).
use rezuscloud.Prelude.{
  ◌≡◌, refl, inl, inr, Bool, true, false, String, List, [], ◌∷◌, arith, Bool-cases, All,
}
use mathlib.Core.List.{Perm}
use mathlib.Core.List.Perm
use rezuscloud.State.Listing.Names.{text_leb, insert_by, sort_by}

pub text_leb-total : (s t : String) → text_leb s t ≡ false → text_leb t s ≡ true
unfolding text_leb
text_leb-total String.[] t h = absurd (ground arith)
text_leb-total (String.◌∷◌ c s) String.[] h = refl
text_leb-total (String.◌∷◌ c s) (String.◌∷◌ d t) h = ground (arith, text_leb-total s t)

pub text_leb_trans :
    (s t u : String) → text_leb s t ≡ true → text_leb t u ≡ true → text_leb s u ≡ true
unfolding text_leb
text_leb_trans String.[] t u h k = refl
text_leb_trans (String.◌∷◌ c s) String.[] u h k = absurd (ground arith)
text_leb_trans (String.◌∷◌ c s) (String.◌∷◌ d t) String.[] h k = absurd (ground arith)
text_leb_trans (String.◌∷◌ c s) (String.◌∷◌ d t) (String.◌∷◌ e u) h k =
    ground (arith, text_leb_trans s t u)

module _ {A : Type 0} (leb : A → A → Bool) where
  abbrev pub IsSorted : List A → Type 0
  IsSorted [] = Unit
  IsSorted (a ∷ t) = All (λ b. leb a b ≡ true) t × IsSorted t

  All-insert : (P : A → Type 0) (a : A) (t : List A) → P a → All P t → All P (insert_by leb a t)
  unfolding insert_by
  All-insert P a [] h ht = (h, tt)
  All-insert P a (b ∷ t) h ht = elim (Bool-cases (leb a b)) [
    | inl e ↦ rw e (h, ht)
    | inr e ↦ rw e (ht.0, All-insert P a t h ht.1)
  ]

  pub All-sort : (P : A → Type 0) (t : List A) → All P t → All P (sort_by leb t)
  unfolding sort_by
  All-sort P [] h = tt
  All-sort P (a ∷ t) h = All-insert P a (sort_by leb t) h.0 (All-sort P t h.1)

  module _ (total : (a b : A) → leb a b ≡ false → leb b a ≡ true)
      (trans : (a b c : A) → leb a b ≡ true → leb b c ≡ true → leb a c ≡ true) where
    below :
        (a b : A) (t : List A)
        → leb a b ≡ true
        → All (λ c. leb b c ≡ true) t
        → All (λ c. leb a c ≡ true) t
    below a b [] h ht = tt
    below a b (c ∷ t) h ht = (trans a b c h ht.0, below a b t h ht.1)

    insert-IsSorted : (a : A) (t : List A) → IsSorted t → IsSorted (insert_by leb a t)
    unfolding insert_by
    insert-IsSorted a [] s = (tt, tt)
    insert-IsSorted a (b ∷ t) s = elim (Bool-cases (leb a b)) [
      | inl e ↦ rw e ((e, below a b t e s.0), s)
      | inr e ↦
          rw e (All-insert (λ c. leb b c ≡ true) a t (total a b e) s.0, insert-IsSorted a t s.1)
    ]

    pub sort-IsSorted : (t : List A) → IsSorted (sort_by leb t)
    unfolding sort_by
    sort-IsSorted [] = tt
    sort-IsSorted (a ∷ t) = insert-IsSorted a (sort_by leb t) (sort-IsSorted t)

  insert-Perm : (a : A) (t : List A) → Perm (insert_by leb a t) (a ∷ t)
  unfolding insert_by
  insert-Perm a [] = Perm.refl _
  insert-Perm a (b ∷ t) = elim (Bool-cases (leb a b)) [
    | inl e ↦ rw e (Perm.refl _)
    | inr e ↦ rw e (Perm.trans (Perm.cons b (insert-Perm a t)) (Perm.swap _ _ _))
  ]

  pub sort-Perm : (t : List A) → Perm (sort_by leb t) t
  unfolding sort_by
  sort-Perm [] = Perm.refl _
  sort-Perm (a ∷ t) = Perm.trans (insert-Perm a (sort_by leb t)) (Perm.cons a (sort-Perm t))
