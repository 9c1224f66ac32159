-- ===== src/Sql/Keyed.antt =====
-- A table with a UNIQUE key: lookups by the key after each statement, and the key stays unique.
use mathlib.Core.Option
use mathlib.Core.Path.{subst}
use rezuscloud.Prelude.{
  ℕ, ◌≡◌, refl, ◌↔◌, inl, inr, Bool, true, ◌&&◌, Option, none, some, List, [], ◌∷◌, ◌++◌, arith,
  if◌then◌else◌, Bool-cases,
}
use rezuscloud.Sql.{select_row, delete_where, update_where, count_where}

module _ {A K : Type 0} (key : A → K) (same : K → K → Bool) where
  abbrev pub hits : K → A → Bool
  hits k a = same k (key a)

  abbrev pub lookup : K → List A → Option A
  lookup k t = select_row (hits k) t

  -- No two rows have one key.
  abbrev pub IsUnique : List A → Type 0
  IsUnique [] = Unit
  IsUnique (a ∷ t) = (lookup (key a) t ≡ none) × IsUnique t

  -- A row found first, or else a default.
  abbrev pub found_or : Option A → Option A → Option A
  found_or none d = d
  found_or (some a) d = some a

  abbrev pub amend : (A → Bool) → (A → A) → A → A
  amend extra f a = if extra a then f a else a

  abbrev pub affected : (A → Bool) → Option A → ℕ
  affected extra none = 0
  affected extra (some a) = if extra a then 1 else 0

module _ {A K : Type 0} (key : A → K) (same : K → K → Bool)
    (same_iff : (i j : K) → (same i j ≡ true) ↔ (i ≡ j)) where
  pub same_refl : (k : K) → same k k ≡ true
  same_refl k = (same_iff k k).1 refl

  pub same_sym : (i j : K) → same i j ≡ same j i
  same_sym i j = ground (arith, same_iff i j, same_iff j i)

  pub lookup-append :
      (k : K) (t : List A) (a : A)
      → lookup key same k (t ++ a ∷ [])
        ≡ found_or key same (lookup key same k t) (if same k (key a) then some a else none)
  unfolding select_row
  lookup-append k [] a = ground arith
  lookup-append k (b ∷ t) a = ground (arith, lookup-append k t a)

  pub lookup-delete_where :
      (k j : K) (t : List A)
      → lookup key same j (delete_where (hits key same k) t)
        ≡ (if same k j then none else lookup key same j t)
  unfolding select_row delete_where
  lookup-delete_where k j [] = ground arith
  lookup-delete_where k j (a ∷ t) =
      ground
        (arith, lookup-delete_where k j t, same_iff k (key a), same_iff j (key a), same_iff k j)

  module _ (extra : A → Bool) (f : A → A) (keeps : (a : A) → key (f a) ≡ key a) where
    pub lookup-update_where :
        (k j : K) (t : List A)
        → lookup key same j (update_where (λ a. hits key same k a && extra a) f t) ≡ (
            if same k j
            then Option.map (amend key same extra f) (lookup key same k t)
            else lookup key same j t)
    unfolding select_row update_where
    lookup-update_where k j [] = ground arith
    lookup-update_where k j (a ∷ t) = ground (
      arith,
      lookup-update_where k j t,
      same_iff k (key a),
      same_iff j (key a),
      same_iff k j,
      same_iff k (key (f a)),
      same_iff j (key (f a)),
      keeps a,
    )

  count_where-zero :
      (extra : A → Bool) (k : K) (t : List A)
      → lookup key same k t ≡ none
      → count_where (λ a. hits key same k a && extra a) t ≡ 0
  unfolding select_row count_where
  count_where-zero extra k [] h = refl
  count_where-zero extra k (a ∷ t) h = ground (arith, count_where-zero extra k t)

  -- With the key unique, at most one row is affected, and whether it is shows in the lookup.
  pub count_where-lookup :
      (extra : A → Bool) (k : K) (t : List A)
      → IsUnique key same t
      → count_where (λ a. hits key same k a && extra a) t
        ≡ affected key same extra (lookup key same k t)
  unfolding select_row count_where
  count_where-lookup extra k [] u = refl
  count_where-lookup extra k (a ∷ t) u =
      ground (arith, count_where-lookup extra k t, count_where-zero extra k t, same_iff k (key a))

  lookup-delete_none :
      (p : A → Bool) (k : K) (t : List A)
      → lookup key same k t ≡ none
      → lookup key same k (delete_where p t) ≡ none
  unfolding select_row delete_where
  lookup-delete_none p k [] h = refl
  lookup-delete_none p k (a ∷ t) h = ground (arith, lookup-delete_none p k t)

  -- Every statement keeps the key unique: an INSERT because it is refused where the key is there.
  pub IsUnique-delete_where :
      (p : A → Bool) (t : List A) → IsUnique key same t → IsUnique key same (delete_where p t)
  unfolding delete_where
  IsUnique-delete_where p [] u = tt
  IsUnique-delete_where p (a ∷ t) u = elim (Bool-cases (p a)) [
    | inl e ↦ rw e (IsUnique-delete_where p t u.1)
    | inr e ↦ rw e (lookup-delete_none p (key a) t u.0, IsUnique-delete_where p t u.1)
  ]

  lookup-update_none :
      (p : A → Bool) (f : A → A) (keeps : (a : A) → key (f a) ≡ key a) (k : K) (t : List A)
      → lookup key same k t ≡ none
      → lookup key same k (update_where p f t) ≡ none
  unfolding select_row update_where
  lookup-update_none p f keeps k [] h = refl
  lookup-update_none p f keeps k (a ∷ t) h =
      ground (arith, lookup-update_none p f keeps k t, keeps a)

  pub IsUnique-update_where :
      (p : A → Bool) (f : A → A)
      → ((a : A) → key (f a) ≡ key a)
      → (t : List A) → IsUnique key same t
      → IsUnique key same (update_where p f t)
  unfolding update_where
  IsUnique-update_where p f keeps [] u = tt
  IsUnique-update_where p f keeps (a ∷ t) u = elim (Bool-cases (p a)) [
    | inl e ↦ rw e (
      rw (keeps a) (lookup-update_none p f keeps (key a) t u.0),
      IsUnique-update_where p f keeps t u.1,
    )
    | inr e ↦
        rw e (lookup-update_none p f keeps (key a) t u.0, IsUnique-update_where p f keeps t u.1)
  ]

  pub IsUnique-append :
      (t : List A) (a : A)
      → lookup key same (key a) t ≡ none
      → IsUnique key same t
      → IsUnique key same (t ++ a ∷ [])
  unfolding select_row
  IsUnique-append [] a h u = (refl, tt)
  IsUnique-append (b ∷ t) a h u = (
    (ground (arith, lookup-append (key b) t a, u.0, same_sym (key a) (key b))),
    IsUnique-append t a (ground arith) u.1,
  )

  -- After an INSERT that was not refused.
  pub lookup-append_free :
      (k : K) (t : List A) (a : A)
      → lookup key same (key a) t ≡ none
      → lookup key same k (t ++ a ∷ []) ≡ (if same (key a) k then some a else lookup key same k t)
  lookup-append_free k t a free = elim (Bool-cases (same (key a) k)) [
    | inl e ↦
        subst
          (λ j.
            lookup key same j (t ++ a ∷ [])
            ≡ (if same (key a) j then some a else lookup key same j t))
          ((same_iff (key a) k).0 e) (ground (arith, lookup-append (key a) t a, same_refl (key a)))
    | inr e ↦ ground (arith, lookup-append k t a, same_sym (key a) k)
  ]
