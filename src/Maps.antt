-- ===== src/Maps.antt =====
-- Go maps with string keys, as association lists. A missing key reads as the zero value.
use rezuscloud.Prelude.{
  ◌≡◌, String, Option, none, some, List, [], ◌∷◌, arith, ◌==◌, eq_iff, if◌then◌else◌,
}

abbrev pub StringMap : Type 0
StringMap = List (String × String)

-- m[k] with the second result: present or not.
unfoldable pub lookup {ℓ} : {V : Type ℓ} → String → List (String × V) → Option V
lookup k [] = none
lookup k ((j, v) ∷ m) = let rest = lookup k m in if j == k then some v else rest

-- m[k] of a map[string]string.
unfoldable pub get_text : StringMap → String → String
unfolding lookup
get_text m k = elim (lookup k m) [ none ↦ "" | some v ↦ v ]

-- m[k] = v.
unfoldable pub insert {ℓ} : {V : Type ℓ} → String → V → List (String × V) → List (String × V)
insert k v [] = (k, v) ∷ []
insert k v ((j, u) ∷ m) = let rest = insert k v m in if j == k then (k, v) ∷ m else (j, u) ∷ rest

module _ {ℓ} {V : Type ℓ} (k : String) (v : V) where
  pub lookup-insert :
      (j : String) (m : List (String × V))
      → lookup j (insert k v m) ≡ (if k == j then some v else lookup j m)
  unfolding lookup insert
  lookup-insert j [] = ground arith
  lookup-insert j ((i, u) ∷ m) =
      ground (arith, lookup-insert j m, eq_iff i k, eq_iff i j, eq_iff k j)

pub get_text-insert :
    (k v j : String) (m : StringMap)
    → get_text (insert k v m) j ≡ (if k == j then v else get_text m j)
unfolding get_text
get_text-insert k v j m = rw (get_text, lookup-insert k v j m) (ground arith)
