-- ===== src/State/Listing/Names.antt =====
-- ORDER BY on a TEXT column: texts compare by their code points, which is the order of their
-- UTF-8 bytes (SQLite's BINARY collation).
use Prim.Native.Char.{code}
use rezuscloud.Prelude.{Bool, true, false, String, List, [], ◌∷◌, ltb, eqb, if◌then◌else◌}

unfoldable pub text_leb : String → String → Bool
text_leb String.[] t = true
text_leb (String.◌∷◌ c s) String.[] = false
text_leb (String.◌∷◌ c s) (String.◌∷◌ d t) =
    let rest = text_leb s t in
    if ltb (code c) (code d) then true else if eqb (code c) (code d) then rest else false

module _ {A : Type 0} (leb : A → A → Bool) where
  unfoldable pub insert_by : A → List A → List A
  insert_by a [] = a ∷ []
  insert_by a (b ∷ t) = let rest = insert_by a t in if leb a b then a ∷ b ∷ t else b ∷ rest

  -- A stable sort.
  unfoldable pub sort_by : List A → List A
  unfolding insert_by
  sort_by [] = []
  sort_by (a ∷ t) = insert_by a (sort_by t)
