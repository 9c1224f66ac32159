-- ===== src/State/Listing/Pages.antt =====
-- What a list call returns (ListResources in store.go): the page of the matching live resources
-- in name order, and their number.
use rezuscloud.Prelude.{
  ℕ, zero, suc, ◌+◌, ◌*◌, ◌<◌, ◌≤◌, ◌≡◌, refl, sym, ◌∙◌, ap, inl, inr, Bool, true, false, String,
  List, [], ◌∷◌, ◌++◌, map, arith, filter, length, take, drop, Bool-cases, lt→ltb, take-append-drop,
  drop-all,
}
use native.Mathlib.Nat.{zero-add, suc-add}
use mathlib.Core.List.{map-append}
use rezuscloud.Effects.{Db, Exec, ok, pure, ◌>>=◌}
use rezuscloud.State.Tables.{Tables, Row, metadata_of}
use rezuscloud.State.Resources.{Loaded}
use rezuscloud.State.Amend.{IsHealthy}
use rezuscloud.State.Listing.Defs.{
  Sqlite, ListOptions, list_resources, counted, listed, page, name_leb,
}
use rezuscloud.State.Listing.Queries.{
  Query, text_of, IsProper, Reads, wanted, answers, selected-wanted, text_of-is_plain,
}
use rezuscloud.State.Listing.Sorting.{IsSorted, sort-IsSorted, text_leb-total, text_leb_trans}
use rezuscloud.State.Listing.Names.{sort_by, insert_by}

abbrev pub as_loaded : Row → Loaded
as_loaded r = record { metadata = metadata_of r; spec = r.spec; status = r.status }

length-insert_by :
    {A : Type 0} (leb : A → A → Bool) (a : A) (t : List A)
    → length (insert_by leb a t) ≡ suc (length t)
unfolding insert_by
length-insert_by leb a [] = refl
length-insert_by leb a (b ∷ t) = elim (Bool-cases (leb a b)) [
  | inl e ↦ rw e refl
  | inr e ↦ rw e (ap suc (length-insert_by leb a t))
]

pub length-sort_by :
    {A : Type 0} (leb : A → A → Bool) (t : List A) → length (sort_by leb t) ≡ length t
unfolding sort_by
length-sort_by leb [] = refl
length-sort_by leb (a ∷ t) = length-insert_by leb a (sort_by leb t) ∙ ap suc (length-sort_by leb t)

take-drop : {A : Type 0} (m n : ℕ) (xs : List A) → take n (drop m xs) ++ drop (m + n) xs ≡ drop m xs
take-drop zero n xs = rw zero-add (take-append-drop n xs)
take-drop (suc m) zero [] = rw suc-add refl
take-drop (suc m) (suc n) [] = rw suc-add refl
take-drop (suc m) n (x ∷ xs) = rw suc-add (take-drop m n xs)

name_leb-total : (r s : Row) → name_leb r s ≡ false → name_leb s r ≡ true
name_leb-total r s h = text_leb-total r.name s.name h

name_leb_trans : (r s v : Row) → name_leb r s ≡ true → name_leb s v ≡ true → name_leb r v ≡ true
name_leb_trans r s v h k = text_leb_trans r.name s.name v.name h k

pub answers-IsSorted : (ty : String) (q : Query) (t : Tables) → IsSorted name_leb (answers ty q t)
answers-IsSorted ty q t =
    sort-IsSorted name_leb name_leb-total name_leb_trans (filter (wanted ty q) t.resources)

module _ (sqlite : Sqlite) (ty : String) (q : Query) (proper : IsProper q)
    (reads : Reads sqlite q) where
  abbrev pub at_page : ℕ → ℕ → ListOptions
  at_page limit offset = record { offset = offset; limit = limit; label_selector = text_of q }

  counted-answers :
      (limit offset : ℕ) (t : Tables)
      → counted sqlite ty (at_page limit offset) t.resources ≡ ok (length (answers ty q t))
  unfolding counted
  counted-answers limit offset t =
      rw
        (
          text_of-is_plain q proper,
          selected-wanted sqlite ty q proper reads t.resources,
          length-sort_by name_leb (filter (wanted ty q) t.resources),
        )
        refl

  listed-answers :
      (limit offset : ℕ) (t : Tables)
      → listed sqlite ty (at_page limit offset) t.resources
        ≡ page (at_page limit offset) (answers ty q t)
  unfolding listed
  listed-answers limit offset t =
      rw (text_of-is_plain q proper, selected-wanted sqlite ty q proper reads t.resources) refl

  -- A page, with the number of the rows wanted.
  pub list_resources-limited :
      (limit offset : ℕ) (d : Db Tables)
      → IsHealthy d
      → 0 < limit
      → list_resources sqlite ty (at_page limit offset) d ≡ (
        ok (
          map as_loaded (take limit (drop offset (answers ty q d.tables))),
          length (answers ty q d.tables),
        ),
        record d { statements = suc (suc d.statements) },
      )
  unfolding list_resources
  list_resources-limited limit offset d fine limited =
      rw
        (
          fine d.statements,
          counted-answers limit offset d.tables,
          fine (suc d.statements),
          listed-answers limit offset d.tables,
          page,
          lt→ltb 0 limit limited,
        )
        refl

  -- All rows wanted, where neither a limit nor an offset is set.
  pub list_resources-unlimited :
      (d : Db Tables)
      → IsHealthy d
      → list_resources sqlite ty (at_page 0 0) d ≡ (
        ok (map as_loaded (answers ty q d.tables), length (answers ty q d.tables)),
        record d { statements = suc (suc d.statements) },
      )
  unfolding list_resources
  list_resources-unlimited d fine =
      rw
        (
          fine d.statements,
          counted-answers 0 0 d.tables,
          fine (suc d.statements),
          listed-answers 0 0 d.tables,
          page,
        )
        refl

  -- A client that asks for n pages of one size, one after the other, and joins them.
  pub walk : ℕ → ℕ → ℕ → Exec Tables (List Loaded)
  walk limit zero offset = pure []
  walk limit (suc n) offset = do
    (items, total) ← list_resources sqlite ty (at_page limit offset)
    rest ← walk limit n (offset + limit)
    pure (items ++ rest)

  walk-answers :
      (limit n offset : ℕ) (d : Db Tables)
      → IsHealthy d
      → 0 < limit
      → length (answers ty q d.tables) ≤ offset + n * limit
      → (walk limit n offset d).0 ≡ ok (map as_loaded (drop offset (answers ty q d.tables)))
  unfolding walk
  walk-answers limit zero offset d fine limited enough =
      rw (drop-all offset (answers ty q d.tables) (omega arith)) refl
  walk-answers limit (suc n) offset d fine limited enough =
      rw
        (
          list_resources-limited limit offset d fine limited,
          walk-answers limit n (offset + limit) (record d { statements = suc (suc d.statements) })
              fine limited (grind arith),
        )
        (ap ok (
          sym (
            map-append as_loaded (take limit (drop offset (answers ty q d.tables)))
              (drop (offset + limit) (answers ty q d.tables)))
          ∙ ap (map as_loaded) (take-drop offset limit (answers ty q d.tables))))

  -- Take a database on which no statement fails and that nothing changes meanwhile, a positive
  -- page size, and a selector that is empty, a key, or a key with a value, for a key of letters,
  -- digits and -./_ that json_extract reads. A client that joins enough pages from an offset on
  -- then has, behind the first `offset` of them, the rows of the type that are not marked as
  -- deleted and whose labels are as asked, each once, and they are sorted by name.
  pub walk_all :
      (limit n offset : ℕ) (d : Db Tables)
      → IsHealthy d
      → 0 < limit
      → length (answers ty q d.tables) ≤ offset + n * limit
      → ((walk limit n offset d).0 ≡ ok (map as_loaded (drop offset (answers ty q d.tables))))
        × IsSorted name_leb (answers ty q d.tables)
  walk_all limit n offset d fine limited enough =
      (walk-answers limit n offset d fine limited enough, answers-IsSorted ty q d.tables)
