-- ===== src/State/Listing/Defs.antt =====
-- Lists of resources: the options (internal/state/options.go), the label selector with its
-- helpers byteIndex and jsonPathKey, and ListResources (store.go).
use Prim.Native.Char.{Char, code}
use Prim.Native.String.{◌++◌ as concat}
use rezuscloud.Prelude.{
  ℕ, zero, suc, Bool, true, false, ◌&&◌, ◌||◌, not, Option, none, some, String, List, [], ◌∷◌, map,
  ◌==◌, eqb, ltb, leb, if◌then◌else◌, filter, length, take, drop,
}
use rezuscloud.Maps.{StringMap}
use rezuscloud.Effects.{Result, ok, err, driver, syntax_error, Exec, pure, context, query, ◌>>=◌}
use rezuscloud.State.Tables.{Row, Tables, metadata_of}
use rezuscloud.State.Resources.{Loaded, is_live}
use rezuscloud.State.Listing.Names.{text_leb, sort_by}

-- `offset` and `limit` are an `int`; the code takes one that is 0 or less as "not set".
pub record ListOptions : Type 0 where
  pub offset : ℕ
  pub limit : ℕ
  pub label_selector : String

abbrev pub ListOption : Type 0
ListOption = ListOptions → ListOptions

unfoldable pub apply_options : ListOptions → List ListOption → ListOptions
apply_options o [] = o
apply_options o (opt ∷ opts) = apply_options (opt o) opts

unfoldable pub new_list_options : List ListOption → ListOptions
unfolding apply_options
new_list_options opts = apply_options (record { offset = 0; limit = 50; label_selector = "" }) opts

unfoldable pub with_offset : ℕ → ListOption
with_offset n o = record o { offset = n }

unfoldable pub with_limit : ℕ → ListOption
with_limit n o = record o { limit = n }

unfoldable pub with_label_selector : String → ListOption
with_label_selector s o = record o { label_selector = s }

-- byteIndex(s, b) for an ASCII byte, as the number of characters before it.
unfoldable pub byte_index : String → ℕ → Option ℕ
byte_index String.[] b = none
byte_index (String.◌∷◌ c s) b =
    let rest = byte_index s b in
    if eqb (code c) b then some 0 else elim rest [ none ↦ none | some i ↦ some (suc i) ]

-- s[:i] and s[i:] at such a position.
unfoldable pub text_before : ℕ → String → String
text_before zero s = ""
text_before (suc i) String.[] = ""
text_before (suc i) (String.◌∷◌ c s) = String.◌∷◌ c (text_before i s)

unfoldable pub text_from : ℕ → String → String
text_from zero s = s
text_from (suc i) String.[] = ""
text_from (suc i) (String.◌∷◌ c s) = text_from i s

unfoldable pub json_path_key : String → String
unfolding byte_index
json_path_key key = elim (byte_index key b'.') [
  | some _ ↦ concat "\"" (concat key "\"")
  | none ↦ key
]

-- The page that LIMIT and OFFSET leave. OFFSET without LIMIT is no SQL that SQLite parses.
unfoldable pub page : ListOptions → List Row → Result (List Row)
page opts rows =
    if ltb 0 opts.limit
    then ok (take opts.limit (drop opts.offset rows))
    else if ltb 0 opts.offset
    then err (driver syntax_error)
    else ok rows

abbrev pub name_leb : Row → Row → Bool
name_leb r s = text_leb r.name s.name

-- The slice of typed resources (listtyped.go): a row that `build` refuses is skipped.
unfoldable pub build_all : {A : Type 0} → (Loaded → Option A) → List Loaded → List A
build_all build [] = []
build_all build (item ∷ items) =
    let rest = build_all build items in elim (build item) [ none ↦ rest | some a ↦ a ∷ rest ]

-- The key of a selector, which the code splices into the text of the statement, in the path
-- '$.<key>'.
unfoldable pub key_of : String → String
unfolding byte_index text_before
key_of selector = elim (byte_index selector b'=') [
  | some i ↦ text_before i selector
  | none ↦ selector
]

-- The characters that neither end the literal nor mean anything in a path (a dot is quoted).
abbrev pub is_plain_char : Char → Bool
is_plain_char c =
    (leb b'a' (code c) && leb (code c) b'z')
    || (leb b'A' (code c) && leb (code c) b'Z')
    || (leb b'-' (code c) && leb (code c) b'9')
    || eqb (code c) b'_'

unfoldable pub all_plain : String → Bool
all_plain String.[] = true
all_plain (String.◌∷◌ c s) = is_plain_char c && all_plain s

-- No selector, or a key that leaves the statement as it is meant.
unfoldable pub is_plain : String → Bool
unfolding key_of all_plain
is_plain selector =
    if selector == "" then true else not (key_of selector == "") && all_plain (key_of selector)

-- What is SQLite's: json_extract on the labels column, at a path of a plain key, and what the two
-- statements give where any other key is spliced into them: they may be refused, fail at a path
-- that is malformed, or select something else.
pub record Sqlite : Type 0 where
  pub json_extract : StringMap → String → Option String
  pub spliced_count : String → ListOptions → List Row → Result ℕ
  pub spliced_rows : String → ListOptions → List Row → Result (List Row)

module _ (sqlite : Sqlite) where
  -- The label condition of a plain key.
  unfoldable pub label_matches : String → StringMap → Bool
  unfolding byte_index text_before text_from json_path_key
  label_matches selector labels = if selector == "" then true else elim (byte_index selector b'=') [
    | some i ↦
        elim (sqlite.json_extract labels (concat "$." (json_path_key (text_before i selector)))) [
          | none ↦ false
          | some v ↦ v == text_from (suc i) selector
        ]
    | none ↦ elim (sqlite.json_extract labels (concat "$." (json_path_key selector))) [
      | none ↦ false
      | some v ↦ true
    ]
  ]

  -- WHERE type = ? AND deletion_timestamp IS NULL AND <label condition>.
  unfoldable pub selected : String → String → Row → Bool
  unfolding label_matches
  selected ty selector r = (r.type == ty) && is_live r && label_matches selector r.labels

  unfoldable pub counted : String → ListOptions → List Row → Result ℕ
  unfolding selected is_plain
  counted ty opts rows =
      if is_plain opts.label_selector
      then ok (length (filter (selected ty opts.label_selector) rows))
      else sqlite.spliced_count ty opts rows

  unfoldable pub listed : String → ListOptions → List Row → Result (List Row)
  unfolding selected is_plain page sort_by
  listed ty opts rows =
      if is_plain opts.label_selector
      then page opts (sort_by name_leb (filter (selected ty opts.label_selector) rows))
      else sqlite.spliced_rows ty opts rows

  unfoldable pub list_resources : String → ListOptions → Exec Tables (List Loaded × ℕ)
  unfolding query counted listed metadata_of
  list_resources ty opts = do
    total ← context "count resources" (query (λ t. counted ty opts t.resources))
    rows ← context "query resources" (query (λ t. listed ty opts t.resources))
    pure (
      map (λ r. record { metadata = metadata_of r; spec = r.spec; status = r.status }) rows,
      total,
    )

  unfoldable pub list_typed :
      {A : Type 0} → String → ListOptions → (Loaded → Option A) → Exec Tables (List A × ℕ)
  unfolding build_all
  list_typed ty opts build = do
    (items, total) ← list_resources ty opts
    pure (build_all build items, total)

  unfoldable pub list_typed_by_tenant :
      {A : Type 0} → String → String → (Loaded → Option A) → Exec Tables (List A × ℕ)
  unfolding list_typed
  list_typed_by_tenant ty tenant build =
      list_typed ty
        (record { offset = 0; limit = 0; label_selector = concat "rezuscloud.io/tenant=" tenant })
        build
