-- ===== src/State/Listing/Queries.antt =====
-- What a list call asks for, apart from the text of its selector (ListResources and jsonPathKey in
-- store.go).
use Prim.Native.Char.{Char, code}
use Prim.Native.String.{◌++◌ as concat}
use Prim.Native.String.append
use Prim.Native.String.compare
use rezuscloud.Prelude.{
  ℕ, suc, ◌≡◌, refl, ◌∙◌, ap, inl, inr, Bool, true, false, ◌&&◌, Option, none, some, String, List,
  [], ◌∷◌, arith, ◌==◌, eqb, filter, Option-cases,
}
use rezuscloud.Maps.{StringMap, lookup}
use rezuscloud.State.Tables.{Tables, Row}
use rezuscloud.State.Listing.Defs.{
  Sqlite, selected, label_matches, name_leb, byte_index, text_before, text_from, json_path_key,
  all_plain, is_plain, key_of,
}
use rezuscloud.State.Listing.Names.{sort_by}

-- No condition, a label that is there, or a label with a value.
pub data Query : Type 0 where
  everything : Query
  has_label : String → Query
  label_is : String → String → Query

-- The selector of a query.
abbrev pub text_of : Query → String
text_of everything = ""
text_of (has_label k) = k
text_of (label_is k v) = concat (concat k "=") v

-- Keys of letters, digits, dots, slashes, dashes and underscores.
abbrev pub IsKey : String → Type 0
IsKey k = ((k == "") ≡ false) × (all_plain k ≡ true)

abbrev pub IsProper : Query → Type 0
IsProper everything = Unit
IsProper (has_label k) = IsKey k
IsProper (label_is k v) = IsKey k

-- SQLite's json_extract gives the value of the key, and NULL where there is none.
abbrev pub ReadsKey : Sqlite → String → Type 0
ReadsKey sqlite k =
    (labels : StringMap)
    → sqlite.json_extract labels (concat "$." (json_path_key k)) ≡ lookup k labels

abbrev pub Reads : Sqlite → Query → Type 0
Reads sqlite everything = Unit
Reads sqlite (has_label k) = ReadsKey sqlite k
Reads sqlite (label_is k v) = ReadsKey sqlite k

abbrev pub is_value : String → Option String → Bool
is_value v none = false
is_value v (some w) = w == v

abbrev pub is_there : Option String → Bool
is_there none = false
is_there (some w) = true

abbrev pub asks : Query → StringMap → Bool
asks everything labels = true
asks (has_label k) labels = is_there (lookup k labels)
asks (label_is k v) labels = is_value v (lookup k labels)

abbrev pub is_unmarked : Option ℕ → Bool
is_unmarked none = true
is_unmarked (some at) = false

-- A row of the type that is not marked as deleted and whose labels are as asked.
abbrev pub wanted : String → Query → Row → Bool
wanted ty q r = (r.type == ty) && (is_unmarked r.deletion_timestamp && asks q r.labels)

abbrev size : String → ℕ
size String.[] = 0
size (String.◌∷◌ c s) = suc (size s)

joined-nil : (v : String) → concat (concat "" "=") v ≡ String.◌∷◌ "=" v
joined-nil v = append.cons "=" "" v ∙ ap (String.◌∷◌ "=") (append.nil v)

joined-cons :
    (c : Char) (k v : String)
    → concat (concat (String.◌∷◌ c k) "=") v ≡ String.◌∷◌ c (concat (concat k "=") v)
joined-cons c k v = ap (λ s. concat s v) (append.cons c k "=") ∙ append.cons c (concat k "=") v

plain-head : (c : Char) (k : String) → all_plain (String.◌∷◌ c k) ≡ true → eqb (code c) b'=' ≡ false
unfolding all_plain
plain-head c k h = ground arith

plain-tail : (c : Char) (k : String) → all_plain (String.◌∷◌ c k) ≡ true → all_plain k ≡ true
unfolding all_plain
plain-tail c k h = ground arith

byte_index-key : (k : String) → all_plain k ≡ true → byte_index k b'=' ≡ none
unfolding byte_index
byte_index-key String.[] h = refl
byte_index-key (String.◌∷◌ c k) h = rw (plain-head c k h, byte_index-key k (plain-tail c k h)) refl

byte_index-joined :
    (k v : String) → all_plain k ≡ true → byte_index (concat (concat k "=") v) b'=' ≡ some (size k)
unfolding byte_index
byte_index-joined String.[] v h = rw (joined-nil v) refl
byte_index-joined (String.◌∷◌ c k) v h =
    rw (joined-cons c k v, plain-head c k h, byte_index-joined k v (plain-tail c k h)) refl

text_before-joined : (k v : String) → text_before (size k) (concat (concat k "=") v) ≡ k
unfolding text_before
text_before-joined String.[] v = refl
text_before-joined (String.◌∷◌ c k) v = rw (joined-cons c k v, text_before-joined k v) refl

text_from-joined : (k v : String) → text_from (suc (size k)) (concat (concat k "=") v) ≡ v
unfolding text_from
text_from-joined String.[] v = rw (joined-nil v) refl
text_from-joined (String.◌∷◌ c k) v = rw (joined-cons c k v) (text_from-joined k v)

cons-given : (c : Char) (s : String) → (String.◌∷◌ c s == "") ≡ false
cons-given c s = rw (compare.cons-nil c s) refl

joined-given : (k v : String) → (concat (concat k "=") v == "") ≡ false
joined-given String.[] v = rw (joined-nil v) (cons-given _ _)
joined-given (String.◌∷◌ c k) v = rw (joined-cons c k v) (cons-given _ _)

label_matches-asks :
    (sqlite : Sqlite) (q : Query) (labels : StringMap)
    → IsProper q
    → Reads sqlite q
    → label_matches sqlite (text_of q) labels ≡ asks q labels
unfolding label_matches
label_matches-asks sqlite everything labels proper reads = refl
label_matches-asks sqlite (has_label k) labels (given, plain) reads =
    elim (Option-cases (lookup k labels)) [
      | inl e ↦ rw (given, byte_index-key k plain, reads labels, e) refl
      | inr (w, e) ↦ rw (given, byte_index-key k plain, reads labels, e) refl
    ]
label_matches-asks sqlite (label_is k v) labels (given, plain) reads =
    elim (Option-cases (lookup k labels)) [
      | inl e ↦
          rw
            (joined-given k v, byte_index-joined k v plain, text_before-joined k v, reads labels, e)
            refl
      | inr (w, e) ↦
          rw
            (
              joined-given k v,
              byte_index-joined k v plain,
              text_before-joined k v,
              reads labels,
              e,
              text_from-joined k v,
            )
            refl
    ]

key_of-key : (k : String) → all_plain k ≡ true → key_of k ≡ k
unfolding key_of
key_of-key k plain = rw (key_of, byte_index-key k plain) refl

key_of-joined : (k v : String) → all_plain k ≡ true → key_of (concat (concat k "=") v) ≡ k
unfolding key_of
key_of-joined k v plain = rw (key_of, byte_index-joined k v plain) (text_before-joined k v)

pub text_of-is_plain : (q : Query) → IsProper q → is_plain (text_of q) ≡ true
unfolding is_plain
text_of-is_plain everything proper = refl
text_of-is_plain (has_label k) (given, plain) = rw (given, key_of-key k plain, given, plain) refl
text_of-is_plain (label_is k v) (given, plain) =
    rw (joined-given k v, key_of-joined k v plain, given, plain) refl

filter-alike :
    {A : Type 0} (p p' : A → Bool)
    → ((a : A) → p a ≡ p' a)
    → (t : List A) → filter p t ≡ filter p' t
filter-alike p p' alike [] = refl
filter-alike p p' alike (a ∷ t) = rw (alike a, filter-alike p p' alike t) refl

-- The rows wanted, in name order.
abbrev pub answers : String → Query → Tables → List Row
answers ty q t = sort_by name_leb (filter (wanted ty q) t.resources)

module _ (sqlite : Sqlite) (ty : String) (q : Query) (proper : IsProper q)
    (reads : Reads sqlite q) where
  selected-alike : (r : Row) → selected sqlite ty (text_of q) r ≡ wanted ty q r
  unfolding selected
  selected-alike r =
      rw (label_matches-asks sqlite q r.labels proper reads) (go r.deletion_timestamp)
    where
      go :
          (o : Option ℕ)
          → ((r.type == ty) && (elim o [ none ↦ true | some _ ↦ false ]) && asks q r.labels)
            ≡ ((r.type == ty) && (is_unmarked o && asks q r.labels))
      go none = ground arith
      go (some at) = ground arith

  pub selected-wanted :
      (rows : List Row) → filter (selected sqlite ty (text_of q)) rows ≡ filter (wanted ty q) rows
  selected-wanted rows = filter-alike _ _ selected-alike rows

pub tenant_key : IsKey "rezuscloud.io/tenant"
unfolding all_plain
tenant_key = (refl, refl)
