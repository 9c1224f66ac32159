-- ===== src/Reconcile/Keys.antt =====
-- The machine keys of a node group, and the provider type that a node group routes to
-- (providerTypeOf, filterByProvider, machineKeysFor and bindingTokenAnnotation in
-- internal/reconcile/applier.go).
use Prim.Native.Char.{Char, code}
use Prim.Native.String.{◌++◌ as concat}
use rezuscloud.Prelude.{
  ℕ, zero, suc, ◌/◌, ◌%◌, Option, none, some, String, List, [], ◌∷◌, ◌==◌, eqb, ltb, filter,
  if◌then◌else◌,
}
use rezuscloud.State.Types.{NodeGroupSpec}
use rezuscloud.State.Listing.Names.{text_leb, sort_by}

-- class[:i] at the first ':', or the whole.
unfoldable pub provider_type_of : String → String
provider_type_of String.[] = String.[]
provider_type_of (String.◌∷◌ c s) =
    let rest = provider_type_of s in
    if eqb (code c) (code ":") then String.[] else String.◌∷◌ c rest

unfoldable pub filter_by_provider : List NodeGroupSpec → String → List NodeGroupSpec
filter_by_provider ngs provider_type =
    filter (λ ng. provider_type_of ng.provider_class == provider_type) ngs

-- strconv.Itoa of a number that is not negative; the digits are at most as many as the number
-- plus one.
abbrev pub digit : ℕ → Char
digit n =
    if eqb n 0
    then "0"
    else if eqb n 1
    then "1"
    else if eqb n 2
    then "2"
    else if eqb n 3
    then "3"
    else if eqb n 4
    then "4"
    else if eqb n 5
    then "5"
    else if eqb n 6
    then "6"
    else if eqb n 7
    then "7"
    else if eqb n 8
    then "8"
    else "9"

unfoldable pub digits_of : ℕ → ℕ → String
digits_of zero n = String.[]
digits_of (suc fuel) n =
    let before = digits_of fuel (n / 10) in
    if ltb n 10
    then String.◌∷◌ (digit n) String.[]
    else concat before (String.◌∷◌ (digit (n % 10)) String.[])

unfoldable pub itoa : ℕ → String
unfolding digits_of
itoa n = digits_of (suc n) n

-- The slots i, …, i + n - 1.
unfoldable pub slots : ℕ → ℕ → List String
slots i zero = []
slots i (suc n) = itoa i ∷ slots (suc i) n

-- `machines_in` is json.Unmarshal of the provider's configuration: the keys of its object
-- "machines", and `none` for an error.
abbrev pub sorted_keys : Option (List String) → List String
sorted_keys none = []
sorted_keys (some keys) = sort_by text_leb keys

unfoldable pub machine_keys_for : (String → Option (List String)) → NodeGroupSpec → List String
unfolding provider_type_of slots sort_by
machine_keys_for machines_in ng =
    if provider_type_of ng.provider_class == "metal"
    then (if ng.provider_config == "" then [] else sorted_keys (machines_in ng.provider_config))
    else slots 0 ng.count

abbrev pub replaced : Char → Char
replaced c =
    if eqb (code c) (code ":")
    then "-"
    else if eqb (code c) (code "/")
    then "_"
    else if eqb (code c) (code ".")
    then "-"
    else c

unfoldable pub replace_all : String → String
replace_all String.[] = String.[]
replace_all (String.◌∷◌ c s) = String.◌∷◌ (replaced c) (replace_all s)

unfoldable pub binding_token_annotation : String → String
unfolding replace_all
binding_token_annotation machine_key =
    concat "rezuscloud.io/binding-token/" (replace_all machine_key)
