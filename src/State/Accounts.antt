-- ===== src/State/Accounts.antt =====
-- The provider, user and API token operations of store.go.
use rezuscloud.Prelude.{
  ℕ, Bool, ◌&&◌, Option, none, some, String, List, [], ◌∷◌, ◌++◌, map, ◌==◌, eqb, leb,
  if◌then◌else◌, filter,
}
use rezuscloud.Maps.{StringMap}
use rezuscloud.Sql.{select_row, delete_where, update_where, count_where}
use rezuscloud.Effects.{
  Result, ok, err, driver, no_rows, constraint, err_not_found, wrap, Exec, pure, raise, attempt,
  context, query, exec, now, scan, ◌>>=◌, ◌>>◌,
}
use rezuscloud.State.Types.{
  Provider, ProviderSpec, ProviderStatus, User, UserSpec, UserStatus, ApiToken,
}
use rezuscloud.State.Tables.{Tables, Row}
use rezuscloud.State.Resources.{
  Loaded, create_resource, get_resource, update_resource, update_status, remove_resource,
}
use rezuscloud.State.Listing.{Sqlite, ListOptions, list_resources}
use rezuscloud.State.Listing.Names.{sort_by}
use rezuscloud.State.Json.{Codec}
use rezuscloud.State.Tenants.{or_nil, loaded_or}

abbrev pub all_rows : ListOptions
all_rows = record { offset = 0; limit = 0; label_selector = "" }

-- The value of a pointer result whose error is ignored: nil where the call failed.
abbrev pub value_or_nil : {A : Type 0} → Result (Option A) → Option A
value_or_nil (ok v) = v
value_or_nil (err e) = none

module _ (spec_codec : Codec ProviderSpec) (status_codec : Codec ProviderStatus) where
  unfoldable pub build_provider : Loaded → Provider
  build_provider found = record {
    metadata = found.metadata;
    spec = spec_codec.unmarshal found.spec;
    status = status_codec.unmarshal found.status;
  }

  unfoldable pub get_provider : String → Exec Tables (Option Provider)
  unfolding or_nil build_provider
  get_provider ty = do found ← attempt (get_resource "provider" ty); or_nil build_provider found

  unfoldable pub upsert_found :
      String → ProviderSpec → ProviderStatus → StringMap → Option Provider → Exec Tables Provider
  upsert_found ty spec status labels (some existing) = do
    update_status "provider" ty (status_codec.marshal status)
    pure (record existing { status = status })
  upsert_found ty spec status labels none = do
    md ←
        create_resource "provider" ty (spec_codec.marshal spec) (status_codec.marshal status) labels
          []
    pure (record { metadata = md; spec = spec; status = status })

  unfoldable pub upsert_provider :
      String → ProviderSpec → ProviderStatus → StringMap → Exec Tables Provider
  upsert_provider ty spec status labels = do
    existing ← attempt (get_provider ty)
    upsert_found ty spec status labels (value_or_nil existing)

  unfoldable pub list_providers : Sqlite → Exec Tables (List Provider)
  unfolding build_provider
  list_providers sqlite = do
    (items, _) ← list_resources sqlite "provider" all_rows
    pure (map build_provider items)

abbrev pub empty_user_status : UserStatus
empty_user_status = record { last_login = none; active_tokens = 0 }

module _ (spec_codec : Codec UserSpec) (status_codec : Codec UserStatus) where
  unfoldable pub build_user : Loaded → User
  build_user found = record {
    metadata = found.metadata;
    spec = spec_codec.unmarshal found.spec;
    status = status_codec.unmarshal found.status;
  }

  unfoldable pub create_user : String → UserSpec → Exec Tables User
  create_user nm spec = do
    md ←
        create_resource "user" nm (spec_codec.marshal spec) (status_codec.marshal empty_user_status)
          [] []
    pure (record { metadata = md; spec = spec; status = empty_user_status })

  unfoldable pub get_user : String → Exec Tables (Option User)
  unfolding or_nil build_user
  get_user nm = do found ← attempt (get_resource "user" nm); or_nil build_user found

  unfoldable pub list_users : Sqlite → Exec Tables (List User)
  unfolding build_user
  list_users sqlite = do
    (items, _) ← list_resources sqlite "user" all_rows
    pure (map build_user items)

  -- Both maps are nil in this call.
  unfoldable pub update_user : String → ℕ → UserSpec → Exec Tables User
  update_user nm current_version spec = do
    md ← update_resource "user" nm current_version (spec_codec.marshal spec) [] []
    found ← attempt (get_resource "user" nm)
    pure (record {
      metadata = md;
      spec = spec;
      status = loaded_or (λ l. status_codec.unmarshal l.status) empty_user_status found;
    })

unfoldable pub delete_user : String → Exec Tables Unit
delete_user nm = remove_resource "user" nm

-- UPDATE resources SET status = json_set(status, '$.lastLogin', ?) WHERE type = 'user' AND
-- name = ?. SQLite's json_set is a parameter.
unfoldable pub write_last_login :
    (String → ℕ → String) → String → ℕ → Tables → Result (Unit {0}) × Tables
write_last_login set_last_login nm at t =
    let p = λ (r : Row). (r.type == "user") && (r.name == nm) in
    let f = λ (r : Row). record r { status = set_last_login r.status at } in
    (ok tt, record t { resources = update_where p f t.resources })

unfoldable pub update_user_last_login : (String → ℕ → String) → String → Exec Tables Unit
update_user_last_login set_last_login nm = do at ← now; exec (write_last_login set_last_login nm at)

abbrev pub token_is : String → ApiToken → Bool
token_is id tok = id == tok.id

-- INSERT INTO api_tokens: refused where the PRIMARY KEY is taken.
unfoldable pub insert_token : ApiToken → Tables → Result (Unit {0}) × Tables
insert_token tok t = elim (select_row (token_is tok.id) t.api_tokens) [
  | some _ ↦ (err (driver constraint), t)
  | none ↦ (ok tt, record t { api_tokens = t.api_tokens ++ tok ∷ [] })
]

unfoldable pub scanned_token : String → Result ApiToken → Exec Tables (Option ApiToken)
scanned_token c (ok tok) = pure (some tok)
scanned_token c (err (driver no_rows)) = pure none
scanned_token c (err e) = raise (wrap c e)

unfoldable pub get_api_token : String → Exec Tables (Option ApiToken)
unfolding query scanned_token
get_api_token id = do
  tok ← attempt (query (λ t. scan (select_row (token_is id) t.api_tokens)))
  scanned_token "get api token" tok

-- `role` is no column: it is filled in by the caller.
unfoldable pub create_api_token :
    String → String → String → Option ℕ → Exec Tables (Option ApiToken)
unfolding now exec insert_token
create_api_token id user_name token_hash expires_at = do
  at ← now
  context "insert api token" (
      exec (
        insert_token (record {
          id = id;
          user_name = user_name;
          role = "";
          token_hash = token_hash;
          expires_at = expires_at;
          created_at = at;
          last_used = none;
        })))
  get_api_token id

-- ORDER BY created_at DESC.
abbrev pub newest_first : ApiToken → ApiToken → Bool
newest_first a b = leb b.created_at a.created_at

unfoldable pub list_api_tokens : String → Exec Tables (List ApiToken)
unfolding query sort_by
list_api_tokens user_name = context "list api tokens" (
    query (λ t. ok (
      sort_by newest_first (
        if user_name == ""
        then t.api_tokens
        else filter (λ tok. tok.user_name == user_name) t.api_tokens))))

unfoldable pub lookup_api_token_by_hash : String → Exec Tables (Option ApiToken)
unfolding query scanned_token
lookup_api_token_by_hash token_hash = do
  tok ← attempt (query (λ t. scan (select_row (λ r. r.token_hash == token_hash) t.api_tokens)))
  scanned_token "lookup api token" tok

-- UPDATE api_tokens SET last_used = ? WHERE id = ?.
unfoldable pub write_last_used : String → ℕ → Tables → Result (Unit {0}) × Tables
write_last_used id at t =
    let f = λ (tok : ApiToken). record tok { last_used = some at } in
    (ok tt, record t { api_tokens = update_where (token_is id) f t.api_tokens })

unfoldable pub touch_api_token : String → Exec Tables Unit
touch_api_token id = do at ← now; exec (write_last_used id at)

unfoldable pub delete_api_token : String → Exec Tables Unit
unfolding exec
delete_api_token id = do
  n ← context "delete api token" (
      exec (λ t. (
        ok (count_where (token_is id) t.api_tokens),
        record t { api_tokens = delete_where (token_is id) t.api_tokens },
      )))
  if eqb n 0 then raise err_not_found else pure tt
