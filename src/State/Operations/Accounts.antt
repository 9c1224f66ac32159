-- ===== src/State/Operations/Accounts.antt =====
-- The invariant of `resources` under the operations on secrets, tokens, providers and users
-- (store.go).
use rezuscloud.Prelude.{ℕ, ◌≡◌, refl, inl, inr, Option, none, some, String, List, Option-cases}
use rezuscloud.Maps.{StringMap}
use rezuscloud.Sql.{select_row}
use rezuscloud.Sql.Rows.{All-update_where}
use rezuscloud.Sql.Keyed.{IsUnique-update_where}
use rezuscloud.Effects.{Result, ok, err, err_not_found, driver, no_rows, exec}
use rezuscloud.Effects.Keeps.{
  Keeps, keeps_rules, Keeps-exec, Keeps-bind, Keeps-if, Keeps-raise, Keeps-pure, Keeps-now,
  Keeps-context,
}
use rezuscloud.State.Types.{ProviderSpec, ProviderStatus, Provider, ApiToken}
use rezuscloud.State.Tables.{Tables, SecretRow, key, same, same_iff}
use rezuscloud.State.Json.{Codec}
use rezuscloud.State.Resources.{Loaded}
use rezuscloud.State.Tenants.{or_nil, upsert_secret, save_tenant_secrets, remove_tenant_secrets}
use rezuscloud.State.Accounts.{
  insert_token, create_api_token, get_api_token, scanned_token, touch_api_token, delete_api_token,
  token_is, write_last_used, write_last_login, update_user_last_login, upsert_provider,
  upsert_found, get_provider,
}
use rezuscloud.State.WellFormed.{
  IsGoodRow, Preserves, Preserves-preorder, get_resource-Preserves, update_status-Preserves,
  create_resource-Preserves,
}

pub same_resources : (t u : Tables) → u.resources ≡ t.resources → Preserves t u
same_resources t u e w = record { unique = rw e w.unique; rows = rw e w.rows }

upsert_secret-Preserves : (r : SecretRow) (t : Tables) → Preserves t (upsert_secret r t).1
unfolding upsert_secret
upsert_secret-Preserves r t = same_resources t _ refl

pub save_tenant_secrets-Preserves :
    (nm : String) (bundle : List ℕ) → Keeps Preserves (save_tenant_secrets nm bundle)
unfolding save_tenant_secrets
save_tenant_secrets-Preserves nm bundle =
    search (keeps_rules, Preserves-preorder, upsert_secret-Preserves) depth 8

-- A statement that writes another table.
Keeps-elsewhere :
    {A : Type 0} (f : Tables → Result A × Tables)
    → ((t : Tables) → (f t).1.resources ≡ t.resources)
    → Keeps Preserves (exec f)
Keeps-elsewhere f h = Keeps-exec Preserves-preorder f (λ t. same_resources t (f t).1 (h t))

pub remove_tenant_secrets-Preserves : (nm : String) → Keeps Preserves (remove_tenant_secrets nm)
unfolding remove_tenant_secrets
remove_tenant_secrets-Preserves nm =
    Keeps-context Preserves-preorder _ _ (Keeps-elsewhere _ (λ t. refl))

resources-insert_token :
    (tok : ApiToken) (t : Tables) → (insert_token tok t).1.resources ≡ t.resources
unfolding insert_token
resources-insert_token tok t = elim (Option-cases (select_row (token_is tok.id) t.api_tokens)) [
  | inl free ↦ rw (free, insert_token) refl
  | inr (_, taken) ↦ rw (taken, insert_token) refl
]

Keeps-scanned_token : (c : String) (r : Result ApiToken) → Keeps Preserves (scanned_token c r)
unfolding scanned_token
Keeps-scanned_token c (ok tok) = search (keeps_rules, Preserves-preorder)
Keeps-scanned_token c (err (driver no_rows)) = search (keeps_rules, Preserves-preorder)
Keeps-scanned_token c (err e) = search (keeps_rules, Preserves-preorder)

get_api_token-Preserves : (id : String) → Keeps Preserves (get_api_token id)
unfolding get_api_token
get_api_token-Preserves id = search (keeps_rules, Preserves-preorder, Keeps-scanned_token) depth 8

pub create_api_token-Preserves :
    (id user_name token_hash : String) (expires_at : Option ℕ)
    → Keeps Preserves (create_api_token id user_name token_hash expires_at)
unfolding create_api_token
create_api_token-Preserves id user_name token_hash expires_at =
    search
      (
        keeps_rules,
        Preserves-preorder,
        get_api_token-Preserves,
        λ (tok : ApiToken). Keeps-elsewhere (insert_token tok) (resources-insert_token tok),
      )
      depth 10

pub touch_api_token-Preserves : (id : String) → Keeps Preserves (touch_api_token id)
unfolding touch_api_token write_last_used
touch_api_token-Preserves id =
    Keeps-bind Preserves-preorder _ _ (Keeps-now Preserves-preorder)
      (λ at. Keeps-elsewhere (write_last_used id at) (λ t. refl))

pub delete_api_token-Preserves : (id : String) → Keeps Preserves (delete_api_token id)
unfolding delete_api_token
delete_api_token-Preserves id =
    Keeps-bind Preserves-preorder _ _
      (Keeps-context Preserves-preorder _ _ (Keeps-elsewhere _ (λ t. refl)))
      (λ n.
        Keeps-if Preserves-preorder _ _ _ (Keeps-raise Preserves-preorder err_not_found)
          (Keeps-pure Preserves-preorder tt))

write_last_login-Preserves :
    (set_last_login : String → ℕ → String) (nm : String) (at : ℕ) (t : Tables)
    → Preserves t (write_last_login set_last_login nm at t).1
unfolding write_last_login
write_last_login-Preserves set_last_login nm at t w = record {
  unique = IsUnique-update_where key same same_iff _ _ (λ r. refl) t.resources w.unique;
  rows = All-update_where IsGoodRow _ _ (λ r good. good) t.resources w.rows;
}

pub update_user_last_login-Preserves :
    (set_last_login : String → ℕ → String) (nm : String)
    → Keeps Preserves (update_user_last_login set_last_login nm)
unfolding update_user_last_login
update_user_last_login-Preserves set_last_login nm =
    search (keeps_rules, Preserves-preorder, write_last_login-Preserves) depth 8

pub Keeps-or_nil :
    {A : Type 0} (build : Loaded → A) (r : Result Loaded) → Keeps Preserves (or_nil build r)
unfolding or_nil
Keeps-or_nil build (ok found) = search (keeps_rules, Preserves-preorder)
Keeps-or_nil build (err err_not_found) = search (keeps_rules, Preserves-preorder)
Keeps-or_nil build (err e) = search (keeps_rules, Preserves-preorder)

module _ (spec_codec : Codec ProviderSpec) (status_codec : Codec ProviderStatus) where
  get_provider-Preserves : (ty : String) → Keeps Preserves (get_provider spec_codec status_codec ty)
  unfolding get_provider
  get_provider-Preserves ty =
      search (keeps_rules, Preserves-preorder, get_resource-Preserves, Keeps-or_nil) depth 8

  upsert_found-Preserves :
      (ty : String) (spec : ProviderSpec) (status : ProviderStatus) (labels : StringMap)
      (existing : Option Provider)
      → Keeps Preserves (upsert_found spec_codec status_codec ty spec status labels existing)
  unfolding upsert_found
  upsert_found-Preserves ty spec status labels (some p) =
      search (keeps_rules, Preserves-preorder, update_status-Preserves) depth 8
  upsert_found-Preserves ty spec status labels none =
      search (keeps_rules, Preserves-preorder, create_resource-Preserves) depth 8

  pub upsert_provider-Preserves :
      (ty : String) (spec : ProviderSpec) (status : ProviderStatus) (labels : StringMap)
      → Keeps Preserves (upsert_provider spec_codec status_codec ty spec status labels)
  unfolding upsert_provider
  upsert_provider-Preserves ty spec status labels =
      search (keeps_rules, Preserves-preorder, get_provider-Preserves, upsert_found-Preserves) depth
        8
