-- ===== src/Reconcile/Enricher.antt =====
-- The enricher (enrich, applyBindingTokens and stringFromSpec in internal/reconcile/enricher.go):
-- machine records for what the last apply has made. `machines` and `bindings` are what the
-- projection index lists of the tenant.
use rezuscloud.State.Listing.{Sqlite}
use rezuscloud.Prelude.{
  ℕ, Bool, true, false, Option, none, some, String, List, [], ◌∷◌, ◌==◌, ◌||◌, any, if◌then◌else◌,
}
use rezuscloud.Maps.{lookup}
use rezuscloud.Effects.{Result, ok, err, Exec, pure, attempt, ◌>>=◌, ◌>>◌}
use rezuscloud.State.Types.{Machine, MachineSpec, MachineStatus}
use rezuscloud.State.Tables.{Tables}
use rezuscloud.State.Json.{Codec}
use rezuscloud.State.Machines.{
  create_machine, get_machine, update_machine_spec, list_machines_by_tenant,
}

-- The fields of projection.Resource that are read; a value of `spec` that is no string is `none`.
pub record Resource : Type 0 where
  pub name : String
  pub tf_type : String
  pub tf_address : String
  pub spec : List (String × Option String)

abbrev pub text_or : Option (Option String) → String → String
text_or (some (some s)) rest = if s == "" then rest else s
text_or (some none) rest = rest
text_or none rest = rest

unfoldable pub string_from_spec : List (String × Option String) → List String → String
unfolding lookup
string_from_spec spec [] = ""
string_from_spec spec (k ∷ keys) =
    let rest = string_from_spec spec keys in text_or (lookup k spec) rest

abbrev pub address_keys : List String
address_keys = "address" ∷ "public_ip" ∷ "private_ip" ∷ "providerId" ∷ []

abbrev pub record_name : Resource → String
record_name r = if r.name == "" then r.tf_address else r.name

-- The lookups in byName and byAddr.
unfoldable pub is_known : List Machine → String → String → Bool
is_known existing name addr =
    if any (λ (m : Machine). m.metadata.name == name) existing
    then true
    else if addr == ""
    then false
    else any (λ (m : Machine). m.spec.management_address == addr) existing

module _ (spec_codec : Codec MachineSpec) (status_codec : Codec MachineStatus) (sqlite : Sqlite)
    (to_lower : String → String) (contains : String → String → Bool) where
  abbrev pub role_of : String → Resource → String
  role_of name r =
      if contains (to_lower name) "control" || contains r.tf_type "control"
      then "controlplane"
      else "worker"

  unfoldable pub enrich_resource : String → List Machine → Resource → Exec Tables Unit
  unfolding is_known string_from_spec
  enrich_resource tenant existing r =
      let addr = string_from_spec r.spec address_keys in
      if is_known existing (record_name r) addr
      then pure tt
      else (attempt (
            create_machine spec_codec status_codec (record_name r)
              (record { management_address = addr; connected = false; binding_token = "" })
              (("rezuscloud.io/tenant", tenant)
                ∷ ("rezuscloud.io/role", role_of (record_name r) r)
                ∷ [])
              [])
          >> pure tt)

  unfoldable pub enrich_each : String → List Machine → List Resource → Exec Tables Unit
  unfolding enrich_resource
  enrich_each tenant existing [] = pure tt
  enrich_each tenant existing (r ∷ rest) = do
    enrich_resource tenant existing r
    enrich_each tenant existing rest

  unfoldable pub attach_token : String → Result (Option Machine) → Exec Tables Unit
  attach_token token (err e) = pure tt
  attach_token token (ok none) = pure tt
  attach_token token (ok (some m)) =
      if m.spec.binding_token == token
      then pure tt
      else (attempt (
            update_machine_spec spec_codec status_codec m.metadata.name m.metadata.resource_version
              (record m.spec { binding_token = token }) m.metadata.labels m.metadata.annotations)
          >> pure tt)

  unfoldable pub found_and_attached : String → String → Exec Tables Unit
  unfolding attach_token
  found_and_attached name token = do
    found ← attempt (get_machine spec_codec status_codec name)
    attach_token token found

  unfoldable pub apply_binding_token : Resource → String → Exec Tables Unit
  unfolding found_and_attached
  apply_binding_token b token = if token == "" then pure tt else found_and_attached b.name token

  unfoldable pub apply_binding_tokens : List Resource → Exec Tables Unit
  unfolding apply_binding_token string_from_spec
  apply_binding_tokens [] = pure tt
  apply_binding_tokens (b ∷ rest) = do
    apply_binding_token b (string_from_spec b.spec ("token" ∷ []))
    apply_binding_tokens rest

  unfoldable pub enrich_listed :
      String → List Resource → List Resource → Result (List Machine × ℕ) → Exec Tables Unit
  unfolding enrich_each apply_binding_tokens
  enrich_listed tenant machines bindings (err e) = pure tt
  enrich_listed tenant machines bindings (ok (existing, _)) = do
    enrich_each tenant existing machines
    apply_binding_tokens bindings

  abbrev pub is_empty : List Resource → Bool
  is_empty [] = true
  is_empty (r ∷ rest) = false

  unfoldable pub enrich : String → List Resource → List Resource → Exec Tables Unit
  unfolding enrich_listed
  enrich tenant machines bindings =
      if is_empty machines
      then pure tt
      else (attempt (list_machines_by_tenant spec_codec status_codec sqlite tenant [])
          >>= enrich_listed tenant machines bindings)
