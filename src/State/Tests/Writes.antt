-- ===== src/State/Tests/Writes.antt =====
-- Writes to the state store (internal/state) on small databases.
use rezuscloud.Prelude.{ℕ, ◌≡◌, ◌≢◌, refl, ap, false, Option, none, some, [], ◌∷◌, arith}
use rezuscloud.Effects.{Db, ok, err, err_conflict}
use rezuscloud.State.Types.{Metadata}
use rezuscloud.State.Tables.{Tables, Row, select, same}
use rezuscloud.State.Json.{Codec}
use rezuscloud.State.WellFormed.{IsWellFormed}
use rezuscloud.State.Tenants.{empty_spec, empty_status}
use rezuscloud.State.Machines.{empty_machine_spec, empty_machine_status}
use rezuscloud.State.Accounts.{empty_user_status}
use rezuscloud.State.Operations.{
  Codecs, run, run-IsWellFormed, create_tenant_request, delete_tenant_request,
  update_resource_request, remove_finalizer_request,
}
use rezuscloud.State.Concurrency.{write, update_resource-exactly_one}
use rezuscloud.Sql.{select_row}
use rezuscloud.State.Tests.{failing, tenant_row, one_tenant, one_tenant-IsWellFormed, acme-found}

abbrev codec_of : {A : Type 0} → A → Codec A
codec_of a = record { marshal = λ b. some "{}"; unmarshal = λ text. a }

abbrev codecs : Codecs
codecs = record {
  tenant_spec = codec_of empty_spec;
  tenant_status = codec_of empty_status;
  machine_spec = codec_of empty_machine_spec;
  machine_status = codec_of empty_machine_status;
  provider_spec = codec_of (record { endpoint = "" });
  provider_status =
      codec_of (record { connected = false; last_heartbeat = 0; schema = none; error = "" });
  user_spec = codec_of (record { role = ""; password_hash = "" });
  user_status = codec_of empty_user_status;
}

run-IsWellFormed_example :
    IsWellFormed
      (run codecs
        (λ text at. text)
        (create_tenant_request "beta" empty_spec [] []
          ∷ update_resource_request "tenant" "acme" 3 (some "{}") [] []
          ∷ delete_tenant_request "acme"
          ∷ remove_finalizer_request "tenant" "acme" "rezuscloud.io/machines"
          ∷ [])
        (failing one_tenant.tables)).tables
run-IsWellFormed_example =
    run-IsWellFormed codecs (λ text at. text)
      (create_tenant_request "beta" empty_spec [] []
        ∷ update_resource_request "tenant" "acme" 3 (some "{}") [] []
        ∷ delete_tenant_request "acme"
        ∷ remove_finalizer_request "tenant" "acme" "rezuscloud.io/machines"
        ∷ [])
      (failing one_tenant.tables) one_tenant-IsWellFormed

abbrev first_write : Db Tables
first_write = (write "tenant" "acme" 3 "{1}" [] [] one_tenant).1

update_resource-exactly_one_example :
    ((md : Metadata) × ((write "tenant" "acme" 3 "{1}" [] [] one_tenant).0 ≡ ok md)
      × (md.resource_version ≡ 4))
    × (((write "tenant" "acme" 3 "{2}" [] [] first_write).0 ≡ err err_conflict)
        × ((write "tenant" "acme" 3 "{2}" [] [] first_write).1.tables ≡ first_write.tables))
update_resource-exactly_one_example =
    update_resource-exactly_one "tenant" "acme" 3 "{1}" "{2}" [] [] [] [] one_tenant
      one_tenant-IsWellFormed (λ n. refl) tenant_row acme-found refl

abbrev version_or : ℕ → Option Row → ℕ
version_or n none = n
version_or n (some r) = r.version

other_version : (r : Row) → select "tenant" "acme" one_tenant.tables ≡ some r → r.version ≢ 2
unfolding select_row
other_version r found same = let three = ap (version_or 0) found in ground arith
