-- ===== src/Reconcile/Status.antt =====
-- The status tracker (apply and nextReconciliation in internal/reconcile/status.go): the phases
-- of the apply queue in the status of a tenant and of its node groups.
use Prim.Native.String.{◌++◌ as concat}
use rezuscloud.Prelude.{ℕ, Bool, true, Option, none, some, String, List, [], ◌∷◌}
use rezuscloud.Effects.{Result, ok, err, Exec, pure, attempt, now, ◌>>=◌, ◌>>◌}
use rezuscloud.ApplyQueue.{Phase, queued, applying_phase, applied, failed, destroying}
use rezuscloud.State.Types.{Tenant, TenantSpec, TenantStatus, ReconciliationStatus}
use rezuscloud.State.Tables.{Tables}
use rezuscloud.State.Json.{Codec}
use rezuscloud.State.Resources.{Loaded, update_status}
use rezuscloud.State.Listing.{Sqlite, list_resources}
use rezuscloud.State.Tenants.{get_tenant, update_tenant_status}
use rezuscloud.Reconcile.Applier.{is_deleting}

pub record PhaseEvent : Type 0 where
  pub tenant : String
  pub phase : Phase
  pub err_text : String

pub record NodeGroupStatusJson : Type 0 where
  pub phase : String
  pub ready_machines : ℕ
  pub total_machines : ℕ
  pub reconciliation : Option ReconciliationStatus

abbrev pub phase_text : Phase → String
phase_text queued = "queued"
phase_text applying_phase = "applying"
phase_text applied = "applied"
phase_text failed = "failed"
phase_text destroying = "destroying"

abbrev pub last_error_of : Option ReconciliationStatus → String
last_error_of none = ""
last_error_of (some cur) = cur.last_error

abbrev pub next_error : Phase → String → String → String
next_error failed err_text last = err_text
next_error applied err_text last = ""
next_error p err_text last = last

unfoldable pub next_reconciliation :
    Option ReconciliationStatus → Phase → String → ℕ → ReconciliationStatus
next_reconciliation cur phase err_text at = record {
  phase = phase_text phase;
  last_error = next_error phase err_text (last_error_of cur);
  updated_at = some at;
}

-- For a tenant that is being deleted, an apply is a destroy.
unfoldable pub shown_phase : Bool → Phase → Phase
shown_phase true applying_phase = destroying
shown_phase deleting p = p

module _ (tenant_spec : Codec TenantSpec) (tenant_status : Codec TenantStatus)
    (ng_status : Codec NodeGroupStatusJson) (sqlite : Sqlite) where
  -- The errors of the updates are only logged.
  unfoldable pub track_tenant : PhaseEvent → ℕ → Result (Option Tenant) → Exec Tables Unit
  unfolding next_reconciliation shown_phase
  track_tenant ev at (err e) = pure tt
  track_tenant ev at (ok none) = pure tt
  track_tenant ev at (ok (some t)) = do
    attempt (
        update_tenant_status tenant_spec tenant_status ev.tenant (record t.status {
          reconciliation = some (
              next_reconciliation t.status.reconciliation (shown_phase (is_deleting t) ev.phase)
                ev.err_text at);
        }))
    pure tt

  unfoldable pub track_group : PhaseEvent → ℕ → Loaded → Exec Tables Unit
  unfolding next_reconciliation
  track_group ev at found = do
    let st = ng_status.unmarshal found.status
    attempt (
        update_status "nodegroup" found.metadata.name (
          ng_status.marshal (record st {
            reconciliation = some (next_reconciliation st.reconciliation ev.phase ev.err_text at);
          })))
    pure tt

  unfoldable pub track_groups : PhaseEvent → ℕ → List Loaded → Exec Tables Unit
  unfolding track_group
  track_groups ev at [] = pure tt
  track_groups ev at (found ∷ rest) = do track_group ev at found; track_groups ev at rest

  unfoldable pub track_listed : PhaseEvent → ℕ → Result (List Loaded × ℕ) → Exec Tables Unit
  unfolding track_groups
  track_listed ev at (err e) = pure tt
  track_listed ev at (ok (items, _)) = track_groups ev at items

  unfoldable pub track : PhaseEvent → Exec Tables Unit
  unfolding track_tenant track_listed
  track ev = do
    at ← now
    found ← attempt (get_tenant tenant_spec tenant_status ev.tenant)
    track_tenant ev at found
    listed ← attempt (
        list_resources sqlite "nodegroup" (record {
          offset = 0;
          limit = 0;
          label_selector = concat "rezuscloud.io/tenant=" ev.tenant;
        }))
    track_listed ev at listed
