-- ===== src/Reconcile/Tracking.antt =====
-- What the status tracker (internal/reconcile/status.go) changes of the state store.
use rezuscloud.Prelude.{
  ℕ, ◌≡◌, refl, sym, ◌∙◌, ◌++◌, false, All, if◌then◌else◌, inl, inr, Bool, true, Option, none, some,
  String, List, [], ◌∷◌, map, Bool-cases,
}
use mathlib.Core.List.{append-nil as append_nil, append_assoc}
use rezuscloud.Sql.{update_where}
use rezuscloud.Effects.{Result, ok, err, exec}
use rezuscloud.Effects.Keeps.{IsPreorder, Keeps, Keeps-exec, Keeps-modify, keeps_rules}
use rezuscloud.State.Types.{Tenant, TenantSpec, TenantStatus, Metadata}
use rezuscloud.State.Tables.{Tables, Row, ResourceEvent, publish}
use rezuscloud.State.Json.{Codec}
use rezuscloud.State.Resources.{
  Loaded, Value, marshal, update_rows, update_status, update_resource_metadata_and_publish,
}
use rezuscloud.State.Listing.{Sqlite, list_resources}
use rezuscloud.State.Tenants.{update_tenant_status}
use rezuscloud.State.Reads.{Keeps-get_tenant, Keeps-get_resource}
use rezuscloud.Reconcile.Status.{
  PhaseEvent, NodeGroupStatusJson, track_tenant, track_group, track_groups, track_listed, track,
}

-- A row but for its status and the time of its last update.
abbrev pub bare : Row → Row
bare r = record r { status = ""; updated_at = 0 }

abbrev pub IsStatus : ResourceEvent → Type 0
IsStatus e = e.mutation ≡ "status"

-- What the bus received meanwhile are changes of statuses.
abbrev pub ToldStatuses : List ResourceEvent → List ResourceEvent → Type 0
ToldStatuses before after = (es : List ResourceEvent) × (after ≡ before ++ es) × All IsStatus es

All-joined :
    (es fs : List ResourceEvent) → All IsStatus es → All IsStatus fs → All IsStatus (es ++ fs)
All-joined [] fs h k = k
All-joined (e ∷ es) fs h k = (h.0, All-joined es fs h.1 k)

ToldStatuses-same : (before : List ResourceEvent) → ToldStatuses before before
ToldStatuses-same before = ([], sym (append_nil before), tt)

ToldStatuses-trans :
    (a b c : List ResourceEvent) → ToldStatuses a b → ToldStatuses b c → ToldStatuses a c
ToldStatuses-trans a b c (es, first, h) (fs, second, k) =
    (es ++ fs, second ∙ rw first (append_assoc a es fs), All-joined es fs h k)

-- Only statuses differ: no row is added, removed or changed otherwise, in any table.
pub record StatusOnly (t u : Tables) : Type 0 where
  pub rows : map bare u.resources ≡ map bare t.resources
  pub secrets : u.tenant_secrets ≡ t.tenant_secrets
  pub tokens : u.api_tokens ≡ t.api_tokens
  pub told : ToldStatuses t.published u.published

pub StatusOnly-preorder : IsPreorder StatusOnly
StatusOnly-preorder = record {
  same = λ t. record {
    rows = refl;
    secrets = refl;
    tokens = refl;
    told = ToldStatuses-same t.published;
  };
  trans = λ t u v f g. record {
    rows = g.rows ∙ f.rows;
    secrets = g.secrets ∙ f.secrets;
    tokens = g.tokens ∙ f.tokens;
    told = ToldStatuses-trans t.published u.published v.published f.told g.told;
  };
}

bare-update_where :
    (p : Row → Bool) (f : Row → Row)
    → ((r : Row) → bare (f r) ≡ bare r)
    → (rows : List Row) → map bare (update_where p f rows) ≡ map bare rows
unfolding update_where
bare-update_where p f alike [] = refl
bare-update_where p f alike (r ∷ rows) = elim (Bool-cases (p r)) [
  | inl e ↦ rw (e, alike r, bare-update_where p f alike rows) refl
  | inr e ↦ rw (e, bare-update_where p f alike rows) refl
]

Keeps-written :
    (ty nm text : String) (at : ℕ)
    → Keeps StatusOnly
        (exec (update_rows ty nm (λ r. true) (λ r. record r { status = text; updated_at = at })))
unfolding update_rows
Keeps-written ty nm text at = Keeps-exec StatusOnly-preorder _ (λ t. record {
  rows = bare-update_where _ _ (λ r. refl) t.resources;
  secrets = refl;
  tokens = refl;
  told = ToldStatuses-same t.published;
})

notified-ToldStatuses :
    (e : ResourceEvent) (bus : Bool) (before : List ResourceEvent)
    → IsStatus e
    → ToldStatuses before (if bus then before ++ e ∷ [] else before)
notified-ToldStatuses e true before status = (e ∷ [], refl, (status, tt))
notified-ToldStatuses e false before status = ToldStatuses-same before

Keeps-published :
    (event_type ty : String) (md : Metadata) (spec status : Option String)
    → Keeps StatusOnly (publish event_type "status" ty md spec status)
unfolding publish
Keeps-published event_type ty md spec status = Keeps-modify StatusOnly-preorder _ (λ t. record {
  rows = refl;
  secrets = refl;
  tokens = refl;
  told = notified-ToldStatuses _ t.bus t.published refl;
})

Keeps-reloaded :
    (event_type ty nm : String)
    → Keeps StatusOnly (update_resource_metadata_and_publish event_type "status" ty nm)
unfolding update_resource_metadata_and_publish
Keeps-reloaded event_type ty nm = search (keeps_rules, StatusOnly-preorder, Keeps-published) depth 8

Keeps-marshalled : (v : Value) → Keeps StatusOnly (marshal v)
Keeps-marshalled none = search (keeps_rules, StatusOnly-preorder)
Keeps-marshalled (some text) = search (keeps_rules, StatusOnly-preorder)

pub Keeps-update_status :
    (ty nm : String) (status : Value) → Keeps StatusOnly (update_status ty nm status)
unfolding update_status
Keeps-update_status ty nm status =
    search (keeps_rules, StatusOnly-preorder, Keeps-marshalled, Keeps-written, Keeps-reloaded) depth
      12

module _ (tenant_spec : Codec TenantSpec) (tenant_status : Codec TenantStatus)
    (ng_status : Codec NodeGroupStatusJson) (sqlite : Sqlite) where
  Keeps-tenant_status :
      (nm : String) (status : TenantStatus)
      → Keeps StatusOnly (update_tenant_status tenant_spec tenant_status nm status)
  unfolding update_tenant_status
  Keeps-tenant_status nm status =
      search (keeps_rules, StatusOnly-preorder, Keeps-update_status, Keeps-get_resource) depth 8

  Keeps-track_tenant :
      (ev : PhaseEvent) (at : ℕ) (r : Result (Option Tenant))
      → Keeps StatusOnly (track_tenant tenant_spec tenant_status ng_status sqlite ev at r)
  unfolding track_tenant
  Keeps-track_tenant ev at (err e) = search (keeps_rules, StatusOnly-preorder)
  Keeps-track_tenant ev at (ok none) = search (keeps_rules, StatusOnly-preorder)
  Keeps-track_tenant ev at (ok (some t)) =
      search (keeps_rules, StatusOnly-preorder, Keeps-tenant_status) depth 8

  Keeps-track_group :
      (ev : PhaseEvent) (at : ℕ) (found : Loaded)
      → Keeps StatusOnly (track_group tenant_spec tenant_status ng_status sqlite ev at found)
  unfolding track_group
  Keeps-track_group ev at found =
      search (keeps_rules, StatusOnly-preorder, Keeps-update_status) depth 8

  Keeps-track_groups :
      (ev : PhaseEvent) (at : ℕ) (items : List Loaded)
      → Keeps StatusOnly (track_groups tenant_spec tenant_status ng_status sqlite ev at items)
  unfolding track_groups
  Keeps-track_groups ev at [] = search (keeps_rules, StatusOnly-preorder)
  Keeps-track_groups ev at (found ∷ rest) =
      let first = Keeps-track_group ev at found in
      let others = Keeps-track_groups ev at rest in
      search (keeps_rules, StatusOnly-preorder, first, others) depth 8

  Keeps-track_listed :
      (ev : PhaseEvent) (at : ℕ) (r : Result (List Loaded × ℕ))
      → Keeps StatusOnly (track_listed tenant_spec tenant_status ng_status sqlite ev at r)
  unfolding track_listed
  Keeps-track_listed ev at (err e) = search (keeps_rules, StatusOnly-preorder)
  Keeps-track_listed ev at (ok (items, total)) = Keeps-track_groups ev at items

  -- Whatever fails, the tracker changes nothing of the store but statuses and the times of their
  -- updates: every row keeps its name, version, specification, labels, finalizers and deletion
  -- mark, and no row, secrets bundle or API token is added or removed. What it publishes on the
  -- bus are changes of statuses.
  pub track-StatusOnly :
      (ev : PhaseEvent) → Keeps StatusOnly (track tenant_spec tenant_status ng_status sqlite ev)
  unfolding track list_resources
  track-StatusOnly ev =
      search
        (keeps_rules, StatusOnly-preorder, Keeps-get_tenant, Keeps-track_tenant, Keeps-track_listed)
        depth 12
