-- ===== src/Reconcile/Tests/Feedback.antt =====
-- Changes of one node group on their way to the apply queue (internal/state/store.go,
-- internal/reconcile/bus.go).
use rezuscloud.Prelude.{ℕ, suc, ◌≡◌, refl, ◌⊎◌, some, true, false, List, [], ◌∷◌, ◌++◌, arith}
use rezuscloud.Maps.{StringMap, lookup}
use rezuscloud.Sql.{select_row}
use rezuscloud.Effects.{Db}
use rezuscloud.State.Tables.{Tables, ResourceEvent, select}
use rezuscloud.State.WellFormed.{IsWellFormed}
use rezuscloud.State.Concurrency.{write}
use rezuscloud.ApplyQueue.{starting, new}
use rezuscloud.Reconcile.Bus.{publish}
use rezuscloud.Reconcile.Status.{track}
use rezuscloud.Reconcile.Feedback.{
  publish_all, track-unheard, BelongsTo, labelled, update_resource-heard,
}
use rezuscloud.Reconcile.Tests.{platform, group_row}
use rezuscloud.Reconcile.Tests.Status.{ng_codec, applying}

abbrev store : Db Tables
store = record {
  tables = record {
    resources = group_row ∷ [];
    tenant_secrets = [];
    api_tokens = [];
    bus = true;
    published = [];
  };
  clock = λ n. n;
  readings = 0;
  faulty = λ n. false;
  statements = 0;
}

abbrev labels : StringMap
labels = ("rezuscloud.io/tenant", "acme") ∷ []

store-IsWellFormed : IsWellFormed store.tables
unfolding select_row
store-IsWellFormed = record { unique = (refl, tt); rows = ((omega arith, tt), tt) }

group-found : select "nodegroup" "workers" store.tables ≡ some group_row
unfolding select_row
group-found = refl

group-BelongsTo : BelongsTo "acme" "nodegroup" "workers" labels
unfolding lookup
group-BelongsTo = labelled refl refl

update_resource-heard_example :
    (e : ResourceEvent) × ((write "nodegroup" "workers" 1 "{2}" labels [] store).1.tables.published
      ≡ [] ++ e ∷ [])
    × (h : ℕ) × (((publish e.resource_type e new).active "acme" ≡ some h)
        × (((publish e.resource_type e new).pc h ≡ starting)
            ⊎ ((publish e.resource_type e new).sends h ≡ suc (new.sends h))))
update_resource-heard_example =
    update_resource-heard "nodegroup" "workers" 1 "{2}" labels [] store "acme" new
      store-IsWellFormed (λ n. refl) refl group_row group-found refl group-BelongsTo refl

track-unheard_example :
    (es : List ResourceEvent) × ((track platform.tenant_spec platform.tenant_status ng_codec
        platform.sqlite applying store).1.tables.published
      ≡ [] ++ es)
    × (publish_all es new ≡ new)
track-unheard_example =
    track-unheard platform.tenant_spec platform.tenant_status ng_codec platform.sqlite applying
      store new
