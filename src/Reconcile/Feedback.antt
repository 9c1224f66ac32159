-- ===== src/Reconcile/Feedback.antt =====
-- Which changes of the state store reach the apply queue (internal/state/store.go, bus.go and
-- status.go of internal/reconcile, and Enqueue of internal/applyqueue).
use rezuscloud.Prelude.{
  ℕ, suc, ◌≡◌, refl, ◌∙◌, ap, ◌⊎◌, inl, true, false, some, String, List, [], ◌∷◌, ◌++◌, ◌==◌, All,
}
use rezuscloud.Maps.{StringMap, lookup, get_text}
use rezuscloud.Effects.{Db}
use rezuscloud.State.Types.{TenantSpec, TenantStatus}
use rezuscloud.State.Tables.{Tables, Row, ResourceEvent, select, metadata_of, mutation_spec}
use rezuscloud.State.Json.{Codec}
use rezuscloud.State.Resources.{update_rows}
use rezuscloud.State.Listing.{Sqlite}
use rezuscloud.State.WellFormed.{IsWellFormed}
use rezuscloud.State.Amend.{IsHealthy, event_of}
use rezuscloud.State.Concurrency.{write, written, write-hit}
use rezuscloud.ApplyQueue.{starting, Queue}
use rezuscloud.Reconcile.Bus.{tenant_of, publish, publish-ignores, publish-enqueues}
use rezuscloud.Reconcile.Status.{PhaseEvent, NodeGroupStatusJson, track}
use rezuscloud.Reconcile.Tracking.{IsStatus, track-StatusOnly}

-- The bus receives these events, one after the other.
abbrev pub publish_all : List ResourceEvent → Queue → Queue
publish_all [] q = q
publish_all (e ∷ es) q = publish_all es (publish e.resource_type e q)

publish-status : (e : ResourceEvent) (q : Queue) → IsStatus e → publish e.resource_type e q ≡ q
publish-status e q status = publish-ignores e.resource_type e q (inl (rw status refl))

publish_all-statuses :
    (es : List ResourceEvent) (q : Queue) → All IsStatus es → publish_all es q ≡ q
publish_all-statuses [] q h = refl
publish_all-statuses (e ∷ es) q h =
    ap (publish_all es) (publish-status e q h.0) ∙ publish_all-statuses es q h.1

-- Whatever fails in the status tracker, the events that the bus receives from it leave the apply
-- queue exactly as it was: the queue is not fed by its own phases.
pub track-unheard :
    (tenant_spec : Codec TenantSpec) (tenant_status : Codec TenantStatus)
    (ng_status : Codec NodeGroupStatusJson) (sqlite : Sqlite) (ev : PhaseEvent) (d : Db Tables)
    (q : Queue)
    → (es : List ResourceEvent) × ((track tenant_spec tenant_status ng_status sqlite ev
          d).1.tables.published
        ≡ d.tables.published ++ es)
      × (publish_all es q ≡ q)
track-unheard tenant_spec tenant_status ng_status sqlite ev d q =
    let (es, told, statuses) =
      ((track-StatusOnly tenant_spec tenant_status ng_status sqlite ev).at d).told in
    (es, told, publish_all-statuses es q statuses)

-- The tenant that a row belongs to: a tenant's is itself, any other's stands in a label.
pub data BelongsTo (t : String) (ty nm : String) (labels : StringMap) : Type 0 where
  itself : ty ≡ "tenant" → nm ≡ t → BelongsTo t ty nm labels
  labelled :
      (ty == "tenant") ≡ false
      → lookup "rezuscloud.io/tenant" labels ≡ some t
      → BelongsTo t ty nm labels

tenant_of-BelongsTo :
    (t ty : String) (e : ResourceEvent)
    → BelongsTo t ty e.metadata.name e.metadata.labels
    → tenant_of ty e ≡ t
unfolding tenant_of get_text
tenant_of-BelongsTo t ty e (itself typed named) = rw typed named
tenant_of-BelongsTo t ty e (labelled other found) = rw (other, get_text, found) refl

-- Take a store with a bus on which no statement fails, and an update of the specification of a row
-- at its current version, after which the row belongs to a tenant with a name. The bus receives
-- one event, which leaves that tenant in the queue's map, with a goroutine just made for it or a
-- send to the one there begun.
pub update_resource-heard :
    (ty nm : String) (v : ℕ) (text : String) (labels annotations : StringMap) (d : Db Tables)
    (t : String) (q : Queue)
    → IsWellFormed d.tables
    → IsHealthy d
    → d.tables.bus ≡ true
    → (r : Row) → select ty nm d.tables ≡ some r
    → r.version ≡ v
    → BelongsTo t ty r.name labels
    → (t == "") ≡ false
    → (e : ResourceEvent) × ((write ty nm v text labels annotations d).1.tables.published
        ≡ d.tables.published ++ e ∷ [])
      × (h : ℕ) × (((publish e.resource_type e q).active t ≡ some h)
          × (((publish e.resource_type e q).pc h ≡ starting)
              ⊎ ((publish e.resource_type e q).sends h ≡ suc (q.sends h))))
unfolding metadata_of update_rows
update_resource-heard ty nm v text labels annotations d t q w fine bus r found fresh belongs named =
    let e =
      event_of "MODIFIED" mutation_spec ty
        (written text labels annotations (d.clock d.readings) r) in
    let owner = tenant_of-BelongsTo t ty e belongs in
    let (h, active, woken) = publish-enqueues ty e q refl (rw owner named) in
    (
      e,
      rw (write-hit ty nm v text labels annotations d w fine r found fresh) (rw bus refl),
      h,
      (rw⁻¹ owner active, woken),
    )
