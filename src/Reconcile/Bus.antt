-- ===== src/Reconcile/Bus.antt =====
-- EnqueueBus (internal/reconcile/bus.go), over the queue of internal/applyqueue.
use rezuscloud.Prelude.{
  ℕ, suc, ◌≡◌, refl, inl, inr, ◌⊎◌, true, false, some, String, arith, ◌==◌, eq_refl, if◌then◌else◌,
  Bool-cases, Option-cases,
}
use rezuscloud.Maps.{get_text}
use rezuscloud.State.Tables.{ResourceEvent, mutation_status}
use rezuscloud.ApplyQueue.{starting, Queue, enqueue}

unfoldable pub tenant_of : String → ResourceEvent → String
tenant_of ty ev =
    if ty == "tenant" then ev.metadata.name else get_text ev.metadata.labels "rezuscloud.io/tenant"

unfoldable pub publish : String → ResourceEvent → Queue → Queue
unfolding tenant_of
publish ty ev q =
    if ev.mutation == mutation_status
    then q
    else if tenant_of ty ev == ""
    then q
    else enqueue (tenant_of ty ev) q

-- A status write, and a change that names no tenant, leave the queue alone.
pub publish-ignores :
    (ty : String) (ev : ResourceEvent) (q : Queue)
    → ((ev.mutation == mutation_status) ≡ true) ⊎ ((tenant_of ty ev == "") ≡ true)
    → publish ty ev q ≡ q
unfolding publish
publish-ignores ty ev q (inl status) = rw (publish, status) refl
publish-ignores ty ev q (inr no_tenant) = elim (Bool-cases (ev.mutation == mutation_status)) [
  | inl s ↦ rw (publish, s) refl
  | inr s ↦ rw (publish, s, no_tenant) refl
]

-- Any other change leaves its tenant in the queue's map, with a goroutine just made for it or a
-- send to the one there begun.
pub publish-enqueues :
    (ty : String) (ev : ResourceEvent) (q : Queue)
    → (ev.mutation == mutation_status) ≡ false
    → (tenant_of ty ev == "") ≡ false
    → (h : ℕ) × ((publish ty ev q).active (tenant_of ty ev) ≡ some h)
      × (((publish ty ev q).pc h ≡ starting) ⊎ ((publish ty ev q).sends h ≡ suc (q.sends h)))
unfolding publish enqueue
publish-enqueues ty ev q s e = elim (Option-cases (q.active (tenant_of ty ev))) [
  | inl free ↦ (
    q.fresh,
    rw (publish, s, e, enqueue, free, eq_refl (tenant_of ty ev)) refl,
    inl (rw (publish, s, e, enqueue, free) (ground arith)),
  )
  | inr (h, found) ↦ (
    h,
    rw (publish, s, e, enqueue, found) found,
    inr (rw (publish, s, e, enqueue, found) (ground arith)),
  )
]
