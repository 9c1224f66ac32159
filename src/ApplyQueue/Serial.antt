-- ===== src/ApplyQueue/Serial.antt =====
-- The goroutines of a tenant, and the map of active tenants (internal/applyqueue/queue.go).
use rezuscloud.Prelude.{
  ℕ, suc, ◌<◌, ◌≡◌, refl, sym, ◌∙◌, ap, inl, inr, ◌↔◌, Bool, true, false, Option, none, some,
  String, arith, eq_iff, eq_refl, eqb, eqb_iff, Bool-cases, Option-cases,
}
use rezuscloud.ApplyQueue.Scheduler.{
  Pc, absent, starting, waiting, applying, checking, Queue, put, put_tenant, points_at, start,
  stop_all, enqueue, launch, send, debounce, fire, finish, decide, release, new,
}
use rezuscloud.ApplyQueue.Steps.{
  Step, starts, stops, enqueues, launches, sends, debounces, fires, finishes, decides, releases,
  Steps, here, later, Reachable,
}

abbrev pub is_live : Pc → Bool
is_live absent = false
is_live _ = true

-- The map holds exactly the handles whose goroutine is there, each under its tenant.
abbrev Owned : (String → Option ℕ) → ℕ → (ℕ → String) → (ℕ → Pc) → Type 0
Owned active fresh tenant_of pc =
    ((h : ℕ) → is_live (pc h) ≡ true → (active (tenant_of h) ≡ some h) × (h < fresh))
    × ((t : String) (h : ℕ) → active t ≡ some h → (tenant_of h ≡ t) × (is_live (pc h) ≡ true))

advance-Owned :
    (active : String → Option ℕ) (fresh : ℕ) (tenant_of : ℕ → String) (pc : ℕ → Pc) (h : ℕ) (p : Pc)
    → is_live (pc h) ≡ true
    → is_live p ≡ true
    → Owned active fresh tenant_of pc
    → Owned active fresh tenant_of (put h p pc)
advance-Owned active fresh tenant_of pc h p old new_live o = (
  (λ k live. elim (Bool-cases (eqb h k)) [
    | inl e ↦ o.0 k (rw (sym ((eqb_iff h k).0 e)) old)
    | inr e ↦ o.0 k (sym (rw e refl) ∙ live)
  ]),
  (λ t k found. (
    (o.1 t k found).0,
    elim (Bool-cases (eqb h k)) [ inl e ↦ rw e new_live | inr e ↦ rw e (o.1 t k found).1 ],
  )),
)

remove-Owned :
    (active : String → Option ℕ) (fresh : ℕ) (tenant_of : ℕ → String) (pc : ℕ → Pc) (h : ℕ)
    → is_live (pc h) ≡ true
    → Owned active fresh tenant_of pc
    → Owned (put_tenant (tenant_of h) none active) fresh tenant_of (put h absent pc)
remove-Owned active fresh tenant_of pc h live o = (
  (λ k live_k. ground (arith, o.0 k, o.0 h, eq_iff (tenant_of h) (tenant_of k))),
  (λ t k found. ground (arith, o.1 t k, o.0 h, eq_iff (tenant_of h) t)),
)

spawn-Owned :
    (active : String → Option ℕ) (fresh : ℕ) (tenant_of : ℕ → String) (pc : ℕ → Pc) (t : String)
    → active t ≡ none
    → Owned active fresh tenant_of pc
    → Owned
        (put_tenant t (some fresh) active)
        (suc fresh)
        (put fresh t tenant_of)
        (put fresh starting pc)
spawn-Owned active fresh tenant_of pc t free o = (
  (λ k live_k. ground (arith, o.0 k, eq_refl t, eq_iff t (tenant_of k))),
  (λ u k found. ground (arith, o.1 u k, o.0 k, eq_iff t u)),
)

abbrev pub IsSerial : Queue → Type 0
IsSerial q = Owned q.active q.fresh q.tenant_of q.pc

enqueue-IsSerial : (t : String) (q : Queue) → IsSerial q → IsSerial (enqueue t q)
unfolding enqueue
enqueue-IsSerial t q o = elim (Option-cases (q.active t)) [
  | inl free ↦ rw (enqueue, free) (spawn-Owned q.active q.fresh q.tenant_of q.pc t free o)
  | inr (h, found) ↦ rw (enqueue, found) o
]

decide-IsSerial : (h : ℕ) (q : Queue) → q.pc h ≡ checking → IsSerial q → IsSerial (decide h q)
unfolding decide
decide-IsSerial h q e o = elim (Bool-cases (q.trigger h)) [
  | inl again ↦
      rw (decide, again)
        (advance-Owned q.active q.fresh q.tenant_of q.pc h waiting (rw e refl) refl o)
  | inr idle ↦ rw (decide, idle) (remove-Owned q.active q.fresh q.tenant_of q.pc h (rw e refl) o)
]

-- The guard of release always holds.
pub release-owned :
    (h : ℕ) (q : Queue)
    → is_live (q.pc h) ≡ true
    → IsSerial q
    → points_at (q.active (q.tenant_of h)) h ≡ true
release-owned h q live o = rw ((o.0 h live).0) (ground arith)

Step-IsSerial : {q r : Queue} → Step q r → IsSerial q → IsSerial r
unfolding start stop_all launch send debounce fire finish release
Step-IsSerial (starts q) o = elim (Option-cases q.stop) [
  | inl e ↦ rw (start, e) o
  | inr (c, e) ↦ rw (start, e) o
]
Step-IsSerial (stops q) o = elim (Option-cases q.stop) [
  | inl e ↦ rw (stop_all, e) o
  | inr (c, e) ↦ rw (stop_all, e) o
]
Step-IsSerial (enqueues q t) o = enqueue-IsSerial t q o
Step-IsSerial (launches q h e) o =
    advance-Owned q.active q.fresh q.tenant_of q.pc h waiting (rw e refl) refl o
Step-IsSerial (sends q h some_left) o = o
Step-IsSerial (debounces q h e ready) o = o
Step-IsSerial (fires q h e) o =
    advance-Owned q.active q.fresh q.tenant_of q.pc h applying (rw e refl) refl o
Step-IsSerial (finishes q h outcome e) o =
    advance-Owned q.active q.fresh q.tenant_of q.pc h checking (rw e refl) refl o
Step-IsSerial (decides q h e) o = decide-IsSerial h q e o
Step-IsSerial (releases q h e done) o =
    rw (release-owned h q (rw e refl) o)
      (remove-Owned q.active q.fresh q.tenant_of q.pc h (rw e refl) o)

pub new-IsSerial : IsSerial new
unfolding new
new-IsSerial = ((λ h live. ground arith), λ t h found. ground arith)

pub Steps-IsSerial : {q r : Queue} → Steps q r → IsSerial q → IsSerial r
Steps-IsSerial here o = o
Steps-IsSerial (later s st) o = Step-IsSerial st (Steps-IsSerial s o)

-- In every reachable state two goroutines of one tenant are one goroutine, so a tenant's applies
-- never overlap; and the map holds a handle under a tenant exactly where the handle's goroutine,
-- made for that tenant, has not returned.
pub serialized :
    (q : Queue)
    → Reachable q
    → ((h k : ℕ)
        → is_live (q.pc h) ≡ true
        → is_live (q.pc k) ≡ true
        → q.tenant_of h ≡ q.tenant_of k
        → h ≡ k)
      × ((t : String) (h : ℕ)
          → (q.active t ≡ some h) ↔ ((q.tenant_of h ≡ t) × (is_live (q.pc h) ≡ true)))
serialized q reached =
    let o = Steps-IsSerial reached new-IsSerial in
    (
      (λ h k lh lk same. ground (arith, o.0 h, o.0 k)),
      (λ t h. ((λ found. o.1 t h found), (λ own. ap q.active (sym own.0) ∙ (o.0 h own.1).0))),
    )
