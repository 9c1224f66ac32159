-- ===== src/ApplyQueue/PhaseOrder.antt =====
-- The order in which a tenant's phases reach the listener (internal/applyqueue/queue.go).
use rezuscloud.Prelude.{
  ℕ, ◌≡◌, refl, sym, ◌∙◌, ap, inl, inr, ◌↔◌, Bool, true, false, ◌&&◌, Option, none, some, String,
  List, [], ◌∷◌, arith, ◌==◌, eq_iff, if◌then◌else◌, Bool-cases, Option-cases,
}
use rezuscloud.ApplyQueue.Scheduler.{
  Pc, absent, starting, waiting, applying, checking, Phase, queued, applying_phase, applied, failed,
  destroying, Outcome, succeeded, broken, canceled, reported, Event, Queue, notify, put, put_tenant,
  start, stop_all, enqueue, launch, send, debounce, fire, finish, decide, release, new,
}
use rezuscloud.ApplyQueue.Steps.{
  Step, starts, stops, enqueues, launches, sends, debounces, fires, finishes, decides, releases,
  here, later, Reachable,
}
use rezuscloud.ApplyQueue.Serial.{is_live, IsSerial, Steps-IsSerial, new-IsSerial, release-owned}

abbrev pub last_of : String → List Event → Option Phase
last_of t [] = none
last_of t (e ∷ es) = if e.tenant == t then some e.phase else last_of t es

-- Which phase may come after the latest one: an apply starts after a `queued` or another apply's
-- end, an end comes after a start, and `queued` does not come during an apply.
abbrev pub allowed : Option Phase → Phase → Bool
allowed none queued = true
allowed (some applying_phase) applied = true
allowed (some applying_phase) failed = true
allowed (some applying_phase) _ = false
allowed (some _) queued = true
allowed (some _) applying_phase = true
allowed _ _ = false

abbrev pub is_ordered : String → List Event → Bool
is_ordered t [] = true
is_ordered t (e ∷ es) =
    if e.tenant == t then allowed (last_of t es) e.phase && is_ordered t es else is_ordered t es

-- The latest phase of a tenant, where its goroutine stands.
abbrev fits : Pc → Option Phase → Bool
fits applying (some applying_phase) = true
fits applying _ = false
fits checking (some applied) = true
fits checking (some failed) = true
fits checking _ = false
fits waiting none = false
fits _ (some applying_phase) = false
fits _ _ = true

abbrev pub stage_of : Option ℕ → (ℕ → Pc) → Pc
stage_of none pc = absent
stage_of (some h) pc = pc h

abbrev Told : (String → Option ℕ) → (ℕ → Pc) → List Event → Type 0
Told active pc events =
    (t : String)
    → (is_ordered t events ≡ true) × (fits (stage_of (active t) pc) (last_of t events) ≡ true)

abbrev IsTold : Queue → Type 0
IsTold q = Told q.active q.pc q.events

module _ (q : Queue) (o : IsSerial q) (h : ℕ) (live : is_live (q.pc h) ≡ true) where
  own-active : (t : String) → (q.tenant_of h == t) ≡ true → q.active t ≡ some h
  own-active t same = ap q.active (sym ((eq_iff _ t).0 same)) ∙ (o.0 h live).0

  put-stage_own :
      (p : Pc) (t : String) → (q.tenant_of h == t) ≡ true → stage_of (q.active t) (put h p q.pc) ≡ p
  put-stage_own p t same = rw (own-active t same) (ground arith)

  stage-own : (t : String) → (q.tenant_of h == t) ≡ true → stage_of (q.active t) q.pc ≡ q.pc h
  stage-own t same = rw (own-active t same) refl

  put-stage_other :
      (p : Pc) (t : String)
      → (q.tenant_of h == t) ≡ false
      → stage_of (q.active t) (put h p q.pc) ≡ stage_of (q.active t) q.pc
  put-stage_other p t other = elim (Option-cases (q.active t)) [
    | inl free ↦ rw free refl
    | inr (k, found) ↦ rw found (ground (arith, o.1 t k, eq_iff (q.tenant_of h) t))
  ]

  -- The goroutine moves and tells the listener.
  speak-Told :
      (p : Pc) (phase : Phase)
      → ((l : Option Phase) → fits (q.pc h) l ≡ true → allowed l phase ≡ true)
      → fits p (some phase) ≡ true
      → IsTold q
      → Told q.active (put h p q.pc) (notify (q.tenant_of h) phase q.events)
  speak-Told p phase may after told t = elim (Bool-cases (q.tenant_of h == t)) [
    | inl same ↦
        let before =
          may (last_of t q.events)
            (sym (ap (λ s. fits s (last_of t q.events)) (stage-own t same)) ∙ (told t).1) in
        rw (same, put-stage_own p t same, before) ((told t).0, after)
    | inr other ↦ rw (other, put-stage_other p t other) (told t)
  ]

  -- The goroutine moves in silence.
  move-Told :
      (p : Pc)
      → ((l : Option Phase) → fits (q.pc h) l ≡ true → fits p l ≡ true)
      → IsTold q
      → Told q.active (put h p q.pc) q.events
  move-Told p may told t = elim (Bool-cases (q.tenant_of h == t)) [
    | inl same ↦
        let before =
          may (last_of t q.events)
            (sym (ap (λ s. fits s (last_of t q.events)) (stage-own t same)) ∙ (told t).1) in
        rw (put-stage_own p t same) ((told t).0, before)
    | inr other ↦ rw (put-stage_other p t other) (told t)
  ]

  remove-Told :
      ((l : Option Phase) → fits (q.pc h) l ≡ true → fits absent l ≡ true)
      → IsTold q
      → Told (put_tenant (q.tenant_of h) none q.active) (put h absent q.pc) q.events
  remove-Told may told t = elim (Bool-cases (q.tenant_of h == t)) [
    | inl same ↦
        let before =
          may (last_of t q.events)
            (sym (ap (λ s. fits s (last_of t q.events)) (stage-own t same)) ∙ (told t).1) in
        rw same ((told t).0, before)
    | inr other ↦ rw (other, put-stage_other absent t other) (told t)
  ]

fresh-stage :
    (q : Queue) (t : String)
    → IsSerial q
    → stage_of (q.active t) (put q.fresh starting q.pc) ≡ stage_of (q.active t) q.pc
fresh-stage q t o = elim (Option-cases (q.active t)) [
  | inl free ↦ rw free refl
  | inr (k, found) ↦ rw found (ground (arith, o.1 t k, o.0 k))
]

spawn-Told :
    (q : Queue) (t : String)
    → IsSerial q
    → q.active t ≡ none
    → IsTold q
    → Told (put_tenant t (some q.fresh) q.active) (put q.fresh starting q.pc) q.events
spawn-Told q t o free told u = elim (Bool-cases (t == u)) [
  | inl same ↦
      let quiet =
        sym (
          ap (λ a. fits (stage_of a q.pc) (last_of u q.events))
            (ap q.active (sym ((eq_iff t u).0 same)) ∙ free))
        ∙ (told u).1 in
      rw same ((told u).0, ground arith)
  | inr other ↦ rw (other, fresh-stage q u o) (told u)
]

launch_allowed : (l : Option Phase) → fits starting l ≡ true → allowed l queued ≡ true
launch_allowed none f = refl
launch_allowed (some queued) f = refl
launch_allowed (some applying_phase) f = f
launch_allowed (some applied) f = refl
launch_allowed (some failed) f = refl
launch_allowed (some destroying) f = refl

fire_allowed : (l : Option Phase) → fits waiting l ≡ true → allowed l applying_phase ≡ true
fire_allowed none f = f
fire_allowed (some queued) f = refl
fire_allowed (some applying_phase) f = f
fire_allowed (some applied) f = refl
fire_allowed (some failed) f = refl
fire_allowed (some destroying) f = refl

finish_allowed :
    (o : Outcome) (l : Option Phase) → fits applying l ≡ true → allowed l (reported o) ≡ true
unfolding reported
finish_allowed o none f = ground arith
finish_allowed o (some queued) f = ground arith
finish_allowed succeeded (some applying_phase) f = refl
finish_allowed broken (some applying_phase) f = refl
finish_allowed canceled (some applying_phase) f = refl
finish_allowed o (some applied) f = ground arith
finish_allowed o (some failed) f = ground arith
finish_allowed o (some destroying) f = ground arith

finish_fits : (o : Outcome) → fits checking (some (reported o)) ≡ true
unfolding reported
finish_fits succeeded = refl
finish_fits broken = refl
finish_fits canceled = refl

done_fits :
    (l : Option Phase) → fits checking l ≡ true → (fits waiting l ≡ true) × (fits absent l ≡ true)
done_fits none f = ground arith
done_fits (some queued) f = ground arith
done_fits (some applying_phase) f = ground arith
done_fits (some applied) f = (refl, refl)
done_fits (some failed) f = (refl, refl)
done_fits (some destroying) f = ground arith

leave_fits : (l : Option Phase) → fits waiting l ≡ true → fits absent l ≡ true
leave_fits none f = refl
leave_fits (some queued) f = refl
leave_fits (some applying_phase) f = f
leave_fits (some applied) f = refl
leave_fits (some failed) f = refl
leave_fits (some destroying) f = refl

during : (p : Pc) (l : Option Phase) → fits p l ≡ true → (p ≡ applying) ↔ (l ≡ some applying_phase)
during p none f = ground arith
during p (some phase) f = ground arith

Step-IsTold : {q r : Queue} → Step q r → IsSerial q → IsTold q → IsTold r
unfolding start stop_all launch send debounce fire finish release enqueue decide
Step-IsTold (starts q) o told = elim (Option-cases q.stop) [
  | inl e ↦ rw (start, e) told
  | inr (c, e) ↦ rw (start, e) told
]
Step-IsTold (stops q) o told = elim (Option-cases q.stop) [
  | inl e ↦ rw (stop_all, e) told
  | inr (c, e) ↦ rw (stop_all, e) told
]
Step-IsTold (enqueues q t) o told = elim (Option-cases (q.active t)) [
  | inl free ↦ rw (enqueue, free) (spawn-Told q t o free told)
  | inr (h, found) ↦ rw (enqueue, found) told
]
Step-IsTold (launches q h e) o told =
    speak-Told q o h (rw e refl) waiting queued (rw e launch_allowed) refl told
Step-IsTold (sends q h some_left) o told = told
Step-IsTold (debounces q h e ready) o told = told
Step-IsTold (fires q h e) o told =
    speak-Told q o h (rw e refl) applying applying_phase (rw e fire_allowed) refl told
Step-IsTold (finishes q h outcome e) o told =
    speak-Told q o h (rw e refl) checking (reported outcome) (rw e (finish_allowed outcome))
      (finish_fits outcome) told
Step-IsTold (decides q h e) o told = elim (Bool-cases (q.trigger h)) [
  | inl again ↦
      rw (decide, again)
        (move-Told q o h (rw e refl) waiting (rw e (λ l f. (done_fits l f).0)) told)
  | inr idle ↦
      rw (decide, idle) (remove-Told q o h (rw e refl) (rw e (λ l f. (done_fits l f).1)) told)
]
Step-IsTold (releases q h e done) o told =
    rw (release-owned h q (rw e refl) o) (remove-Told q o h (rw e refl) (rw e leave_fits) told)

new-IsTold : IsTold new
unfolding new
new-IsTold t = (refl, refl)

Steps-IsTold : {q : Queue} → Reachable q → IsTold q
Steps-IsTold here = new-IsTold
Steps-IsTold (later s st) = Step-IsTold st (Steps-IsSerial s new-IsSerial) (Steps-IsTold s)

-- In every reachable state the phases of a tenant have reached the listener in a legal order (an
-- apply starts after a `queued` or after the end of the apply before it, an end follows a start,
-- and no `queued` comes during an apply), and the latest one is `applying` where the tenant's
-- goroutine is in Applier.Apply and only there.
pub phases_ordered :
    (q : Queue)
    → Reachable q
    → (t : String)
    → (is_ordered t q.events ≡ true)
      × ((stage_of (q.active t) q.pc ≡ applying) ↔ (last_of t q.events ≡ some applying_phase))
phases_ordered q reached t =
    let told = Steps-IsTold reached t in
    (told.0, during (stage_of (q.active t) q.pc) (last_of t q.events) told.1)
