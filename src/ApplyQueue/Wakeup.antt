-- ===== src/ApplyQueue/Wakeup.antt =====
-- What becomes of the signal of an Enqueue (internal/applyqueue/queue.go).
use rezuscloud.Prelude.{
  ℕ, ◌<◌, ◌≡◌, refl, ◌∙◌, ap, inl, inr, ◌⊎◌, true, false, none, arith, eq_refl, eqb, eqb_iff,
  Bool-cases, Option-cases,
}
use rezuscloud.ApplyQueue.Scheduler.{
  absent, waiting, checking, Queue, start, stop_all, enqueue, launch, send, debounce, fire, finish,
  decide, release, is_done,
}
use rezuscloud.ApplyQueue.Steps.{
  Step, starts, stops, enqueues, launches, sends, debounces, fires, finishes, decides, releases,
  Steps, here, later, Reachable,
}
use rezuscloud.ApplyQueue.Serial.{is_live, IsSerial, Steps-IsSerial, new-IsSerial}

-- A handle that was made, whose goroutine has returned with the signal still in the buffer.
abbrev Dead : ℕ → Queue → Type 0
Dead h q = (q.pc h ≡ absent) × (h < q.fresh) × (q.trigger h ≡ true)

Step-Dead : {q r : Queue} (h : ℕ) → Step q r → Dead h q → Dead h r
unfolding start stop_all launch send debounce fire finish release enqueue decide
Step-Dead h (starts q) d = elim (Option-cases q.stop) [
  | inl e ↦ rw (start, e) d
  | inr (c, e) ↦ rw (start, e) d
]
Step-Dead h (stops q) d = elim (Option-cases q.stop) [
  | inl e ↦ rw (stop_all, e) d
  | inr (c, e) ↦ rw (stop_all, e) d
]
Step-Dead h (enqueues q t) d = elim (Option-cases (q.active t)) [
  | inl free ↦ rw (enqueue, free) (ground arith)
  | inr (k, found) ↦ rw (enqueue, found) d
]
Step-Dead h (launches q k e) d = ground arith
Step-Dead h (sends q k some_left) d = ground arith
Step-Dead h (debounces q k e ready) d = ground arith
Step-Dead h (fires q k e) d = ground arith
Step-Dead h (finishes q k outcome e) d = ground arith
Step-Dead h (decides q k e) d = elim (Bool-cases (q.trigger k)) [
  | inl again ↦ rw (decide, again) (ground arith)
  | inr idle ↦ rw (decide, idle) (ground arith)
]
Step-Dead h (releases q k e done) d = ground arith

Steps-Dead : {q r : Queue} (h : ℕ) → Steps q r → Dead h q → Dead h r
Steps-Dead h here d = d
Steps-Dead h (later s st) d = Step-Dead h st (Steps-Dead h s d)

-- A goroutine that is about to decide, with an empty buffer, while an Enqueue holds its handle and
-- has not yet sent, can return before the send. The signal then stays in the buffer of a handle
-- that no goroutine reads in any later state, the tenant is not in the map, and no goroutine of
-- the tenant is there: the Enqueue has led to no apply.
pub lost_wakeup :
    (q : Queue)
    → Reachable q
    → (h : ℕ) → q.pc h ≡ checking
    → q.trigger h ≡ false
    → 0 < q.sends h
    → Step q (decide h q)
      × Step (decide h q) (send h (decide h q))
      × ((send h (decide h q)).active (q.tenant_of h) ≡ none)
      × ((s : Queue) → Steps (send h (decide h q)) s → (s.pc h ≡ absent) × (s.trigger h ≡ true))
unfolding decide send
lost_wakeup q reached h e idle held =
    let o = Steps-IsSerial reached new-IsSerial in
    let made = (o.0 h (rw e refl)).1 in
    (
      decides q h e,
      sends (decide h q) h (rw (decide, idle) held),
      rw (decide, idle, eq_refl (q.tenant_of h)) refl,
      λ s later_steps.
          let d = Steps-Dead h later_steps (rw (decide, idle) (ground arith)) in (d.0, d.2),
    )

abbrev Heard : ℕ → Queue → Type 0
Heard h r = (is_live (r.pc h) ≡ true) × ((r.trigger h ≡ true) ⊎ (r.pc h ≡ waiting))

Step-Heard :
    {q r : Queue}
    → Step q r
    → IsSerial q
    → (h : ℕ) → is_live (q.pc h) ≡ true
    → q.trigger h ≡ true
    → is_done q (q.bound h) ≡ false
    → Heard h r
unfolding start stop_all launch send debounce fire finish release enqueue decide
Step-Heard (starts q) o h live ready going = elim (Option-cases q.stop) [
  | inl e ↦ rw (start, e) (live, inl ready)
  | inr (c, e) ↦ rw (start, e) (live, inl ready)
]
Step-Heard (stops q) o h live ready going = elim (Option-cases q.stop) [
  | inl e ↦ rw (stop_all, e) (live, inl ready)
  | inr (c, e) ↦ rw (stop_all, e) (live, inl ready)
]
Step-Heard (enqueues q t) o h live ready going = elim (Option-cases (q.active t)) [
  | inl free ↦ rw (enqueue, free) (ground (arith, o.0 h))
  | inr (k, found) ↦ rw (enqueue, found) (live, inl ready)
]
Step-Heard (launches q k e) o h live ready going = ground arith
Step-Heard (sends q k some_left) o h live ready going = ground arith
Step-Heard (debounces q k e full) o h live ready going = ground arith
Step-Heard (fires q k e) o h live ready going = ground arith
Step-Heard (finishes q k outcome e) o h live ready going = ground arith
Step-Heard (decides q k e) o h live ready going = elim (Bool-cases (q.trigger k)) [
  | inl again ↦ rw (decide, again) (ground arith)
  | inr idle ↦ rw (decide, idle) (ground arith)
]
Step-Heard (releases q k e done) o h live ready going = elim (Bool-cases (eqb k h)) [
  | inl same ↦
      let still = ap (λ i. is_done q (q.bound i)) ((eqb_iff k h).0 same) ∙ going in ground arith
  | inr other ↦ rw other (live, inl ready)
]

-- A signal that is in the buffer of a goroutine which has not returned, and whose context is not
-- cancelled, is dropped by no step: the goroutine is still there, with the signal or back at the
-- start of its window.
pub signal_kept :
    (q r : Queue)
    → Reachable q
    → Step q r
    → (h : ℕ) → is_live (q.pc h) ≡ true
    → q.trigger h ≡ true
    → is_done q (q.bound h) ≡ false
    → (is_live (r.pc h) ≡ true) × ((r.trigger h ≡ true) ⊎ (r.pc h ≡ waiting))
signal_kept q r reached st h live ready going =
    Step-Heard st (Steps-IsSerial reached new-IsSerial) h live ready going
