-- ===== src/ApplyQueue/Steps.antt =====
-- The interleavings of internal/applyqueue/queue.go: each step is one atomic part of one of its
-- goroutines or callers, and any that can run may run next. The resync loop calls Enqueue, so its
-- ticks are `enqueue` steps.
use rezuscloud.Prelude.{ℕ, ◌<◌, ◌≡◌, true, String}
use rezuscloud.ApplyQueue.Scheduler.{
  starting, waiting, applying, checking, Outcome, Queue, start, stop_all, enqueue, launch, send,
  debounce, fire, finish, decide, release, is_done, new,
}

pub data Step : Queue → Queue → Type 0 where
  starts : (q : Queue) → Step q (start q)
  stops : (q : Queue) → Step q (stop_all q)
  enqueues : (q : Queue) (t : String) → Step q (enqueue t q)
  launches : (q : Queue) (h : ℕ) → q.pc h ≡ starting → Step q (launch h q)
  sends : (q : Queue) (h : ℕ) → 0 < q.sends h → Step q (send h q)
  debounces : (q : Queue) (h : ℕ) → q.pc h ≡ waiting → q.trigger h ≡ true → Step q (debounce h q)
  fires : (q : Queue) (h : ℕ) → q.pc h ≡ waiting → Step q (fire h q)
  finishes : (q : Queue) (h : ℕ) (o : Outcome) → q.pc h ≡ applying → Step q (finish h o q)
  decides : (q : Queue) (h : ℕ) → q.pc h ≡ checking → Step q (decide h q)
  releases :
      (q : Queue) (h : ℕ) → q.pc h ≡ waiting → is_done q (q.bound h) ≡ true → Step q (release h q)

pub data Steps (q : Queue) : Queue → Type 0 where
  here : Steps q q
  later : {r s : Queue} → Steps q r → Step r s → Steps q s

abbrev pub Reachable : Queue → Type 0
Reachable q = Steps new q
