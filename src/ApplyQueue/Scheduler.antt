-- ===== src/ApplyQueue/Scheduler.antt =====
-- The queue's state and the atomic parts of its functions (internal/applyqueue/queue.go). A
-- `*tenantState` is a handle, a number; what runs for it is one goroutine.
use rezuscloud.Prelude.{
  ℕ, suc, ◌-◌, Bool, true, false, Option, none, some, String, List, [], ◌∷◌, ◌==◌, eqb,
  if◌then◌else◌,
}

-- Where the goroutine of a handle stands: spawned by Enqueue but not yet started, in the select,
-- in Applier.Apply, between Apply and the exit decision, or not there.
pub data Pc : Type 0 where
  absent starting waiting applying checking : Pc

pub data Phase : Type 0 where
  queued applying_phase applied failed destroying : Phase

-- How Applier.Apply returned: nil, an error, or an error that is context.Canceled.
pub data Outcome : Type 0 where
  succeeded broken canceled : Outcome

-- A call of the listener; the error that comes with `failed` is left out.
pub record Event : Type 0 where
  pub tenant : String
  pub phase : Phase

-- `trigger` is the buffered signal of a handle, `sends` how many Enqueue calls have read the
-- handle from the map, left the mutex and not yet sent; `bound` is the context that the goroutine
-- was given, `none` for context.Background; `ended` are the cancelled contexts. `events` holds the
-- latest call of the listener first.
pub record Queue : Type 0 where
  pub active : String → Option ℕ
  pub fresh : ℕ
  pub tenant_of : ℕ → String
  pub pc : ℕ → Pc
  pub trigger : ℕ → Bool
  pub sends : ℕ → ℕ
  pub bound : ℕ → Option ℕ
  pub lctx : Option ℕ
  pub stop : Option ℕ
  pub contexts : ℕ
  pub ended : ℕ → Bool
  pub events : List Event

abbrev pub put : {A : Type 0} → ℕ → A → (ℕ → A) → ℕ → A
put h a f k = if eqb h k then a else f k

abbrev pub put_tenant : {A : Type 0} → String → A → (String → A) → String → A
put_tenant t a f u = if t == u then a else f u

abbrev pub notify : String → Phase → List Event → List Event
notify t p events = record { tenant = t; phase = p } ∷ events

-- New.
unfoldable pub new : Queue
new = record {
  active = λ t. none;
  fresh = 0;
  tenant_of = λ h. "";
  pc = λ h. absent;
  trigger = λ h. false;
  sends = λ h. 0;
  bound = λ h. none;
  lctx = none;
  stop = none;
  contexts = 0;
  ended = λ c. false;
  events = [];
}

-- Start, its critical section.
unfoldable pub start : Queue → Queue
start q = elim q.stop [
  | some c ↦ q
  | none ↦ record q { lctx = some q.contexts; stop = some q.contexts; contexts = suc q.contexts }
]

-- Stop, without its wait.
unfoldable pub stop_all : Queue → Queue
stop_all q = elim q.stop [
  | none ↦ q
  | some c ↦ record q { stop = none; ended = put c true q.ended }
]

-- Enqueue, its critical section: the map is read, and a handle made where it has none.
unfoldable pub enqueue : String → Queue → Queue
enqueue t q = elim (q.active t) [
  | some h ↦ record q { sends = put h (suc (q.sends h)) q.sends }
  | none ↦ record q {
    active = put_tenant t (some q.fresh) q.active;
    fresh = suc q.fresh;
    tenant_of = put q.fresh t q.tenant_of;
    pc = put q.fresh starting q.pc;
    trigger = put q.fresh false q.trigger;
    sends = put q.fresh 0 q.sends;
    bound = put q.fresh q.lctx q.bound;
  }
]

-- Enqueue after the mutex, for a handle just made: the listener, and `go q.run`.
unfoldable pub launch : ℕ → Queue → Queue
launch h q = record q { pc = put h waiting q.pc; events = notify (q.tenant_of h) queued q.events }

-- Enqueue after the mutex, for a handle that was in the map: the non-blocking send.
unfoldable pub send : ℕ → Queue → Queue
send h q = record q { trigger = put h true q.trigger; sends = put h (q.sends h - 1) q.sends }

-- The select takes the trigger: the window starts again.
unfoldable pub debounce : ℕ → Queue → Queue
debounce h q = record q { trigger = put h false q.trigger }

-- The select takes the timer.
unfoldable pub fire : ℕ → Queue → Queue
fire h q = record q {
  pc = put h applying q.pc;
  events = notify (q.tenant_of h) applying_phase q.events;
}

unfoldable pub reported : Outcome → Phase
reported succeeded = applied
reported broken = failed
reported canceled = applied

-- Apply returns, and the listener is told.
unfoldable pub finish : ℕ → Outcome → Queue → Queue
unfolding reported
finish h o q = record q {
  pc = put h checking q.pc;
  events = notify (q.tenant_of h) (reported o) q.events;
}

-- The exit decision, under the mutex.
unfoldable pub decide : ℕ → Queue → Queue
decide h q =
    if q.trigger h
    then record q { trigger = put h false q.trigger; pc = put h waiting q.pc }
    else record q { active = put_tenant (q.tenant_of h) none q.active; pc = put h absent q.pc }

-- `cur == ts`.
abbrev pub points_at : Option ℕ → ℕ → Bool
points_at none h = false
points_at (some k) h = eqb k h

-- release, and the return after it.
unfoldable pub release : ℕ → Queue → Queue
release h q = record q {
  active =
      if points_at (q.active (q.tenant_of h)) h
      then put_tenant (q.tenant_of h) none q.active
      else q.active;
  pc = put h absent q.pc;
}

-- ctx.Done() is closed.
abbrev pub is_done : Queue → Option ℕ → Bool
is_done q none = false
is_done q (some c) = q.ended c
