-- ===== src/ApplyQueue/Tests.antt =====
-- The apply queue (internal/applyqueue/queue.go) on one interleaving.
use rezuscloud.Prelude.{ℕ, ◌<◌, ◌≡◌, ◌↔◌, ◌⊎◌, refl, true, false, none, some, String, arith}
use rezuscloud.ApplyQueue.Scheduler.{
  absent, waiting, applying, checking, succeeded, applying_phase, Queue, new, enqueue, launch, fire,
  finish, decide, send, is_done,
}
use rezuscloud.ApplyQueue.Steps.{
  Step, enqueues, launches, sends, fires, finishes, decides, Steps, here, later, Reachable,
}
use rezuscloud.ApplyQueue.Serial.{is_live, serialized}
use rezuscloud.ApplyQueue.Wakeup.{lost_wakeup, signal_kept}
use rezuscloud.ApplyQueue.PhaseOrder.{is_ordered, stage_of, last_of, phases_ordered}

-- A tenant is enqueued and its apply ends; during the apply it is enqueued again, and that call
-- has not sent its signal yet.
abbrev during_apply : Queue
during_apply = enqueue "acme" (fire 0 (launch 0 (enqueue "acme" new)))

abbrev at_decision : Queue
at_decision = finish 0 succeeded during_apply

during_apply-Reachable : Reachable during_apply
unfolding new enqueue launch
during_apply-Reachable =
    later (later (later (later here (enqueues new "acme")) (launches _ 0 refl)) (fires _ 0 refl))
      (enqueues _ "acme")

at_decision-Reachable : Reachable at_decision
unfolding new enqueue launch fire
at_decision-Reachable = later during_apply-Reachable (finishes during_apply 0 succeeded refl)

-- The same with the signal sent.
abbrev signalled : Queue
signalled = send 0 at_decision

signalled-Reachable : Reachable signalled
unfolding new enqueue launch fire finish
signalled-Reachable = later at_decision-Reachable (sends at_decision 0 (omega arith))

serialized_example :
    ((h k : ℕ)
      → is_live (at_decision.pc h) ≡ true
      → is_live (at_decision.pc k) ≡ true
      → at_decision.tenant_of h ≡ at_decision.tenant_of k
      → h ≡ k)
    × ((t : String) (h : ℕ)
        → (at_decision.active t ≡ some h)
          ↔ ((at_decision.tenant_of h ≡ t) × (is_live (at_decision.pc h) ≡ true)))
serialized_example = serialized at_decision at_decision-Reachable

at_decision-checking : at_decision.pc 0 ≡ checking
unfolding new enqueue launch fire finish
at_decision-checking = refl

at_decision-empty : at_decision.trigger 0 ≡ false
unfolding new enqueue launch fire finish
at_decision-empty = refl

at_decision-held : 0 < at_decision.sends 0
unfolding new enqueue launch fire finish
at_decision-held = omega arith

lost_wakeup_example :
    Step at_decision (decide 0 at_decision)
    × Step (decide 0 at_decision) (send 0 (decide 0 at_decision))
    × ((send 0 (decide 0 at_decision)).active (at_decision.tenant_of 0) ≡ none)
    × ((s : Queue)
        → Steps (send 0 (decide 0 at_decision)) s
        → (s.pc 0 ≡ absent) × (s.trigger 0 ≡ true))
lost_wakeup_example =
    lost_wakeup at_decision at_decision-Reachable 0 at_decision-checking at_decision-empty
      at_decision-held

signalled-checking : signalled.pc 0 ≡ checking
unfolding new enqueue launch fire finish send
signalled-checking = refl

signalled-live : is_live (signalled.pc 0) ≡ true
signalled-live = rw signalled-checking refl

signalled-ready : signalled.trigger 0 ≡ true
unfolding send
signalled-ready = refl

signalled-going : is_done signalled (signalled.bound 0) ≡ false
unfolding new enqueue launch fire finish send
signalled-going = refl

signal_kept_example :
    (is_live ((decide 0 signalled).pc 0) ≡ true)
    × (((decide 0 signalled).trigger 0 ≡ true) ⊎ ((decide 0 signalled).pc 0 ≡ waiting))
signal_kept_example =
    signal_kept signalled (decide 0 signalled) signalled-Reachable
      (decides signalled 0 signalled-checking) 0 signalled-live signalled-ready signalled-going

phases_ordered_example :
    (is_ordered "acme" at_decision.events ≡ true)
    × ((stage_of (at_decision.active "acme") at_decision.pc ≡ applying)
        ↔ (last_of "acme" at_decision.events ≡ some applying_phase))
phases_ordered_example = phases_ordered at_decision at_decision-Reachable "acme"
