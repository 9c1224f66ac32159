-- ===== src/Upgrade/Endings.antt =====
-- How a rolling upgrade ends (internal/upgrade/manager.go).
use rezuscloud.Prelude.{
  ℕ, suc, ◌+◌, ◌≡◌, ◌≢◌, refl, sym, ◌∙◌, ap, inl, inr, Bool, true, false, Option, none, some,
  String, List, [], ◌∷◌, ◌++◌, arith, ◌==◌, length, Bool-cases,
}
use rezuscloud.Effects.{Error, ok}
use rezuscloud.Upgrade.Rolling.{
  Status, Call, upgrade_machine, check_health, rollback_machine, Upgrader, Run, perform, Turn,
  returns, goes_on, failed, canceled, complete, turn, upgraded, checked, upgrade_failed,
  check_failed, persist_status, roll_machines, roll_upgrade, roll_listed, initial_status, no_run,
  run_result, upgrading,
}

-- The calls for machines whose upgrade and health check both succeed.
abbrev pub passed_calls : String → List String → List Call
passed_calls target [] = []
passed_calls target (m ∷ ms) = upgrade_machine m target ∷ check_health m ∷ passed_calls target ms

-- The calls for the machine at which a run fails.
abbrev pub failed_calls : Bool → String → String → String → List Call
failed_calls true current target m =
    upgrade_machine m target ∷ check_health m ∷ rollback_machine m current ∷ []
failed_calls false current target m = upgrade_machine m target ∷ rollback_machine m current ∷ []

-- How a loop over `ms` ends, that started with `before` called and at index `i`.
pub data Ending (before : List Call) (i : ℕ) (current target : String) (ms : List String)
    (out : Status × Run) : Type 0 where
  completes :
      out.0.phase ≡ complete
      → out.0.completed ≡ i + length ms
      → out.1.calls ≡ before ++ passed_calls target ms
      → Ending before i current target ms out
  fails :
      (done rest : List String) (m : String) (checked_too : Bool)
      → ms ≡ done ++ m ∷ rest
      → out.0.phase ≡ failed
      → out.0.completed ≡ i + length done
      → out.0.current_machine ≡ m
      → out.1.calls
        ≡ before ++ (passed_calls target done ++ failed_calls checked_too current target m)
      → Ending before i current target ms out
  cancels :
      (done rest : List String) (m : String)
      → ms ≡ done ++ m ∷ rest
      → out.0.phase ≡ canceled
      → out.0.completed ≡ i + length done
      → out.1.calls ≡ before ++ passed_calls target done
      → Ending before i current target ms out

append_assoc : {A : Type 0} (xs ys zs : List A) → (xs ++ ys) ++ zs ≡ xs ++ (ys ++ zs)
append_assoc [] ys zs = refl
append_assoc (x ∷ xs) ys zs = ap (λ t. x ∷ t) (append_assoc xs ys zs)

append_nil : {A : Type 0} (xs : List A) → xs ++ [] ≡ xs
append_nil [] = refl
append_nil (x ∷ xs) = ap (λ t. x ∷ t) (append_nil xs)

-- What one turn of the loop comes to, where the context is not cancelled.
data Outcome (i : ℕ) (m : String) (s : Status) (before : List Call) (t : Turn) : Type 0 where
  passes :
      (s' : Status) (r' : Run)
      → t ≡ goes_on s' r'
      → s'.target ≡ s.target
      → s'.current ≡ s.current
      → s'.completed ≡ suc i
      → r'.calls ≡ before ++ (upgrade_machine m s.target ∷ check_health m ∷ [])
      → Outcome i m s before t
  breaks :
      (s' : Status) (r' : Run) (checked_too : Bool)
      → t ≡ returns s' r'
      → s'.phase ≡ failed
      → s'.completed ≡ i
      → s'.current_machine ≡ m
      → r'.calls ≡ before ++ failed_calls checked_too s.current s.target m
      → Outcome i m s before t

module _ (answer : Upgrader) where
  checked-Outcome :
      (i : ℕ) (m : String) (s : Status) (r : Run) (before : List Call) (a : Option String)
      → r.calls ≡ before ++ (upgrade_machine m s.target ∷ check_health m ∷ [])
      → Outcome i m s before
          (checked answer i m a (record s { current_machine = m; completed = i }) r)
  unfolding checked check_failed
  checked-Outcome i m s r before none e = passes _ _ refl refl refl refl e
  checked-Outcome i m s r before (some text) e =
      breaks _ _ true refl refl refl refl (rw e (append_assoc before _ _))

  upgraded-Outcome :
      (i : ℕ) (m : String) (s : Status) (r : Run) (a : Option String)
      → Outcome i m s r.calls (
          upgraded answer i m a
            (record s { current_machine = m; completed = i })
            (perform (upgrade_machine m s.target) r))
  unfolding upgraded upgrade_failed
  upgraded-Outcome i m s r (some text) =
      breaks _ _ false refl refl refl refl (append_assoc r.calls _ _)
  upgraded-Outcome i m s r none = checked-Outcome i m s _ r.calls _ (append_assoc r.calls _ _)

  turn-Outcome :
      (i : ℕ) (m : String) (s : Status) (r : Run)
      → Outcome i m s r.calls (turn answer false i m s r)
  unfolding turn persist_status
  turn-Outcome i m s r =
      upgraded-Outcome i m s (persist_status (record s { current_machine = m; completed = i }) r) _

extend-Ending :
    (i : ℕ) (m : String) (ms : List String) (s s' : Status) (before after : List Call)
    (out : Status × Run)
    → s'.target ≡ s.target
    → s'.current ≡ s.current
    → after ≡ before ++ (upgrade_machine m s.target ∷ check_health m ∷ [])
    → Ending after (suc i) s'.current s'.target ms out
    → Ending before i s.current s.target (m ∷ ms) out
extend-Ending i m ms s s' before after out t c e (completes p n calls) =
    completes p (n ∙ omega arith) (calls ∙ rw (e, t) (append_assoc before _ _))
extend-Ending i m ms s s' before after out t c e (fails done rest k b split p n at calls) =
    fails (m ∷ done) rest k b (ap (λ l. m ∷ l) split) p (n ∙ omega arith) at
      (calls ∙ rw (e, t, c) (append_assoc before _ _))
extend-Ending i m ms s s' before after out t c e (cancels done rest k split p n calls) =
    cancels (m ∷ done) rest k (ap (λ l. m ∷ l) split) p (n ∙ omega arith)
      (calls ∙ rw (e, t) (append_assoc before _ _))

module _ (answer : Upgrader) (stopped : ℕ → Bool) where
  turned-Ending :
      (ms : List String) (i : ℕ) (m : String) (s : Status) (before : List Call) (t : Turn)
      → Outcome i m s before t
      → ((s' : Status) (r' : Run)
          → s'.completed ≡ suc i
          → Ending r'.calls
              (suc i)
              s'.current
              s'.target
              ms
              (roll_machines answer stopped (suc i) ms s' r'))
      → Ending before i s.current s.target (m ∷ ms) (elim t [
        | returns s' r' ↦ (s', r')
        | goes_on s' r' ↦ roll_machines answer stopped (suc i) ms s' r'
      ])
  turned-Ending ms i m s before t (passes s' r' e target current n calls) rest =
      rw e (extend-Ending i m ms s s' before r'.calls _ target current calls (rest s' r' n))
  turned-Ending ms i m s before t (breaks s' r' b e p n at calls) rest =
      rw e (fails [] ms m b refl p (n ∙ omega arith) at calls)

  roll-Ending :
      (ms : List String) (i : ℕ) (s : Status) (r : Run)
      → s.completed ≡ i
      → Ending r.calls i s.current s.target ms (roll_machines answer stopped i ms s r)
  unfolding roll_machines turn
  roll-Ending [] i s r e = completes refl (e ∙ omega arith) (sym (append_nil r.calls))
  roll-Ending (m ∷ ms) i s r e = elim (Bool-cases (stopped i)) [
    | inl stop ↦
        rw (roll_machines, stop)
          (cancels [] ms m refl refl (e ∙ omega arith) (sym (append_nil r.calls)))
    | inr go ↦
        rw (roll_machines, go)
          (turned-Ending ms i m s r.calls _ (turn-Outcome answer i m s r)
            (λ s' r' n. roll-Ending ms (suc i) s' r' n))
  ]

pub roll_upgrade-Ending :
    (answer : Upgrader) (stopped : ℕ → Bool) (machines : List String) (text : Error → String)
    (current target component : String)
    → (current == target) ≡ false
    → Ending [] 0 current target machines
        (roll_upgrade answer stopped (ok machines) text current target component)
unfolding roll_upgrade roll_listed
roll_upgrade-Ending answer stopped [] text current target component differ =
    rw differ (completes refl refl refl)
roll_upgrade-Ending answer stopped (m ∷ ms) text current target component differ = rw differ (
    roll-Ending answer stopped (m ∷ ms) 0
      (record (initial_status current target component) {
        total_machines = length (m ∷ ms);
        phase = upgrading;
      })
      no_run refl)

failed-raises : (s : Status) → s.phase ≡ failed → run_result s ≢ ok tt
unfolding run_result
failed-raises s p = rw p (λ fine. cc)

canceled-raises : (s : Status) → s.phase ≡ canceled → run_result s ≢ ok tt
unfolding run_result
canceled-raises s p = rw p (λ fine. cc)

run-passed :
    (current target : String) (ms : List String) (out : Status × Run)
    → Ending [] 0 current target ms out
    → run_result out.0 ≡ ok tt
    → out.1.calls ≡ passed_calls target ms
unfolding run_result
run-passed current target ms out (completes p n calls) fine = calls
run-passed current target ms out (fails done rest m b split p n at calls) fine =
    absurd (failed-raises out.0 p fine)
run-passed current target ms out (cancels done rest m split p n calls) fine =
    absurd (canceled-raises out.0 p fine)

-- RunUpgrade to another version returns nil only where every listed machine was upgraded and
-- found healthy, each once and in the lister's order, and nothing was rolled back.
pub run_upgrade-passed :
    (answer : Upgrader) (stopped : ℕ → Bool) (machines : List String) (text : Error → String)
    (current target component : String)
    → (current == target) ≡ false
    → run_result (roll_upgrade answer stopped (ok machines) text current target component).0 ≡ ok tt
    → (roll_upgrade answer stopped (ok machines) text current target component).1.calls
      ≡ passed_calls target machines
run_upgrade-passed answer stopped machines text current target component differ =
    run-passed current target machines _
      (roll_upgrade-Ending answer stopped machines text current target component differ)
