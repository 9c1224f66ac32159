-- ===== src/Upgrade/Rolling.antt =====
-- The rolling loop (internal/upgrade/manager.go, rolling.go). The machine upgrader is an interface
-- of the package: what it answers is a parameter that may look at every call made so far. The
-- context is read once before each machine.
use rezuscloud.Prelude.{
  ℕ, suc, Bool, true, false, Option, none, some, String, List, [], ◌∷◌, ◌++◌, ◌==◌, length,
  if◌then◌else◌,
}
use Prim.Native.String.{◌++◌ as concat}
use rezuscloud.Effects.{Result, ok, err, Error, message}

pub data Phase : Type 0 where
  idle precheck upgrading rollback_phase complete failed canceled : Phase

pub record Status : Type 0 where
  pub phase : Phase
  pub component : String
  pub target : String
  pub current : String
  pub total_machines : ℕ
  pub completed : ℕ
  pub current_machine : String
  pub error : String

-- The calls of a MachineUpgrader, and Manager.persistStatus.
pub data Call : Type 0 where
  upgrade_machine : String → String → Call
  check_health : String → Call
  rollback_machine : String → String → Call

-- The calls so far, oldest first, and what the next one returns: `none` for nil, or the error's
-- text.
abbrev pub Upgrader : Type 0
Upgrader = List Call → Call → Option String

-- What a run has done: the calls made and the statuses persisted, oldest first.
pub record Run : Type 0 where
  pub calls : List Call
  pub persisted : List Status

abbrev pub perform : Call → Run → Run
perform c r = record r { calls = r.calls ++ c ∷ [] }

unfoldable pub persist_status : Status → Run → Run
persist_status s r = record r { persisted = r.persisted ++ s ∷ [] }

abbrev pub rollback_error : String → Option String → String
rollback_error e none = e
rollback_error e (some again) = concat (concat e "; rollback also failed: ") again

-- What one machine of the loop comes to: the loop's `return`, or the next iteration.
pub data Turn : Type 0 where
  returns : Status → Run → Turn
  goes_on : Status → Run → Turn

abbrev pub no_run : Run
no_run = record { calls = []; persisted = [] }

abbrev pub initial_status : String → String → String → Status
initial_status current target component = record {
  phase = precheck;
  component = component;
  target = target;
  current = current;
  total_machines = 0;
  completed = 0;
  current_machine = "";
  error = "";
}

module _ (answer : Upgrader) where
  -- What follows UpgradeMachine's failure: the rollback, and the return.
  unfoldable pub upgrade_failed : String → String → Status → Run → Status × Run
  upgrade_failed m e s r =
      let back = rollback_machine m s.current in
      (record s { phase = failed; error = rollback_error e (answer r.calls back) }, perform back r)

  -- What follows CheckMachineHealth's failure.
  unfoldable pub check_failed : String → String → Status → Run → Status × Run
  check_failed m e s r = (
    record s {
      phase = failed;
      error = concat (concat (concat "health check failed for " m) ": ") e;
    },
    perform (rollback_machine m s.current) r,
  )

  unfoldable pub checked : ℕ → String → Option String → Status → Run → Turn
  unfolding check_failed
  checked i m none s r = goes_on (record s { completed = suc i }) r
  checked i m (some e) s r = returns (check_failed m e s r).0 (check_failed m e s r).1

  unfoldable pub upgraded : ℕ → String → Option String → Status → Run → Turn
  unfolding upgrade_failed
  upgraded i m none s r =
      checked i m (answer r.calls (check_health m)) s (perform (check_health m) r)
  upgraded i m (some e) s r = returns (upgrade_failed m e s r).0 (upgrade_failed m e s r).1

  -- The loop's body for the machine at index `i`; `stopped` is `<-ctx.Done()`.
  unfoldable pub turn : Bool → ℕ → String → Status → Run → Turn
  unfolding persist_status
  turn true i m s r = returns (record s { phase = canceled; error = "cancelled by operator" }) r
  turn false i m s r =
      let now = record s { current_machine = m; completed = i } in
      let saved = persist_status now r in
      let call = upgrade_machine m s.target in
      upgraded i m (answer saved.calls call) now (perform call saved)

  unfoldable pub roll_machines : (ℕ → Bool) → ℕ → List String → Status → Run → Status × Run
  roll_machines stopped i [] s r = (record s { phase = complete; current_machine = "" }, r)
  roll_machines stopped i (m ∷ ms) s r = elim (turn (stopped i) i m s r) [
    | returns s' r' ↦ (s', r')
    | goes_on s' r' ↦ roll_machines stopped (suc i) ms s' r'
  ]

  -- What follows ListMachinesInOrder in rollUpgrade.
  unfoldable pub roll_listed :
      (ℕ → Bool) → Result (List String) → (Error → String) → Status → Status × Run
  roll_listed stopped (err e) text s = (record s { phase = failed; error = text e }, no_run)
  roll_listed stopped (ok []) text s = (record s { phase = complete }, no_run)
  roll_listed stopped (ok (m ∷ ms)) text s =
      roll_machines stopped 0 (m ∷ ms)
        (record s { total_machines = length (m ∷ ms); phase = upgrading }) no_run

  -- rollUpgrade; `machines` is what the lister returns.
  unfoldable pub roll_upgrade :
      (ℕ → Bool) → Result (List String) → (Error → String) → String → String → String → Status × Run
  roll_upgrade stopped machines text current target component =
      let s = initial_status current target component in
      if current == target
      then (record s { phase = complete }, no_run)
      else roll_listed stopped machines text s

-- RunUpgrade: what it returns where rollUpgrade returns `s`.
unfoldable pub run_result : Status → Result (Unit {0})
run_result s =
    let versions =
      concat (concat (concat (concat (concat "upgrade " s.component) " ") s.current) "→")
        s.target in
    elim s.phase [
      | failed ↦ err (message (concat (concat versions " failed: ") s.error))
      | canceled ↦ err (message (concat versions " canceled"))
      | _ ↦ ok tt
    ]
