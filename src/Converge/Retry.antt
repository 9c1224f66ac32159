-- ===== src/Converge/Retry.antt =====
-- The loop of convergeWithRetry (internal/converge/engine.go).
use rezuscloud.Prelude.{
  ℕ, zero, suc, ◌+◌, ◌*◌, ◌<◌, ◌≤◌, ◌≡◌, refl, inl, inr, false, Option, none, some, String, arith,
  ltb, leb, Bool-cases,
}
use rezuscloud.Effects.{Db, Result, ok, err, Error, Exec, now}
use rezuscloud.Effects.Keeps.{IsOnward}
use rezuscloud.State.Types.{Machine}
use rezuscloud.Converge.World.{World, Outside, at_moment, sleep}
use rezuscloud.Converge.Engine.{
  converge, retry, converge_with_retry, attempted, given_up, past_deadline, retry_pause,
}
use rezuscloud.Converge.Kept.{Keeps-converge}

-- A clock that does not go back.
abbrev pub IsSteady : (ℕ → ℕ) → Type 0
IsSteady clock = (n : ℕ) → clock n ≤ clock (suc n)

clock_mono : (clock : ℕ → ℕ) → IsSteady clock → (n k : ℕ) → n ≤ k → clock n ≤ clock k
clock_mono clock steady n zero le = let same : n ≡ 0 = omega arith in rw same (omega arith)
clock_mono clock steady n (suc k) le = elim (Bool-cases (leb n k)) [
  | inl below ↦
      let before = clock_mono clock steady n k (ground arith) in let last = steady k in omega arith
  | inr beyond ↦ let same : n ≡ suc k = ground arith in rw same (omega arith)
]

later :
    (d d' : Db World) → IsSteady d.clock → IsOnward d d' → d.clock d.readings ≤ d'.clock d'.readings
later d d' steady (clock, forward) = rw clock (clock_mono d.clock steady _ _ forward)

later-IsSteady : (d d' : Db World) → IsSteady d.clock → IsOnward d d' → IsSteady d'.clock
later-IsSteady d d' steady (clock, forward) = rw clock steady

-- The run comes to a verdict.
abbrev pub Decides : Exec World (Option (Result (Unit {0}))) → Db World → Type 0
Decides m d = (v : Result (Unit {0})) × ((m d).0 ≡ ok (some v))

-- Time enough for the next iteration, or past the deadline at the next reading.
abbrev pub Nears : ℕ → ℕ → Db World → Type 0
Nears deadline fuel d = deadline < d.clock d.readings + fuel * retry_pause

module _ (o : Outside) (deadline : ℕ) where
  past_deadline-Decides :
      (e : Error) (again : Exec World (Option (Result (Unit {0})))) (at : ℕ) (d : Db World)
      → (ltb deadline at ≡ false → Decides again (sleep retry_pause d).1)
      → Decides (past_deadline o deadline e again at) d
  unfolding past_deadline sleep
  past_deadline-Decides e again at d rest = elim (Bool-cases (ltb deadline at)) [
    | inl late ↦ rw late (_, refl)
    | inr early ↦ rw early (rest early)
  ]

  abbrev after_reading : Db World → Db World
  after_reading d = record d { readings = suc d.readings }

  module _ (again : Exec World (Option (Result (Unit {0})))) where
    given_up-Decides :
        (e : Error) (stop : Option Error) (d : Db World)
        → (ltb deadline (d.clock d.readings) ≡ false
            → Decides again (sleep retry_pause (after_reading d)).1)
        → Decides (given_up o deadline e again stop) d
    unfolding given_up now
    given_up-Decides e (some c) d rest = (_, refl)
    given_up-Decides e none d rest =
        past_deadline-Decides e again (d.clock d.readings) (after_reading d) rest

    attempted-Decides :
        (r : Result (Unit {0})) (d : Db World)
        → (ltb deadline (d.clock d.readings) ≡ false
            → Decides again (sleep retry_pause (after_reading d)).1)
        → Decides (attempted o deadline again r) d
    unfolding attempted at_moment
    attempted-Decides (ok u) d rest = (_, refl)
    attempted-Decides (err e) d rest = given_up-Decides e _ d rest

  module _ (m : Machine) (addr : String) where
    retry-Decides :
        (fuel : ℕ) (d : Db World)
        → IsSteady d.clock
        → Nears deadline fuel d
        → Decides (retry o deadline m addr (suc fuel)) d
    unfolding retry sleep
    retry-Decides zero d steady near =
        let onward = (Keeps-converge o m addr).time d in
        attempted-Decides (retry o deadline m addr zero) (converge o m addr d).0
          (converge o m addr d).1
          (λ early. let at = later d (converge o m addr d).1 steady onward in absurd (ground arith))
    retry-Decides (suc fuel) d steady near =
        let onward = (Keeps-converge o m addr).time d in
        let at = later d (converge o m addr d).1 steady onward in
        let steadily = later-IsSteady d (converge o m addr d).1 steady onward in
        attempted-Decides (retry o deadline m addr (suc fuel)) (converge o m addr d).0
          (converge o m addr d).1
          (λ early.
            retry-Decides fuel (sleep retry_pause (after_reading (converge o m addr d).1)).1
              (λ n. let h = steadily n in omega arith)
              (let h = steadily (converge o m addr d).1.readings in omega arith))

-- If the clock never goes back, then convergeWithRetry comes to a verdict, whatever its attempts
-- return: one attempt more than the budget holds pauses is enough.
pub converge_with_retry-Decides :
    (o : Outside) (m : Machine) (addr : String) (fuel : ℕ) (d : Db World)
    → IsSteady d.clock
    → o.converge_budget < fuel * retry_pause
    → Decides (converge_with_retry o (suc fuel) m addr) d
unfolding converge_with_retry now
converge_with_retry-Decides o m addr fuel d steady enough =
    let first = steady d.readings in
    retry-Decides o (d.clock d.readings + o.converge_budget) m addr fuel
      (record d { readings = suc d.readings }) steady (omega arith)
