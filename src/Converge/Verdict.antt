-- ===== src/Converge/Verdict.antt =====
-- What a verdict of nil of convergeWithRetry (internal/converge/engine.go) says.
use rezuscloud.Prelude.{
  ℕ, zero, suc, ◌≡◌, refl, inl, inr, Option, none, some, String, ltb, Bool-cases,
}
use rezuscloud.Effects.{Db, Result, ok, err, Error, Exec, now}
use rezuscloud.State.Types.{Machine}
use rezuscloud.Converge.World.{World, Outside, at_moment, sleep}
use rezuscloud.Converge.Engine.{
  converge, attempted, given_up, past_deadline, retry, converge_with_retry,
}
use rezuscloud.Converge.Delivery.{Reached, converge-Reached}

module _ (o : Outside) (m : Machine) (addr : String) where
  -- A verdict of nil, and no other, says that the machine was reached.
  abbrev Honest : Result (Option (Result (Unit {0}))) × Db World → Type 0
  Honest rd = rd.0 ≡ ok (some (ok tt)) → Reached o m addr rd.1.tables

  past_deadline-Honest :
      (deadline : ℕ) (e : Error) (again : Exec World (Option (Result (Unit {0})))) (at : ℕ)
      (d : Db World)
      → ((d' : Db World) → Honest (again d'))
      → Honest (past_deadline o deadline e again at d)
  unfolding past_deadline sleep
  past_deadline-Honest deadline e again at d rest = elim (Bool-cases (ltb deadline at)) [
    | inl late ↦ rw late (λ done. absurd (cc))
    | inr early ↦ rw early (rest _)
  ]

  given_up-Honest :
      (deadline : ℕ) (e : Error) (again : Exec World (Option (Result (Unit {0}))))
      (stop : Option Error) (d : Db World)
      → ((d' : Db World) → Honest (again d'))
      → Honest (given_up o deadline e again stop d)
  unfolding given_up now
  given_up-Honest deadline e again (some c) d rest = λ done. absurd (cc)
  given_up-Honest deadline e again none d rest = past_deadline-Honest deadline e again _ _ rest

  attempted-Honest :
      (deadline : ℕ) (again : Exec World (Option (Result (Unit {0})))) (r : Result (Unit {0}))
      (d : Db World)
      → (r ≡ ok tt → Reached o m addr d.tables)
      → ((d' : Db World) → Honest (again d'))
      → Honest (attempted o deadline again r d)
  unfolding attempted at_moment
  attempted-Honest deadline again (ok u) d reached rest = λ done. reached refl
  attempted-Honest deadline again (err e) d reached rest = given_up-Honest deadline e again _ d rest

  retry-Honest : (deadline fuel : ℕ) (d : Db World) → Honest (retry o deadline m addr fuel d)
  unfolding retry
  retry-Honest deadline zero d = λ done. absurd (cc)
  retry-Honest deadline (suc fuel) d =
      attempted-Honest deadline (retry o deadline m addr fuel) (converge o m addr d).0
        (converge o m addr d).1 (converge-Reached o m addr d) (retry-Honest deadline fuel)

  -- Where convergeWithRetry returns nil, the last request that was sent carried a configuration
  -- that the renderer made for the machine to port 1024 of the host of the node's address, and
  -- was accepted.
  pub converge_with_retry-Reached :
      (fuel : ℕ) (d : Db World)
      → (converge_with_retry o fuel m addr d).0 ≡ ok (some (ok tt))
      → Reached o m addr (converge_with_retry o fuel m addr d).1.tables
  unfolding converge_with_retry now
  converge_with_retry-Reached fuel d = retry-Honest _ fuel _
