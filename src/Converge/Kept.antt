-- ===== src/Converge/Kept.antt =====
-- The converge engine (internal/converge/engine.go) and the environment: no operation but a
-- pause changes it.
use rezuscloud.Prelude.{refl, ℕ, Option, none, some, String, List, arith}
use rezuscloud.Effects.{Result, ok, err, Error, Exec}
use rezuscloud.Effects.Keeps.{
  Keeps, Anything, Anything-preorder, Keeps-Anything, Keeps-pure, Keeps-raise, Keeps-bind,
  Keeps-modify, Keeps-attempt, Keeps-context, keeps_rules,
}
use rezuscloud.State.Types.{Machine, MachineStatus}
use rezuscloud.State.Tables.{Tables}
use rezuscloud.State.Machines.{update_machine_status}
use rezuscloud.State.Reads.{Keeps-load_tenant_secrets, Keeps-get_machine}
use rezuscloud.State.WellFormed.{
  Preserves, Preserves-preorder, update_status-Preserves, get_resource-Preserves,
}
use rezuscloud.Converge.World.{
  Attempt, World, Outside, Answer, accepts, times_out, not_connected, refuses, in_store, at_moment,
}
use rezuscloud.Converge.Deliver.{
  DeliverRequest, answered, deliver_to, deliver, certificate, tenant_client_config, deliver_with,
  deliver_again,
}
use rezuscloud.Converge.Marks.{record_converged, mark_converged}
use rezuscloud.Converge.Engine.{rendered, render, push, converge_tenant, converge}

Keeps-in_store : {A : Type 0} (m : Exec Tables A) → Keeps Anything m → Keeps Anything (in_store m)
unfolding in_store
Keeps-in_store m k = record { at = λ d. tt; env = λ d. k.env _; time = λ d. k.time _ }

Keeps-at_moment : {A : Type 0} (f : ℕ → World → A) → Keeps Anything (at_moment f)
unfolding at_moment
Keeps-at_moment f = record { at = λ d. tt; env = λ d. refl; time = λ d. (refl, omega arith) }

module _ (o : Outside) where
  Keeps-answered : (a : Attempt) (r : Answer) → Keeps Anything (answered o a r)
  unfolding answered
  Keeps-answered a (not_connected e) = Keeps-raise Anything-preorder _
  Keeps-answered a accepts = Keeps-modify Anything-preorder _ (λ w. tt)
  Keeps-answered a times_out = search (keeps_rules, Anything-preorder)
  Keeps-answered a (refuses e) = search (keeps_rules, Anything-preorder)

  Keeps-deliver_to : (req : DeliverRequest) (host : String) → Keeps Anything (deliver_to o req host)
  unfolding deliver_to
  Keeps-deliver_to req host =
      search (keeps_rules, Anything-preorder, Keeps-at_moment, Keeps-answered) depth 8

  Keeps-deliver : (req : DeliverRequest) → Keeps Anything (deliver o req)
  unfolding deliver
  Keeps-deliver req = search (keeps_rules, Anything-preorder, Keeps-deliver_to) depth 8

  Keeps-certificate :
      (tenant : String) (bundle : Option (List ℕ)) → Keeps Anything (certificate o tenant bundle)
  unfolding certificate
  Keeps-certificate tenant none = Keeps-raise Anything-preorder _
  Keeps-certificate tenant (some bundle) = search (keeps_rules, Anything-preorder) depth 8

  Keeps-client_config : (tenant : String) → Keeps Anything (tenant_client_config o tenant)
  unfolding tenant_client_config
  Keeps-client_config tenant =
      Keeps-bind Anything-preorder _ _
        (Keeps-in_store _ (Keeps-load_tenant_secrets Anything-preorder tenant))
        (Keeps-certificate tenant)

  Keeps-updated :
      (id : String) (st : MachineStatus)
      → Keeps Anything (update_machine_status o.machine_spec o.machine_status id st)
  unfolding update_machine_status
  Keeps-updated id st = Keeps-Anything {R = Preserves} (
      search (keeps_rules, Preserves-preorder, update_status-Preserves, get_resource-Preserves)
        depth 8)

  Keeps-record_converged :
      (id : String) (r : Result (Option Machine)) → Keeps Anything (record_converged o id r)
  unfolding record_converged
  Keeps-record_converged id (err e) = Keeps-pure Anything-preorder tt
  Keeps-record_converged id (ok none) = Keeps-pure Anything-preorder tt
  Keeps-record_converged id (ok (some m)) =
      Keeps-bind Anything-preorder _ _
        (Keeps-attempt Anything-preorder _ (Keeps-in_store _ (Keeps-updated id _)))
        (λ u. Keeps-pure Anything-preorder tt)

  Keeps-mark_converged : (id : String) → Keeps Anything (mark_converged o id)
  unfolding mark_converged
  Keeps-mark_converged id =
      Keeps-bind Anything-preorder _ _
        (Keeps-attempt Anything-preorder _
          (Keeps-in_store _ (Keeps-get_machine Anything-preorder _ _ id)))
        (Keeps-record_converged id)

  Keeps-deliver_with :
      (req : DeliverRequest) (e : Error) (r : Result String)
      → Keeps Anything (deliver_with o req e r)
  unfolding deliver_with
  Keeps-deliver_with req e (err f) = Keeps-raise Anything-preorder _
  Keeps-deliver_with req e (ok creds) = Keeps-context Anything-preorder _ _ (Keeps-deliver _)

  Keeps-deliver_again :
      (tenant : String) (req : DeliverRequest) (r : Result (Unit {0}))
      → Keeps Anything (deliver_again o tenant req r)
  unfolding deliver_again
  Keeps-deliver_again tenant req (ok u) = Keeps-pure Anything-preorder tt
  Keeps-deliver_again tenant req (err e) =
      Keeps-bind Anything-preorder _ _
        (Keeps-attempt Anything-preorder _ (Keeps-client_config tenant)) (Keeps-deliver_with req e)

  Keeps-rendered : (tenant id : String) → Keeps Anything (rendered o tenant id)
  unfolding rendered
  Keeps-rendered tenant id = record {
    at = λ d. tt;
    env = λ d. refl;
    time = λ d. (refl, omega arith);
  }

  Keeps-render : (tenant id : String) → Keeps Anything (render o tenant id)
  unfolding render
  Keeps-render tenant id = Keeps-in_store _ (Keeps-rendered tenant id)

  Keeps-push : (tenant id : String) (req : DeliverRequest) → Keeps Anything (push o tenant id req)
  unfolding push
  Keeps-push tenant id req =
      search
        (keeps_rules, Anything-preorder, Keeps-deliver, Keeps-deliver_again, Keeps-mark_converged)
        depth 8

  pub Keeps-converge : (m : Machine) (addr : String) → Keeps Anything (converge o m addr)
  unfolding converge converge_tenant
  Keeps-converge m addr = search (keeps_rules, Anything-preorder, Keeps-render, Keeps-push) depth 8
