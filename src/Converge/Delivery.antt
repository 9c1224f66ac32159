-- ===== src/Converge/Delivery.antt =====
-- What a converge that returns nil has delivered (internal/converge/engine.go).
use Prim.Native.String.{◌++◌ as concat}
use rezuscloud.Prelude.{
  ◌≡◌, refl, ◌∙◌, Bool, true, false, Option, none, some, String, List, [], ◌∷◌, ◌++◌, ◌==◌,
  if◌then◌else◌,
}
use rezuscloud.Maps.{get_text}
use rezuscloud.Effects.{Db, Result, ok, err, Error, Exec, continue, wrapped, modify, raise}
use rezuscloud.Effects.Keeps.{wrapped-ok}
use rezuscloud.State.Types.{Machine}
use rezuscloud.State.Tables.{Tables}
use rezuscloud.Converge.World.{
  Attempt, Sent, World, Outside, Answer, accepts, times_out, not_connected, refuses, in_store,
  at_moment,
}
use rezuscloud.Converge.Deliver.{
  DeliverRequest, answered, deliver_to, deliver, deliver_with, deliver_again,
}
use rezuscloud.Converge.Marks.{record_converged, mark_converged}
use rezuscloud.Converge.Engine.{push, rendered, render, converge_tenant, converge}

-- The last request carried this configuration to the host of the address, and was accepted.
abbrev pub Delivered : Outside → String → String → World → Type 0
Delivered o addr yaml w =
    (host : String) × (port : String) × (client : Option String) × (before : List Sent)
    × ((o.split_host_port addr ≡ ok (host, port))
        × (w.sent
            ≡ before
              ++ record {
                attempt = record {
                  target = concat "passthrough:///" (o.join_host_port host "1024");
                  config_yaml = yaml;
                  client_config = client;
                };
                accepted = true;
              }
                ∷ []))

abbrev pub tenant_of : Machine → String
tenant_of m = get_text m.metadata.labels "rezuscloud.io/tenant"

module _ (o : Outside) where
  answered-accepted :
      (a : Attempt) (r : Answer) (d : Db World)
      → (answered o a r d).0 ≡ ok tt
      → (answered o a r d).1.tables.sent
        ≡ d.tables.sent ++ record { attempt = a; accepted = true } ∷ []
  unfolding answered modify
  answered-accepted a accepts d done = refl
  answered-accepted a times_out d done = absurd (cc)
  answered-accepted a (not_connected e) d done = absurd (cc)
  answered-accepted a (refuses e) d done = absurd (cc)

  deliver-Delivered :
      (req : DeliverRequest) (r : Result (String × String)) (d : Db World)
      → o.split_host_port req.node_addr ≡ r
      → (continue r (λ hp. deliver_to o req hp.0) d).0 ≡ ok tt
      → Delivered o req.node_addr req.config_yaml
          (continue r (λ hp. deliver_to o req hp.0) d).1.tables
  unfolding deliver_to at_moment
  deliver-Delivered req (ok (host, port)) d split done =
      (host, port, req.client_config, d.tables.sent, (split, answered-accepted _ _ d done))
  deliver-Delivered req (err e) d split done = absurd (cc)

  deliver_with-Delivered :
      (req : DeliverRequest) (e : Error) (creds : Result String) (d : Db World)
      → (deliver_with o req e creds d).0 ≡ ok tt
      → Delivered o req.node_addr req.config_yaml (deliver_with o req e creds d).1.tables
  unfolding deliver_with deliver
  deliver_with-Delivered req e (err f) d done = absurd (cc)
  deliver_with-Delivered req e (ok creds) d done =
      let again : DeliverRequest = record req { client_config = some creds } in
      deliver-Delivered again (o.split_host_port req.node_addr) d refl
        (wrapped-ok "deliver (authenticated)" (deliver o again d).0 done)

  -- `d` is what the first request has left.
  deliver_again-Delivered :
      (tenant : String) (req : DeliverRequest) (r : Result (Unit {0})) (d : Db World)
      → (r ≡ ok tt → Delivered o req.node_addr req.config_yaml d.tables)
      → (deliver_again o tenant req r d).0 ≡ ok tt
      → Delivered o req.node_addr req.config_yaml (deliver_again o tenant req r d).1.tables
  unfolding deliver_again
  deliver_again-Delivered tenant req (ok u) d first done = first refl
  deliver_again-Delivered tenant req (err e) d first done = deliver_with-Delivered req e _ _ done

  record_converged-sent :
      (id : String) (r : Result (Option Machine)) (d : Db World)
      → (record_converged o id r d).1.tables.sent ≡ d.tables.sent
  unfolding record_converged in_store
  record_converged-sent id (err e) d = refl
  record_converged-sent id (ok none) d = refl
  record_converged-sent id (ok (some m)) d = refl

  mark_converged-sent :
      (id : String) (d : Db World) → (mark_converged o id d).1.tables.sent ≡ d.tables.sent
  unfolding mark_converged in_store
  mark_converged-sent id d = record_converged-sent id _ _

  marked-Delivered :
      (addr yaml id : String) (r : Result (Unit {0})) (d : Db World)
      → (r ≡ ok tt → Delivered o addr yaml d.tables)
      → (continue r (λ u. mark_converged o id) d).0 ≡ ok tt
      → Delivered o addr yaml (continue r (λ u. mark_converged o id) d).1.tables
  marked-Delivered addr yaml id (ok u) d so_far done =
      let (host, port, client, before, (split, sent)) = so_far refl in
      (host, port, client, before, (split, mark_converged-sent id d ∙ sent))
  marked-Delivered addr yaml id (err e) d so_far done = absurd (cc)

  push-Delivered :
      (tenant id : String) (req : DeliverRequest) (d : Db World)
      → (push o tenant id req d).0 ≡ ok tt
      → Delivered o req.node_addr req.config_yaml (push o tenant id req d).1.tables
  unfolding push deliver
  push-Delivered tenant id req d done =
      let first = deliver o req d in
      let second = deliver_again o tenant req first.0 first.1 in
      marked-Delivered req.node_addr req.config_yaml id second.0 second.1
        (deliver_again-Delivered tenant req first.0 first.1
          (deliver-Delivered req (o.split_host_port req.node_addr) d refl))
        done

  -- The configuration is one that the renderer made for the machine.
  abbrev pub Reached : Machine → String → World → Type 0
  Reached m addr w =
      (yaml : String) × (t : Tables) × (((o.renderer t (tenant_of m) m.metadata.name).0 ≡ ok yaml)
        × Delivered o addr yaml w)

  module _ (m : Machine) (addr : String) where
    abbrev pushed : String → Exec World Unit
    pushed yaml =
        push o (tenant_of m) m.metadata.name
          (record { node_addr = addr; config_yaml = yaml; client_config = none })

    rendered-Reached :
        (t : Tables) (r : Result String) (d : Db World)
        → (o.renderer t (tenant_of m) m.metadata.name).0 ≡ r
        → (continue (wrapped "render config" r) pushed d).0 ≡ ok tt
        → Reached m addr (continue (wrapped "render config" r) pushed d).1.tables
    rendered-Reached t (ok yaml) d made done = (yaml, t, (made, push-Delivered _ _ _ d done))
    rendered-Reached t (err e) d made done = absurd (cc)

    checked-Reached :
        (blank : Bool) (e : Error) (d : Db World)
        → ((if blank then raise e else converge_tenant o (tenant_of m) m addr) d).0 ≡ ok tt
        → Reached m addr
            ((if blank then raise e else converge_tenant o (tenant_of m) m addr) d).1.tables
    unfolding converge_tenant render rendered in_store
    checked-Reached true e d done = absurd (cc)
    checked-Reached false e d done = rendered-Reached d.tables.store _ _ refl done

    pub converge-Reached :
        (d : Db World)
        → (converge o m addr d).0 ≡ ok tt
        → Reached m addr (converge o m addr d).1.tables
    unfolding converge
    converge-Reached d done = checked-Reached (tenant_of m == "") _ d done
