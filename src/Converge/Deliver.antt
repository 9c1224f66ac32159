-- ===== src/Converge/Deliver.antt =====
-- The delivery of a configuration (Deliver, tenantClientConfig and the fallback of converge in
-- internal/converge/engine.go).
use Prim.Native.String.{◌++◌ as concat}
use rezuscloud.Prelude.{ℕ, true, false, Option, none, some, String, List, [], ◌∷◌, ◌++◌}
use rezuscloud.Effects.{
  Result, ok, err, Error, message, wrap, Exec, pure, raise, lift, attempt, context, modify, now,
  ◌>>=◌, ◌>>◌,
}
use rezuscloud.State.Tenants.{load_tenant_secrets}
use rezuscloud.Converge.World.{
  Attempt, World, Outside, Answer, accepts, times_out, not_connected, refuses, in_store, at_moment,
}

-- deliverRequest.
pub record DeliverRequest : Type 0 where
  pub node_addr : String
  pub config_yaml : String
  pub client_config : Option String

module _ (o : Outside) where
  -- What Deliver does with the answer.
  unfoldable pub answered : Attempt → Answer → Exec World Unit
  answered a (not_connected e) = raise (wrap "connect" e)
  answered a accepts = modify (λ w. record w {
    store = o.store_during w a;
    sent = w.sent ++ record { attempt = a; accepted = true } ∷ [];
  })
  answered a times_out =
      modify (λ w. record w {
        store = o.store_during w a;
        sent = w.sent ++ record { attempt = a; accepted = false } ∷ [];
      })
      >> raise (message "apply timed out")
  answered a (refuses e) =
      modify (λ w. record w {
        store = o.store_during w a;
        sent = w.sent ++ record { attempt = a; accepted = false } ∷ [];
      })
      >> raise e

  -- What Deliver does with the host; apidPort is 1024.
  unfoldable pub deliver_to : DeliverRequest → String → Exec World Unit
  unfolding answered at_moment
  deliver_to req host = do
    let a : Attempt = record {
      target = concat "passthrough:///" (o.join_host_port host "1024");
      config_yaml = req.config_yaml;
      client_config = req.client_config;
    }
    answer ← at_moment (λ n w. o.answer n w a)
    answered a answer

  unfoldable pub deliver : DeliverRequest → Exec World Unit
  unfolding deliver_to
  deliver req = do (host, _) ← lift (o.split_host_port req.node_addr); deliver_to req host

  unfoldable pub certificate : String → Option (List ℕ) → Exec World String
  certificate tenant none =
      raise (message (concat "no secrets bundle for tenant " (o.quoted tenant)))
  certificate tenant (some bundle) = do before ← now; after ← now; lift (o.mint bundle before after)

  unfoldable pub tenant_client_config : String → Exec World String
  unfolding certificate in_store
  tenant_client_config tenant = do
    bundle ← in_store (load_tenant_secrets tenant)
    certificate tenant bundle

  -- The code's error wraps the credentials' error too.
  unfoldable pub deliver_with : DeliverRequest → Error → Result String → Exec World Unit
  unfolding deliver
  deliver_with req e (err cred_err) = raise (wrap "deliver (maintenance)" e)
  deliver_with req e (ok creds) =
      context "deliver (authenticated)" (deliver (record req { client_config = some creds }))

  -- What follows the request to the maintenance API.
  unfoldable pub deliver_again : String → DeliverRequest → Result (Unit {0}) → Exec World Unit
  unfolding deliver_with tenant_client_config
  deliver_again tenant req (ok u) = pure tt
  deliver_again tenant req (err e) = do
    creds ← attempt (tenant_client_config tenant)
    deliver_with req e creds
