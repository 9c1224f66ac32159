-- ===== src/Converge/Engine.antt =====
-- The operations of the converge engine (internal/converge/engine.go). The loop of
-- convergeWithRetry runs on fuel, with `none` where it runs out.
use Prim.Native.String.{◌++◌ as concat}
use rezuscloud.Prelude.{
  ℕ, zero, suc, ◌+◌, true, Option, none, some, String, ◌==◌, ltb, if◌then◌else◌,
}
use rezuscloud.Maps.{insert, get_text}
use rezuscloud.Effects.{
  Result, ok, err, Error, message, wrap, Exec, pure, raise, attempt, context, modify, gets, now,
  ◌>>=◌, ◌>>◌,
}
use rezuscloud.State.Types.{Machine}
use rezuscloud.State.Tables.{Tables}
use rezuscloud.State.Machines.{get_machine}
use rezuscloud.Converge.World.{World, Outside, in_store, at_moment, sleep}
use rezuscloud.Converge.Deliver.{DeliverRequest, deliver, deliver_again}
use rezuscloud.Converge.Marks.{mark_converged, set_connected, mark_disconnected, resolve_machine}

-- mgmtlink.PeerEvent and its kinds; the kind is a string.
pub data PeerEventKind : Type 0 where
  peer_connected peer_disconnected other_kind : PeerEventKind

pub record PeerEvent : Type 0 where
  pub kind : PeerEventKind
  pub join_token : String
  pub node_addr_port : String

abbrev pub retry_pause : ℕ
retry_pause = 500000000

module _ (o : Outside) where
  -- e.Renderer.
  unfoldable pub rendered : String → String → Exec Tables String
  rendered tenant id d =
      ((o.renderer d.tables tenant id).0, record d { tables = (o.renderer d.tables tenant id).1 })

  unfoldable pub render : String → String → Exec World String
  unfolding in_store rendered
  render tenant id = in_store (rendered tenant id)

  -- What follows the rendering.
  unfoldable pub push : String → String → DeliverRequest → Exec World Unit
  unfolding deliver deliver_again mark_converged
  push tenant id req = do
    result ← attempt (deliver o req)
    deliver_again o tenant req result
    mark_converged o id

  unfoldable pub converge_tenant : String → Machine → String → Exec World Unit
  unfolding render push
  converge_tenant tenant m node_addr_port = do
    yaml ← context "render config" (render tenant m.metadata.name)
    push tenant m.metadata.name
        (record { node_addr = node_addr_port; config_yaml = yaml; client_config = none })

  unfoldable pub converge : Machine → String → Exec World Unit
  unfolding converge_tenant
  converge m node_addr_port =
      let tenant = get_text m.metadata.labels "rezuscloud.io/tenant" in
      if tenant == ""
      then raise
          (message (concat "machine " (concat (o.quoted m.metadata.name) " has no tenant label")))
      else converge_tenant tenant m node_addr_port

  -- What follows an attempt; `again` is the next iteration.
  unfoldable pub past_deadline :
      ℕ
      → Error
      → Exec World (Option (Result (Unit {0})))
      → ℕ
      → Exec World (Option (Result (Unit {0})))
  unfolding sleep
  past_deadline deadline last again at =
      if ltb deadline at
      then pure (some (err (wrap "converge budget exhausted" last)))
      else (sleep retry_pause >> again)

  unfoldable pub given_up :
      ℕ
      → Error
      → Exec World (Option (Result (Unit {0})))
      → Option Error
      → Exec World (Option (Result (Unit {0})))
  unfolding past_deadline
  given_up deadline last again (some e) = pure (some (err e))
  given_up deadline last again none = do at ← now; past_deadline deadline last again at

  unfoldable pub attempted :
      ℕ
      → Exec World (Option (Result (Unit {0})))
      → Result (Unit {0})
      → Exec World (Option (Result (Unit {0})))
  unfolding given_up at_moment
  attempted deadline again (ok u) = pure (some (ok tt))
  attempted deadline again (err e) = do
    stopped ← at_moment (λ n w. o.ctx_err n)
    given_up deadline e again stopped

  unfoldable pub retry : ℕ → Machine → String → ℕ → Exec World (Option (Result (Unit {0})))
  unfolding attempted converge
  retry deadline m addr zero = pure none
  retry deadline m addr (suc fuel) = do
    result ← attempt (converge m addr)
    attempted deadline (retry deadline m addr fuel) result

  unfoldable pub converge_with_retry :
      ℕ → Machine → String → Exec World (Option (Result (Unit {0})))
  unfolding retry
  converge_with_retry fuel m addr = do start ← now; retry (start + o.converge_budget) m addr fuel

  abbrev pub found_machine : String → Result (Option Machine) → Exec World Machine
  found_machine id (ok (some m)) = pure m
  found_machine id (ok none) =
      raise (message (concat (concat "machine " (o.quoted id)) ": %!w(<nil>)"))
  found_machine id (err e) = raise (wrap (concat "machine " (o.quoted id)) e)

  unfoldable pub converge_machine : ℕ → String → Exec World (Option (Result (Unit {0})))
  unfolding in_store converge_with_retry
  converge_machine fuel id = do
    addr ← gets (λ w. get_text w.addrs id)
    if addr == ""
        then raise (
            message
              (concat "machine " (concat (o.quoted id) " is not connected to the management link")))
        else do
          found ← attempt (in_store (get_machine o.machine_spec o.machine_status id))
          m ← found_machine id found
          converge_with_retry fuel m addr

  unfoldable pub connect : ℕ → PeerEvent → Result Machine → Exec World Unit
  unfolding set_connected converge_with_retry
  connect fuel ev (err e) = pure tt
  connect fuel ev (ok m) = do
    modify (λ w. record w { addrs = insert m.metadata.name ev.node_addr_port w.addrs })
    set_connected o m.metadata.name true
    attempt (converge_with_retry fuel m ev.node_addr_port)
    pure tt

  unfoldable pub on_kind : ℕ → PeerEvent → PeerEventKind → Exec World Unit
  unfolding mark_disconnected resolve_machine connect
  on_kind fuel ev peer_disconnected = mark_disconnected o ev.node_addr_port
  on_kind fuel ev other_kind = pure tt
  on_kind fuel ev peer_connected = do
    found ← attempt (resolve_machine o ev.join_token)
    connect fuel ev found

  unfoldable pub on_peer : ℕ → PeerEvent → Exec World Unit
  unfolding on_kind
  on_peer fuel ev = on_kind fuel ev ev.kind
