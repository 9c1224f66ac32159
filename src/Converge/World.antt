-- ===== src/Converge/World.antt =====
-- What the converge engine (internal/converge/engine.go) touches: the state store, its own map of
-- tunnel addresses, and the ApplyConfiguration requests that it has sent. The Talos client, package
-- net, the rendering and the minting of certificates are `Outside`.
use rezuscloud.State.Listing.{Sqlite}
use rezuscloud.Prelude.{ℕ, ◌+◌, Bool, Option, String, List}
use rezuscloud.Maps.{StringMap}
use rezuscloud.Effects.{Result, ok, Error, Exec}
use rezuscloud.State.Types.{MachineSpec, MachineStatus}
use rezuscloud.State.Tables.{Tables}
use rezuscloud.State.Json.{Codec}

-- An ApplyConfiguration request: the target that is dialed, the configuration, and the client
-- certificate, with `none` for the maintenance API.
pub record Attempt : Type 0 where
  pub target : String
  pub config_yaml : String
  pub client_config : Option String

-- A request that was sent, and whether it was answered with no error.
pub record Sent : Type 0 where
  pub attempt : Attempt
  pub accepted : Bool

pub record World : Type 0 where
  pub store : Tables
  pub addrs : StringMap
  pub sent : List Sent

-- What becomes of a request: client.New fails, or ApplyConfiguration returns nil, a
-- context.DeadlineExceeded or another error.
pub data Answer : Type 0 where
  accepts times_out : Answer
  not_connected refuses : Error → Answer

-- `answer` and `ctx_err` (ctx.Err()) may look at the moment, the number of times read off the
-- clock so far. `renderer` is Engine.Renderer, with what it leaves of the store; `store_during` the
-- store when a request has ended. `mint` makes a client certificate from a secrets bundle and the
-- times it is read at, and `quoted` is the verb %q.
pub record Outside : Type 0 where
  pub answer : ℕ → World → Attempt → Answer
  pub ctx_err : ℕ → Option Error
  pub renderer : Tables → String → String → Result String × Tables
  pub store_during : World → Attempt → Tables
  pub mint : List ℕ → ℕ → ℕ → Result String
  pub split_host_port : String → Result (String × String)
  pub join_host_port : String → String → String
  pub quoted : String → String
  pub converge_budget : ℕ
  pub machine_spec : Codec MachineSpec
  pub machine_status : Codec MachineStatus
  pub sqlite : Sqlite

-- An operation of the state store, on the store of the world.
unfoldable pub in_store : {A : Type 0} → Exec Tables A → Exec World A
in_store m d =
    let r = m (record {
      tables = d.tables.store;
      clock = d.clock;
      readings = d.readings;
      faulty = d.faulty;
      statements = d.statements;
    }) in
    (
      r.0,
      record {
        tables = record d.tables { store = r.1.tables };
        clock = r.1.clock;
        readings = r.1.readings;
        faulty = r.1.faulty;
        statements = r.1.statements;
      },
    )

unfoldable pub at_moment : {A : Type 0} → (ℕ → World → A) → Exec World A
at_moment f d = (ok (f d.readings d.tables), d)

-- time.Sleep: whatever is read off the clock afterwards is later by the time slept.
unfoldable pub sleep : ℕ → Exec World Unit
sleep ns d = (ok tt, record d { clock = λ n. d.clock n + ns })
