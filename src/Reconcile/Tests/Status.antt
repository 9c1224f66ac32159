-- ===== src/Reconcile/Tests/Status.antt =====
-- The status tracker (internal/reconcile/status.go) on one event.
use rezuscloud.Prelude.{none, some}
use rezuscloud.Effects.Keeps.{Keeps}
use rezuscloud.ApplyQueue.{applying_phase}
use rezuscloud.State.Json.{Codec}
use rezuscloud.Reconcile.Status.{PhaseEvent, NodeGroupStatusJson, track}
use rezuscloud.Reconcile.Tracking.{StatusOnly, track-StatusOnly}
use rezuscloud.Reconcile.Tests.{platform}

abbrev pub ng_codec : Codec NodeGroupStatusJson
ng_codec = record {
  marshal = λ s. some s.phase;
  unmarshal = λ text. record {
    phase = text;
    ready_machines = 0;
    total_machines = 0;
    reconciliation = none;
  };
}

abbrev pub applying : PhaseEvent
applying = record { tenant = "acme"; phase = applying_phase; err_text = "" }

track-StatusOnly_example :
    Keeps StatusOnly
      (track platform.tenant_spec platform.tenant_status ng_codec platform.sqlite applying)
track-StatusOnly_example =
    track-StatusOnly platform.tenant_spec platform.tenant_status ng_codec platform.sqlite applying
