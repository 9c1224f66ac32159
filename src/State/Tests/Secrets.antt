-- ===== src/State/Tests/Secrets.antt =====
-- The secrets bundles of tenants (internal/state/store.go) on a small database.
use rezuscloud.Prelude.{List, [], ◌∷◌}
use rezuscloud.State.Secrets.{
  SecretsCall, save_call, load_call, remove_call, view, serve_all, Replays, serve_all-Replays,
}
use rezuscloud.State.Tests.{one_tenant}

abbrev some_calls : List SecretsCall
some_calls =
    save_call "beta" (1 ∷ [])
    ∷ save_call "beta" (2 ∷ [])
    ∷ load_call "beta"
    ∷ remove_call "beta"
    ∷ load_call "beta"
    ∷ []

serve_all-Replays_example :
    Replays
      (serve_all some_calls one_tenant).0
      (view one_tenant.tables)
      (view (serve_all some_calls one_tenant).1.tables)
serve_all-Replays_example = serve_all-Replays some_calls one_tenant
