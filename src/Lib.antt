-- ===== src/Lib.antt =====
-- A model of the management plane of RezusCloud, and theorems about it.
--
-- The program is a Go server that keeps tenants, machines and their configuration in one SQLite
-- database and brings clusters to the state that is asked for. Its parts, as they are modelled:
--
--   * State (internal/state): the store of typed resources. A resource has a version (optimistic
--     concurrency), finalizers (deletion in two steps), labels and two JSON columns. The
--     operations for tenants, machines, providers, users and API tokens stand on the generic ones,
--     and every change is published to an event bus. `State.Resources` has the generic operations
--     (CreateResource, GetResource, UpdateResource, UpdateStatus, DeleteResource, RemoveResource),
--     `State.Finalizers`, `State.Listing`, `State.Tenants`, `State.Machines` and `State.Accounts`
--     the others, `State.Phase` the derived status (status.go). `State.Operations` has all of
--     them as requests.
--   * Reconcile (internal/reconcile/bus.go): what of those events is enqueued. Also the applier
--     (internal/reconcile/applier.go), which brings the infrastructure of a tenant to its
--     specification: `Reconcile.Keys` and `Reconcile.Tokens` have the machine keys and binding
--     tokens, `Reconcile.Render` the files of the working directory, and `Reconcile.Applier`
--     Apply, destroy and the decision to upgrade; and the status tracker (status.go), which
--     writes the phases of the queue into statuses, in `Reconcile.Status`; and the enricher
--     (enricher.go), which makes machine records for what an apply has made, in
--     `Reconcile.Enricher`.
--   * Tfexec (internal/tfexec/exec.go): the working directory of a tenant, its name, and Run as a
--     command with a result. `Tfexec.World` is what an apply touches: the state store, the files
--     and the commands run.
--   * Converge (internal/converge/engine.go): the engine that delivers the configuration of a
--     machine when its node appears on the management link. `Converge.World` has the state store,
--     the engine's addresses and the requests sent; `Converge.Deliver`, `Converge.Marks` and
--     `Converge.Engine` have one function per method.
--   * ApplyQueue (internal/applyqueue/queue.go): one goroutine per tenant that debounces the
--     enqueues and applies. The queue is a record, each part of a function that runs without
--     interleaving is a function on it, and a step relation lets any of them run next.
--   * TfBackend (internal/tfbackend): the HTTP backend that keeps OpenTofu states and locks, with
--     one function per handler.
--   * Upgrade (internal/upgrade): the rolling upgrade loop and its machine order.
--   * Mgmtlink (internal/mgmtlink/store.go): the /64 of each node on the management link.
--   * Patch (internal/api/patch/resolve.go): which config patches a machine gets, in which order.
--   * Pagination (internal/pagination): limit and offset of a list request.
--
-- Code that calls the database is an action of `Effects`: it reads and changes tables, a clock
-- that may say anything, and a count of the statements sent, each of which the environment may let
-- fail. What was written before a failure stays. `Sql` has the statements as functions on lists of
-- rows, and `Effects.Keeps` relations between the tables before and after that every action
-- respects, whatever fails.
--
-- Parameters, since they are not code of this repository: encoding/json at each type (`Codec`),
-- SQLite's json_set, and its json_extract with what it makes of a label key that is spliced
-- unescaped into the text of a list statement and is not of plain characters
-- (`State.Listing.Sqlite`), strconv.Atoi, strings.ToLower, strings.Contains, SHA-256, and the
-- answers of the MachineUpgrader interface, which may depend on every call made before, the
-- results of `tofu`, crypto/rand, the configurations that plugins and the Talos library render,
-- and the answers of a node to a request. What other requests do to the store while a command or
-- a request runs is a parameter too (`store_during`, `files_during`). A JSON column that the
-- code only decodes again is held decoded; times are numbers of nanoseconds, or of seconds where
-- the code stores seconds. An `int` that the code only uses from 0 on is a natural number. An
-- address on the management link is an IPv6 address of 16 bytes.
--
-- Two models run on fuel. The decimal digits of a number n have fuel n + 1, and there are no more
-- digits than that. The retry loop of the converge engine says `none` when its fuel is spent; fuel
-- of one attempt more than the budget holds pauses is enough. Every other loop of
-- the modelled code goes over a list.
--
-- Not modelled: opening and migrating the database, the durations of timers, HTTP headers, logging,
-- WireGuard and gRPC, the Talos API and the OpenTofu process themselves, OIDC, rendering of pages,
-- the command line, and the API handlers above the store.
pub mod Prelude
pub mod Sql
pub mod Effects
pub mod Maps
pub mod State
pub mod TfBackend
pub mod Tfexec
pub mod ApplyQueue
pub mod Converge
pub mod Upgrade
pub mod Mgmtlink
pub mod Patch
pub mod Pagination
pub mod Reconcile
