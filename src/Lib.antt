-- ===== src/Lib.antt =====
-- e2b-local is a local gateway for sandboxes: HTTP clients create, list, pause, resume, extend
-- and kill sandboxes and build templates; a runtime backend (Docker, OrbStack or Apple
-- containers) runs them. This library models the control plane of the gateway, internal/gateway,
-- over an arbitrary backend, and parts of the Docker backend.
--
-- How the parts interact. A handler finds a record in the store under the lock of its sandbox,
-- may compare it with the runtime, calls the runtime, changes the record, and brings the timer of
-- the sandbox in line with the record. A creation stores its record and sets its timer without
-- the lock. When a timer fires, its callback takes the same lock and kills or pauses the sandbox.
-- The clock, the random ids and the runtime are arguments of the model (Runtime.antt): the
-- runtime is a state with calls that may fail and may change that state in any way.
--
-- Files. Where no folder is named, the sources stand in internal/gateway.
--   Prelude, Prelude/*: Boolean tests, lists and texts over the native numbers; Go's maps as
--     association lists; sort.Slice and sort.Strings as insertion by a test.
--   Types, Types/Merge: types.go, runtime.go: the record, the timeout actions, expiry, and the
--     merges of new with cached data.
--   Errors: GatewayError and the other errors of gateway_callbacks.go.
--   Store, Store/*: store.go: SandboxStore. The handlers take lock_sandbox as the lookup that it
--     returns; Store/Locking has its loop between goroutines, and shows that a handler under the
--     lock may be read as one step.
--   Deadlines, Deadlines/Laws: sandbox_deadlines.go: sandboxDeadlineManager. The table keeps the
--     entry of a timer that has fired, as the source does.
--   Runtime: runtime.go: SandboxRuntime, SandboxRuntimeInspector and SandboxRuntimeMetrics, as
--     parameters.
--   App, App/*: server.go: the state that the handlers change, and actions on it; what an action
--     wrote before an error stays written.
--   Mounts: sandboxVolumeMounts and normalizeVolumeMounts.
--   Lifecycle, Lifecycle/*: sandbox_deletion.go and gateway_callbacks.go: deletion, pause,
--     reconciliation with the runtime.
--   Requests, Requests/*: gateway_callbacks.go: the default handlers of the sandbox requests.
--   Expiry, Expiry/*: sandbox_deadlines.go: expireSandboxLocked and its retry; server.go: the
--     restore; the kill of all sandboxes.
--   History, History/*: any sequence of handlers, parts of creations, timers, callbacks and the
--     shutdown, as one run; a creation holds no lock, so other steps may come between its two
--     parts.
--   Listing, Listing/*: gateway_callbacks.go: defaultListSandboxes with its filters and pages.
--   Builds, Builds/*: template_build_manager.go: the reservations of template builds.
--   Metrics, Metrics/*: gateway_callbacks.go: the metrics of sandboxes and of the team, and the
--     local node.
--   Names: appendUniqueStrings and normalizedTags.
--   Images, Images/*: the names of images and templates: shared_helpers.go, gateway_callbacks.go.
--   Archive, Archive/*: template_files.go: the names, limits and digests of uploaded archives.
--   Catalog, Catalog/*: gateway_callbacks.go, gateway_api.go: the list of templates and the
--     handlers that create, build, tag and delete them; the runtime's builder is a parameter.
--   Docker, Docker/*: internal/backends/docker/runtime.go: the build context, the Dockerfile, the
--     names of images and the published ports of the Docker backend, without the calls of Docker.
--   Config, Config/*: config.go: the defaults, the resolved paths and the validation.
--   Logs, Logs/Laws: gateway_callbacks.go: the selection of the entries of a build's log.
--   Management, Management/*: management_store.go: templates, tags, builds, node statuses, and
--     the uploads of build files.
--   Tests, Tests/*: the theorems at concrete data.
--
-- Bounds and choices. A time is a natural number of nanoseconds, with 0 for Go's zero time, and
-- is taken not to overflow; a timeout is a signed number of seconds. Fields of type int32 and
-- int64 are integers without a bound. Every loop is structural recursion over its list, so no
-- fuel is used; the one fuel is the number of requests of the client in Listing/Pages, and one
-- more than the number of records is enough. Maps are read in the order of their entries where
-- Go's order is random.
--
-- Not modelled: the HTTP layer and its types, since they only translate; the commands, the volume
-- contents, the OrbStack and Apple backends and the rest of the Docker backend, since they are
-- I/O behind the runtime interface; the reading of the configuration file, of the environment and
-- of the network interfaces; the formats of gzip and tar, of which the entries are taken as the
-- reader gives them; the fields of metrics and nodes that are constants of the build or of the
-- host. saveLocked always returns nil, so the branches after its failure are left out.
pub mod Prelude
pub mod Types
pub mod Errors
pub mod Store
pub mod Deadlines
pub mod Runtime
pub mod App
pub mod Archive
pub mod Images
pub mod Catalog
pub mod Config
pub mod Docker
pub mod Metrics
pub mod Mounts
pub mod Lifecycle
pub mod Requests
pub mod Expiry
pub mod Names
pub mod Listing
pub mod Builds
pub mod Logs
pub mod Management
pub mod History
pub mod Tests
