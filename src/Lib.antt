-- ===== src/Lib.antt =====
-- The Release and ModuleRelease controllers of this repository: internal/reconcile and the packages that
-- it calls.
--
-- A Release names a Flux source. Its reconcile loop (internal/reconcile/release.go) checks that it may go
-- on, resolves the source, fetches and unpacks the artifact, finds the package in it, renders it, compares
-- the digests with those last applied, applies the objects, prunes the ones that left the inventory, and
-- commits a status. On deletion it prunes what the inventory names and then lets its finalizer go.
-- A ModuleRelease names a module of a registry. Its loop (internal/reconcile/modulerelease.go) renders that
-- module and goes on in the same way; it also looks for drift each time, and prunes as the owner that the
-- rendered objects are labelled with.
-- Rendering (pkg/render) compares every component of a release with every transformer of a provider, runs
-- each pair that matches as a CUE value, and gives nothing if a component is left over or a run fails. The
-- loops take the renderer as a parameter.
--
-- Files, each with the code it models:
--   Prelude           shared names, texts, 64-bit counters, errors and results, a stable sort
--   Prelude/Paths     paths as lists of names, and filepath.Clean of a rooted path
--   Api               api/v1alpha1: the spec and the status of a Release and a ModuleRelease
--   Core              pkg/core: labels, resources and their conversion
--   Status            internal/status: Conditions (the Mark functions), Counters, History, Digests
--   Inventory         internal/inventory: entries, identity, the stale set, the digest
--   Apply             internal/apply: Ssa (apply.go), Drift, Impersonate, Prune
--   Source            internal/source: resolve.go, artifact.go, the errors of validate.go; Disk (the calls of
--                     package os), Extract (extract.go), Fetch (fetch.go, validate.go)
--   Errors            pkg/errors/config_error.go: grouping the errors of CUE
--   Render            pkg/render: Match (match.go), Execute (execute.go), Module (module_renderer.go,
--                     process_modulerelease.go, finalize.go)
--   Reconcile         internal/reconcile: Outcome, Backoff, Counters, World, Release (release.go), Module
--                     (modulerelease.go), and Verdict (what an outcome makes of the conditions)
--   Reconcile/World   what the loop is given (ReleaseParams and the clients) and the state it carries
--   Reconcile/Release Path (resolvePackagePath), Identity (service accounts), Depends (checkDependsOn),
--                     Phases and Applying (one function per phase), Attempt (the body), Commit (the deferred status
--                     commit), Deletion (handleReleaseDeletion), Loop (ReconcileRelease)
--   Reconcile/Module  World (ModuleReleaseParams), Applying (detectDrift, pruneStaleResources,
--                     buildApplyClient, extractReleaseUUID), Attempt (the body), Commit (the deferred
--                     commit), Deletion (handleDeletion), Loop (ReconcileModuleRelease)
--   Controller        internal/controller/release_controller.go: mapSourceToReleases, sourceArtifactChanged
--   Tests             runs at a sample release
--
-- State and errors: the loop carries the release in hand, the state of the cluster and the calls made so
-- far (St). The state of the cluster is a parameter; the client and the resource manager say what a call
-- answers and what it makes of that state. Reads of the API server, the fetcher, the file system, the
-- renderer and the clock are fields of World, one per call. A phase that fails passes on the outcome, the
-- message and the delay, as phaseFail does, and the deferred functions are applied to what the body leaves.
--
-- Not under this repository, and so parameters: the condition operations of fluxcd/pkg/runtime (with what
-- a look-up finds after each), sha256 and encoding/json, the CUE library's answers about its values, fluxcd's
-- ResourceManager, the Kubernetes client. A theorem that needs more of them says so in its hypotheses.
--
-- Numbers: an int64 is its bit pattern below 2 ^ 64, and counting wraps around (inc64). A time or a
-- duration is a number of nanoseconds. The backoff's floating-point product is exact up to the cap. There
-- is no fuel but in the printing of a decimal number, where n + 1 rounds are more than the digits of n.
--
-- Places: a path of the destination is its list of names, since what filepath.Join and Clean make of it is
-- such a list; the test that a link stays in the destination is the test that one list ends in the other.
-- A call of the file system names a place; where it leads, over links on the way included, is for the file
-- system to say, which is a parameter, so that a statement about places is one about names.
--
-- Maps: a Go map is a list of its entries; where the code ranges over one, the list's order stands for the
-- order of the iteration.
--
-- Not modelled: log lines, metrics and the notes of events; the registration of watches; CUE loading and
-- synthesis, and so the way from the loops to pkg/render (internal/render, pkg/module, pkg/loader); the
-- temporary file of a download; generated code.
pub mod Prelude
pub mod Api
pub mod Status
pub mod Core
pub mod Inventory
pub mod Apply
pub mod Source
pub mod Errors
pub mod Render
pub mod Reconcile
pub mod Controller
pub mod Tests
