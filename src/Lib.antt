-- ===== src/Lib.antt =====
-- StagePilot: the control plane's registry of installations, the writing of MIDI cues for
-- MultiTracks, the dashboard's layout and readiness, song pairing, and the lighting's times and
-- messages, and the updater.
--
-- Registry (control-plane/src/index.ts). A Cloudflare Durable Object that serves one request at a
-- time. Its state is `World` (Registry/Data): the stored rows, the statistics, the windows, the
-- pending actions, the token cache, the provider lane and the log of requests to the provider. A
-- handler is an `Action`: it returns a value or an exception, and keeps what it stored before
-- (Registry/Action). `Env` holds the configuration and what the program does not compute: the
-- provider's answers by the requests made before, the clock, signatures, digests, random identifiers.
--   Registry/Windows, Limits      RateWindow, takeInstallationRate, takeDiagnosticsRate,
--                                 takeProviderBudget, stats, bumpDenied
--   Registry/Names, Device        the forms of identifiers, tunnelName, sanitizeDeviceName,
--                                 applyDeviceName
--   Registry/Provider, Cleanup    cf, tunnel, dns, configure, owned, staleOwnGeneration, removeStale,
--                                 and the teardown inside disable
--   Registry/Replies              publicInstallation, reply, credential, cachedProvision
--   Registry/Revocation           disable, adminRevoke, reactivate, reenroll,
--                                 generateUniqueInstallationId
--   Registry/Provision            provision, reconcile, ensureProvisioned
--   Registry/Pending              pendingActions, adminQueueRateLimitReset, acknowledgePendingAction
--   Registry/Sources, Enrollment  normalizeSourceAddress, exemptSources, enroll, pruneSourceQuotas
--   Registry/Fleet, Forms, Rows   the stored records, the checks of bodies, storage.list and sorting
--   Registry/Approvals, Alerts    the requests for approval and the alerts of installations
--   Registry/Diagnostics, Bundles uploadDiagnostics, expireOldDiagnostics, and the operator's reads
--   Registry/Panel                the operator's lists, label and archive flag
--   Registry/Access, Handler      isAdmin, isInstallation, the routes of an installation
--   Registry/Dispatch             handle and fetch; a request comes with its path taken apart
--   Registry/Rules, Slots         rules for what actions keep and lead to, and the invariant of the
--                                 slots; Registry/Refusals, Replay and Slots/Leak hold the others
-- The random identifiers are tried five times, as in the source, which is the bound of `unused_id`;
-- an upload sweeps 25 rows at most. Times are whole seconds, milliseconds or texts; `moment` counts
-- requests and random texts, so that the clock may move between two requests. Not modelled: the OAuth
-- exchange, the release mirror and the check of the configuration; the contents of uploads; key order
-- is that of code points.
--
-- Cues (tools/multitracks-cues/src). The service behind multitracks/gateway.ts is the interface
-- `Gateway` (Cues/Service), whose answers depend on the calls made before; `Desk` is the log of calls
-- with the journal, and code is `Exec` (Common/Exec).
--   Cues/Data                     multitracks/models.ts, cues/models.ts, errors.ts
--   Cues/Ordinals, Matching       cues/ordinal.ts, cues/compare.ts
--   Cues/Banks, Inspect, Planner, Plan   cues/planner.ts
--   Cues/Applier, Verifier        cues/applier.ts, cues/verifier.ts
--   Cues/Proposals                agent/proposals.ts; Proposals/Agent the proposing tools of
--                                 agent/tools.ts and the run in agent/runner.ts
-- A run of a proposal works on `Agent`, the desk with the store of proposals; the hash of a plan, the
-- random identifiers, the clock and what the operator types are parameters. MIDI numbers and positions
-- are natural numbers. The journal's writing to a file, the normalisation
-- of raw answers and the schema adapter are not modelled; messages that carry a position are
-- shortened.
--
-- Dashboard (frontend/src/components/dashboard). Dashboard/Json is what JSON.parse gives; the parser
-- itself and JSON.stringify are the fields of `Codec`.
--   Dashboard/Widgets             dashboardLayoutTypes.ts, dashboardWidgetRegistry.ts
--   Dashboard/Parse, Layout       dashboardLayout.ts
--   Dashboard/Storage             dashboardLayoutStorage.ts
--   Dashboard/Readiness           dashboardReadiness.ts with ../playbackStatus.ts: the state, the
--                                 settings and the answers (../../types.ts) in the records of the file,
--                                 buildConnectionCardViews in Cards, Midi, Outputs and Views,
--                                 buildReadinessChecks in Checks and System
-- The records of Readiness have the fields that the cards and checks read; a duration is a whole number
-- of seconds, and the browser's text for a moment is a parameter.
-- moveDashboardItem, and contentFit.ts, which measures elements of a page, are not modelled.
--
-- Pairing (frontend/src/components/songPairing.ts). The loop runs on fuel, one unit for each song on
-- both sides, of which every round takes at least one.
--
-- Lighting (frontend/src/components/lightingOsc.ts). formatElapsed and parseElapsed work on tenths of a
-- second, to which the source rounds, and on the UTF-16 units of a text; `String(n)` recurs on n + 1
-- digits, which are enough. Osc holds the arguments of messages; floats are a type with their reading
-- and writing. oscPortError, which reads a float, is not modelled.
--
-- Updater (frontend/src/services/updater.ts, frontend/src/hooks/useUpdater.ts). `Updater` is the hook's
-- state and references with the marker in the browser's storage and whether the backend runs; `Platform`
-- holds what the shell, the network and the clock answer in one run. Updater/Install is `install` and
-- `closeError` with the candidate's download, Updater/Relaunch is restoreAfterRelaunch. Percentages are
-- rounded on natural numbers. checkForUpdate, the confirmation, and two runs at the same time are not
-- modelled.
--
-- Smaller parts of frontend/src: Access (access/accessState.ts, whose variables are a record),
-- Dashboard/Errors with Standing and ActiveError (components/dashboard/dashboardActiveError.ts, where the
-- name of a component is taken for a key of the table only if the table lists it) and Startup
-- (startup/startupProgress.ts without the curve of the progress).
--
-- Examples holds concrete runs of each part.
pub mod Access
pub mod Common
pub mod Cues
pub mod Dashboard
pub mod Examples
pub mod Lighting
pub mod Pairing
pub mod Registry
pub mod Startup
pub mod Updater
