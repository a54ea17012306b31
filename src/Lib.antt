-- ===== src/Lib.antt =====
-- The alerting core of the GitOps dashboard, with the packages around it: what is stored, who may
-- claim, complete and prune it, which events the program's own evaluator sends, what redaction
-- hides, which agent a token stands for, and which version a release gets.
--
-- The parts, by file:
--   Prelude        shared helpers: tests on numbers, lists, text, and tables with the SQL that the
--                  program runs on them (Prelude/Rows, Prelude/Keys)
--   Sanitizer      internal/sanitizer/sanitizer.go: Redact and the normalisation of its tokens
--   Core           the health states of internal/core/models.go
--   Config         the fields of internal/config/config.go that other parts read
--   Alerts         internal/storage/alerts.go. Alerts/Types has the rows and the store,
--                  Alerts/Policy the retry policy, Alerts/Status syncAlertEventStatus, Alerts/Prepare
--                  the checks before a transaction, and Alerts/Enqueue, Claim, Record and Prune the
--                  operations EnqueueAlertEvent, ClaimPendingAlertDeliveries,
--                  RecordAlertDispatchResult and PruneTerminalAlertEvents
--   Alerts/Invariant  what holds between two transactions, and through histories of them
--   Evaluator      internal/app/alert_evaluator.go, which calls EnqueueAlertEvent; Evaluator/Phases
--                  is the machine that a target follows
--   Images         internal/core/images.go: Images/Parse has ParseImageReference, Images/Mutable the
--                  tags that may move, Images/Match the comparison with an observed image,
--                  Images/Compare and Images/Service have CompareServiceImages, and Images/Metadata
--                  what is written into the services
--   Health         internal/storage/status.go: Health/Rollup has aggregateTargetHealth,
--                  Health/Latest applyLatestStatus, and Health/Machine and Health/Produce
--                  produceHealthAlert, which enqueues an event in its own transaction;
--                  Health/Spec says what the alerts promise
--   Summary        internal/storage/summary_cache.go; Summary/Runs has its steps among transactions
--                  and calls of Summary (internal/storage/services.go)
--   Flights        internal/scanner/repo_singleflight.go: the calls that goroutines share, and the
--                  steps of the goroutines on them
--   Egress         internal/routetarget/policy.go (Policy, Compile) and the dialer of
--                  internal/monitor/http_route_policy.go (Dial), and its check of redirects (Redirect)
--   Paths          internal/scanner/path_filter.go: the include and exclude patterns of a repository
--   Alerter        internal/alerter: the worker's poll, which claims dispatches and records what the
--                  sinks answer, the sink filters, and the texts of payload.go
--   Auth           internal/auth/auth.go
--   Version        internal/ci/version.go: Allocate and parseVersion
--   Checks         the theorems at concrete inputs
--
-- A table is the list of its rows in order of their ids, with the counter of its AUTOINCREMENT key.
-- A query is a selection, ORDER BY a stable insertion sort, LIMIT a `take`. A transaction is a value
-- of `Outcome`: it commits tables with a result, or rolls back with an error, or rolls back and locks
-- the alert state. An operation on an unlocked store runs its transaction (`when_unlocked`).
-- Operations that several workers run at once are a sequence of transactions, in any order; what
-- goroutines do under a mutex is a step, and a run is any sequence of steps.
--
-- Text is the list of its bytes, and trimming, lowering and escaping are those of ASCII. A time is
-- the number of nanoseconds since 1970, 0 standing for the zero time and for NULL; a duration that
-- is not positive is 0, as the code tests `<= 0` first. Ids and counts do not overflow an int64 in
-- the model, and no clock reads a time before 1970. An unsupported bump or status is one value.
-- Taken from outside: the keyed hash and the fingerprint (`Hashes`), the clock, the random claim
-- token and the key file (`Env`), the parsing and printing of times (`TimeFormat`, `Formats`), the
-- printing of a slice (`sprint`), the answers of
-- the sinks, bcrypt and sha256.
--
-- The pruning is a loop on fuel; the number of events and one more is enough, since every batch but
-- the last deletes an event. The walk up the ancestors of a path has the length of the path as fuel,
-- as each parent is shorter. All other loops are structural recursion.
--
-- Not modelled: failures of the database itself, the repetition of busy transactions (a busy
-- transaction changed nothing), cancelled contexts, logging, the read-only listings, the
-- HTTP requests of the sinks, the rest of the status storage, of the scanner and of the monitor, the
-- parsers, the HTTP API, the agent and the web front end. The scanner, the monitor and the API are large and
-- are mostly I/O; their pure parts (route normalization, bounds) are still to come.
pub mod Prelude
pub mod Sanitizer
pub mod Core
pub mod Config
pub mod Alerts
pub mod Evaluator
pub mod Images
pub mod Health
pub mod Summary
pub mod Flights
pub mod Egress
pub mod Paths
pub mod Alerter
pub mod Version
pub mod Auth
pub mod Checks
